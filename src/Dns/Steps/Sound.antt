-- ===== src/Dns/Steps/Sound.antt =====
-- What holds of every server that events lead to, besides its caches.
use tsdnsreflector.Prelude.{ℕ, ◌≡◌, refl, ap, sym, ◌∙◌, inl, inr, Text, Bool, Option, if_both}
use mathlib.Core.Path.{subst}
use tsdnsreflector.Prelude.Result.{Result, ok, err, Result-cases}
use tsdnsreflector.Config.{Config}
use tsdnsreflector.Config.Load.{Decoder, IsLoaded, load, load-IsLoaded}
use tsdnsreflector.Config.Validate.{ZoneError, validate_zones}
use tsdnsreflector.Via6.{new_translator}
use tsdnsreflector.Command.{reload_configuration}
use tsdnsreflector.Dns.{new_forwarder, parse_timeout}
use tsdnsreflector.Dns.Server.{Server, new_server, start, apply_config, apply_valid, reload_config}
use tsdnsreflector.Dns.Server.Made.{new_server-IsMade}
use tsdnsreflector.Dns.Steps.{Step, Reachable, query, reload, started, cleanup, check, made, after}
use tsdnsreflector.World.{World}

module _ (w : World) where
  -- The handler's configuration is one that `Load` accepts, and its translator and its forwarder's
  -- servers, timeout and retries are made from this configuration.
  pub record IsSound (s : Server) : Type 0 where
    pub loaded : IsLoaded w.parse_duration s.handler.config
    pub translator : new_translator w s.handler.config ≡ ok s.handler.via6_trans
    pub backends : s.handler.forwarder.backends ≡ s.handler.config.global.backend.dns_servers
    pub timeout :
        s.handler.forwarder.timeout ≡ parse_timeout w s.handler.config.global.backend.timeout
    pub retries : s.handler.forwarder.retries ≡ s.handler.config.global.backend.retries

  same_handler : (s s' : Server) → s.handler ≡ s'.handler → IsSound s → IsSound s'
  same_handler s s' same sound = record {
    loaded = subst (λ h. IsLoaded w.parse_duration h.config) same sound.loaded;
    translator = subst (λ h. new_translator w h.config ≡ ok h.via6_trans) same sound.translator;
    backends =
        subst (λ h. h.forwarder.backends ≡ h.config.global.backend.dns_servers) same sound.backends;
    timeout =
        subst (λ h. h.forwarder.timeout ≡ parse_timeout w h.config.global.backend.timeout) same
          sound.timeout;
    retries = subst (λ h. h.forwarder.retries ≡ h.config.global.backend.retries) same sound.retries;
  }

  apply_valid-IsSound :
      (cfg : Config) (s : Server) (r : Result ZoneError (Unit {0}))
      → IsLoaded w.parse_duration cfg
      → IsSound s
      → IsSound (apply_valid w cfg s r).0
  unfolding apply_config new_forwarder
  apply_valid-IsSound cfg s (err e) l sound = sound
  apply_valid-IsSound cfg s (ok valid) l sound = elim (Result-cases (new_translator w cfg)) [
    | inl (t, e) ↦
        rw e
          (record { loaded = l; translator = e; backends = refl; timeout = refl; retries = refl })
    | inr (x, e) ↦ rw e sound
  ]

  new_server-IsSound :
      (ttl : ℕ) (tsnet : Bool) (cfg : Config) (s : Server)
      → IsLoaded w.parse_duration cfg
      → new_server w ttl tsnet cfg ≡ ok s
      → IsSound s
  unfolding new_forwarder
  new_server-IsSound ttl tsnet cfg s l h =
      let m = new_server-IsMade w ttl tsnet cfg s h in
      record {
        loaded = subst (IsLoaded w.parse_duration) (sym m.config) l;
        translator = ap (new_translator w) m.config ∙ m.translator;
        backends =
            ap (λ f. f.backends) m.forwarder
            ∙ ap (λ c. c.global.backend.dns_servers) (sym m.config);
        timeout =
            ap (λ f. f.timeout) m.forwarder
            ∙ ap (λ c. parse_timeout w c.global.backend.timeout) (sym m.config);
        retries =
            ap (λ f. f.retries) m.forwarder ∙ ap (λ c. c.global.backend.retries) (sym m.config);
      }

  module _ (d : Decoder) where
    reload-IsSound :
        (file : Option Text) (s : Server) → IsSound s → IsSound (reload_configuration w d file s).0
    unfolding reload_configuration reload_config
    reload-IsSound file s sound = elim (Result-cases (load w.parse_duration d file)) [
      | inl (cfg, e) ↦ rw e (
          apply_valid-IsSound cfg s (validate_zones w.parse_duration cfg)
            (load-IsLoaded w.parse_duration d file cfg e) sound)
      | inr (x, e) ↦ rw e sound
    ]

    -- Whether `Start` has handed the TSNet server over makes no difference.
    start-IsSound : (s : Server) → IsSound s → IsSound (start w s)
    unfolding start new_forwarder
    start-IsSound s sound =
        if_both IsSound s.tsnet _ s
          (record {
            loaded = sound.loaded;
            translator = sound.translator;
            backends = sound.backends;
            timeout = sound.timeout;
            retries = sound.retries;
          })
          sound

    step-IsSound : (s s' : Server) → Step w d s s' → IsSound s → IsSound s'
    step-IsSound s s' (query remote r state served) sound = same_handler s s' refl sound
    step-IsSound s s' (reload file) sound = reload-IsSound file s sound
    step-IsSound s s' started sound = start-IsSound s sound
    step-IsSound s s' (cleanup now name c there) sound = same_handler s s' refl sound
    step-IsSound s s' check sound = same_handler s s' refl sound

    -- In every server that events lead to, the handler's configuration has its defaults and is
    -- valid, and the handler's translator and forwarder are those that are made from it.
    pub Reachable-IsSound : (s : Server) → Reachable w d s → IsSound s
    Reachable-IsSound s (made file cfg ttl tsnet loaded created) =
        new_server-IsSound ttl tsnet cfg s (load-IsLoaded w.parse_duration d file cfg loaded)
          created
    Reachable-IsSound s' (after {s} before one) = step-IsSound s s' one (Reachable-IsSound s before)
