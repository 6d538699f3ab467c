-- ===== src/Command/Signals.antt =====
-- The loop over the signals: an account of its own of the reloads and of the end.
use tsdnsreflector.Prelude.{
  ◌≡◌, ◌⊎◌, inl, inr, refl, ap, sym, ◌∙◌, Text, Bool, true, false, Option, List, [], ◌∷◌, arith,
}
use mathlib.Core.Path.{subst}
use tsdnsreflector.Prelude.Result.{ok, Result-cases, ok_injective}
use tsdnsreflector.Config.{Config}
use tsdnsreflector.Config.Load.{Decoder, load}
use tsdnsreflector.Config.Validate.{validate_zones}
use tsdnsreflector.Via6.{Translator, new_translator}
use tsdnsreflector.Dns.Server
use tsdnsreflector.Dns.Server.{reload_config, apply_config, new_server}
use tsdnsreflector.Dns.Server.Running.{
  IsRunning, all_stopped, stop_caches-IsRunning, reload_caches-IsRunning,
}
use tsdnsreflector.Dns.Startup.{Run, stop}
use tsdnsreflector.Dns.Steps.{Reachable, reload, after}
use tsdnsreflector.Command.{
  Signal, hangup, interrupt, terminate, Outcome, waiting, stopped, panicked, stop_result,
  reload_run, reload_configuration, handle_signals,
}
use tsdnsreflector.World.{World}

-- An interrupt or a termination is among the signals.
abbrev pub ends : List Signal → Bool
ends [] = false
ends (hangup file ∷ signals) = ends signals
ends (interrupt ∷ signals) = true
ends (terminate ∷ signals) = true

-- What the file is at each hangup before the first of those.
abbrev pub files_of : List Signal → List (Option Text)
files_of [] = []
files_of (hangup file ∷ signals) = file ∷ files_of signals
files_of (interrupt ∷ signals) = []
files_of (terminate ∷ signals) = []

module _ (w : World) (d : Decoder) where
  -- The file is read as this configuration, which is valid and has a translator.
  abbrev pub Accepts : Option Text → Config → Type 0
  Accepts file cfg =
      (load w.parse_duration d file ≡ ok cfg)
      × (validate_zones w.parse_duration cfg ≡ ok tt)
      × ((t : Translator) × (new_translator w cfg ≡ ok t))

  -- The configuration after the files: that of the last one accepted, or else the first.
  pub data LastAccepted : Config → List (Option Text) → Config → Type 0 where
    unchanged : {cfg : Config} → LastAccepted cfg [] cfg
    taken :
        {cfg new last : Config} {file : Option Text} {files : List (Option Text)}
        → Accepts file new
        → LastAccepted new files last
        → LastAccepted cfg (file ∷ files) last
    refused :
        {cfg last : Config} {file : Option Text} {files : List (Option Text)}
        → ((new : Config) → ¬ Accepts file new)
        → LastAccepted cfg files last
        → LastAccepted cfg (file ∷ files) last

  -- The server has this configuration, its handler knows of the TSNet server or not, no cache has
  -- been stopped, and events lead to the server.
  pub record Serves (tsnet : Bool) (cfg : Config) (s : Server.Server) : Type 0 where
    pub config : s.handler.config ≡ cfg
    pub tsnet_known : s.handler.tsnet ≡ tsnet
    pub running : IsRunning s.state.caches
    pub reached : Reachable w d s

  -- After the signals the program waits if none ends it, and else has stopped all caches; it does
  -- not panic.
  abbrev pub Follows : Bool → Config → List Signal → Outcome → Type 0
  Follows tsnet cfg signals (waiting r) =
      (ends signals ≡ false)
      × ((last : Config) × LastAccepted cfg (files_of signals) last
          × Serves tsnet last r.program.server)
  Follows tsnet cfg signals (stopped r) =
      (ends signals ≡ true)
      × ((last : Config) × LastAccepted cfg (files_of signals) last
          × (r.program.server.handler.config ≡ last)
          × (all_stopped r.program.server.state.caches ≡ true)
          × (r.connected ≡ false))
  Follows tsnet cfg signals panicked = ⊥

  Follows-taken :
      (tsnet : Bool) (cfg new : Config) (file : Option Text) (signals : List Signal) (o : Outcome)
      → Accepts file new
      → Follows tsnet new signals o
      → Follows tsnet cfg (hangup file ∷ signals) o
  Follows-taken tsnet cfg new file signals (waiting r) a (e, (last, l, serves)) =
      (e, (last, taken a l, serves))
  Follows-taken tsnet cfg new file signals (stopped r) a (e, (last, l, is, all, off)) =
      (e, (last, taken a l, is, all, off))
  Follows-taken tsnet cfg new file signals panicked a f = f

  Follows-refused :
      (tsnet : Bool) (cfg : Config) (file : Option Text) (signals : List Signal) (o : Outcome)
      → ((new : Config) → ¬ Accepts file new)
      → Follows tsnet cfg signals o
      → Follows tsnet cfg (hangup file ∷ signals) o
  Follows-refused tsnet cfg file signals (waiting r) never (e, (last, l, serves)) =
      (e, (last, refused never l, serves))
  Follows-refused tsnet cfg file signals (stopped r) never (e, (last, l, is, all, off)) =
      (e, (last, refused never l, is, all, off))
  Follows-refused tsnet cfg file signals panicked never f = f

  Accepts-or_not :
      (file : Option Text)
      → ((new : Config) × Accepts file new) ⊎ ((new : Config) → ¬ Accepts file new)
  Accepts-or_not file = elim (Result-cases (load w.parse_duration d file)) [
    | inl (new, e) ↦ elim (Result-cases (validate_zones w.parse_duration new)) [
      | inl (valid, v) ↦ elim (Result-cases (new_translator w new)) [
        | inl (t, m) ↦ inl (new, (e, v, (t, m)))
        | inr (x, m) ↦ inr (λ other a.
            let same : new ≡ other = ok_injective new other (sym e ∙ a.0) in
            let other_made : new_translator w new ≡ ok a.2.0 = ap (new_translator w) same ∙ a.2.1 in
            absurd (ground (arith, m, other_made)))
      ]
      | inr (x, v) ↦ inr (λ other a.
          let same : new ≡ other = ok_injective new other (sym e ∙ a.0) in
          let good : validate_zones w.parse_duration new ≡ ok tt =
            ap (validate_zones w.parse_duration) same ∙ a.1 in
          absurd (ground (arith, v, good)))
    ]
    | inr (x, e) ↦ inr (λ other a. absurd (ground (arith, e, a.0)))
  ]

  module _ (tsnet : Bool) (cfg : Config) (file : Option Text) (s : Server.Server)
      (serves : Serves tsnet cfg s) where
    after_reload : Reachable w d (reload_configuration w d file s).0
    after_reload = after serves.reached (reload file)

    -- A reload takes an accepted file.
    reload-accepted :
        (new : Config) → Accepts file new → Serves tsnet new (reload_configuration w d file s).0
    unfolding reload_configuration reload_config apply_config
    reload-accepted new (e, v, (t, m)) = record {
      config = rw (e, v, m) refl;
      tsnet_known = rw (e, v, m) serves.tsnet_known;
      running =
          rw (e, v, m)
            (reload_caches-IsRunning w new s.state.caches serves.running new.zones [] refl);
      reached = after_reload;
    }

    same_server : ((new : Config) → ¬ Accepts file new) → (reload_configuration w d file s).0 ≡ s
    unfolding reload_configuration reload_config apply_config
    same_server never = elim (Result-cases (load w.parse_duration d file)) [
      | inl (new, e) ↦ elim (Result-cases (validate_zones w.parse_duration new)) [
        | inl (valid, v) ↦ elim (Result-cases (new_translator w new)) [
          | inl (t, m) ↦ absurd (never new (e, v, (t, m)))
          | inr (x, m) ↦ rw (e, v, m) refl
        ]
        | inr (x, v) ↦ rw (e, v) refl
      ]
      | inr (x, e) ↦ rw e refl
    ]

    -- Any other leaves the server.
    reload-refused :
        ((new : Config) → ¬ Accepts file new) → Serves tsnet cfg (reload_configuration w d file s).0
    reload-refused never = subst (Serves tsnet cfg) (sym (same_server never)) serves

  stop-Follows :
      (tsnet : Bool) (cfg : Config) (r : Run) (signals : List Signal)
      → ends signals ≡ true
      → files_of signals ≡ []
      → Serves tsnet cfg r.program.server
      → Follows tsnet cfg signals (stop_result (stop r))
  unfolding stop
  stop-Follows tsnet cfg r signals e none_left serves =
      let (cs, is, all) = stop_caches-IsRunning r.program.server.state.caches serves.running in
      rw (is, none_left) (e, (cfg, unchanged, serves.config, all, refl))

  pub handle_signals-Follows :
      (tsnet : Bool) (cfg : Config) (signals : List Signal) (r : Run)
      → Serves tsnet cfg r.program.server
      → Follows tsnet cfg signals (handle_signals w d signals r)
  unfolding handle_signals
  handle_signals-Follows tsnet cfg [] r serves = (refl, (cfg, unchanged, serves))
  handle_signals-Follows tsnet cfg (hangup file ∷ signals) r serves =
      let r' = reload_run w d file r in
      elim (Accepts-or_not file) [
        | inl (new, accepted) ↦
            Follows-taken tsnet cfg new file signals (handle_signals w d signals r') accepted (
              handle_signals-Follows tsnet new signals r'
                (reload-accepted tsnet cfg file r.program.server serves new accepted))
        | inr never ↦ Follows-refused tsnet cfg file signals (handle_signals w d signals r') never (
            handle_signals-Follows tsnet cfg signals r'
              (reload-refused tsnet cfg file r.program.server serves never))
      ]
  handle_signals-Follows tsnet cfg (interrupt ∷ signals) r serves =
      stop-Follows tsnet cfg r (interrupt ∷ signals) refl refl serves
  handle_signals-Follows tsnet cfg (terminate ∷ signals) r serves =
      stop-Follows tsnet cfg r (terminate ∷ signals) refl refl serves
