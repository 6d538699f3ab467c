-- ===== src/Dns/Steps/Caches.antt =====
-- The caches of a server, as sequences of calls on new caches.
use tsdnsreflector.Prelude.{
  ℕ, ◌≤◌, ◌≡◌, inl, inr, refl, sym, Text, Bool, Option, none, some, [], ◌∷◌, Dict, lookup, Distinct,
  Bool-cases,
}
use mathlib.Core.Path.{subst}
use tsdnsreflector.Prelude.Result.{Result, ok, err, Result-cases}
use tsdnsreflector.Config.{Config, Zone, CacheConfig}
use tsdnsreflector.Config.Load.{Decoder, load}
use tsdnsreflector.Config.Validate.{ZoneError, validate_zones}
use tsdnsreflector.Via6.{new_translator}
use tsdnsreflector.Cache.{ZoneCache, new_zone_cache, size}
use tsdnsreflector.Cache.Capacity.{limit}
use tsdnsreflector.Command.{reload_configuration}
use tsdnsreflector.Dns.Kept.Instances.{
  Kept, Kept-Steps, AllCaches, insert-AllCaches, lookup-AllCaches,
}
use tsdnsreflector.Dns.Kept.Serve.{serve_dns-R}
use tsdnsreflector.Dns.Server.{
  Server, new_server, start, add_cache, make_caches, cache_size_of, cache_ttl, reused, reload_cache,
  reload_caches, apply_config, apply_valid, reload_config,
}
use tsdnsreflector.Dns.Server.Made.{new_server-IsMade}
use tsdnsreflector.Dns.Steps.{Step, Reachable, query, reload, started, cleanup, check, made, after}
use tsdnsreflector.World.{World}
use tsdnsreflector.Dns.Steps.Runs.{IsRun, new-IsRun, set-IsRun, cleanup-IsRun, IsRun-size}

module _ (w : World) where
  abbrev AllRuns : Dict ZoneCache → Type 0
  AllRuns = AllCaches (IsRun w.dns)

  add_cache-AllRuns :
      (cfg : Config) (name : Text) (o : Option CacheConfig) (caches : Dict ZoneCache)
      → AllRuns caches
      → AllRuns (add_cache w cfg name o caches)
  add_cache-AllRuns cfg name none caches all = all
  add_cache-AllRuns cfg name (some c) caches all =
      insert-AllCaches (IsRun w.dns) name _ caches
        (new-IsRun w.dns (cache_size_of cfg c) (cache_ttl w c) name) all

  make_caches-AllRuns :
      (cfg : Config) (zs : Dict Zone) (caches : Dict ZoneCache)
      → AllRuns caches
      → AllRuns (make_caches w cfg zs caches)
  unfolding make_caches
  make_caches-AllRuns cfg [] caches all = all
  make_caches-AllRuns cfg ((name, z) ∷ zs) caches all =
      make_caches-AllRuns cfg zs (add_cache w cfg name z.cache caches)
        (add_cache-AllRuns cfg name z.cache caches all)

  module _ (cfg : Config) (old : Dict ZoneCache) (known : AllRuns old) where
    reused-IsRun :
        (name : Text) (c : CacheConfig) (o : Option ZoneCache)
        → lookup name old ≡ o
        → IsRun w.dns (reused w cfg name c o)
    unfolding new_zone_cache
    reused-IsRun name c none e = new-IsRun w.dns (cache_size_of cfg c) (cache_ttl w c) []
    reused-IsRun name c (some existing) e = lookup-AllCaches (IsRun w.dns) name existing old e known

    reload_cache-AllRuns :
        (name : Text) (o : Option CacheConfig) (caches : Dict ZoneCache)
        → AllRuns caches
        → AllRuns (reload_cache w cfg old name o caches)
    reload_cache-AllRuns name none caches all = all
    reload_cache-AllRuns name (some c) caches all =
        insert-AllCaches (IsRun w.dns) name _ caches (reused-IsRun name c (lookup name old) refl)
          all

    reload_caches-AllRuns :
        (zs : Dict Zone) (caches : Dict ZoneCache)
        → AllRuns caches
        → AllRuns (reload_caches w cfg old zs caches)
    unfolding reload_caches
    reload_caches-AllRuns [] caches all = all
    reload_caches-AllRuns ((name, z) ∷ zs) caches all =
        reload_caches-AllRuns zs (reload_cache w cfg old name z.cache caches)
          (reload_cache-AllRuns name z.cache caches all)

  apply_valid-AllRuns :
      (cfg : Config) (s : Server) (r : Result ZoneError (Unit {0}))
      → AllRuns s.state.caches
      → AllRuns (apply_valid w cfg s r).0.state.caches
  unfolding apply_config
  apply_valid-AllRuns cfg s (err e) all = all
  apply_valid-AllRuns cfg s (ok valid) all = elim (Result-cases (new_translator w cfg)) [
    | inl (t, e) ↦ rw e (reload_caches-AllRuns cfg s.state.caches all cfg.zones [] tt)
    | inr (x, e) ↦ rw e all
  ]

  new_server-AllRuns :
      (ttl : ℕ) (tsnet : Bool) (cfg : Config) (s : Server)
      → new_server w ttl tsnet cfg ≡ ok s
      → AllRuns s.state.caches
  new_server-AllRuns ttl tsnet cfg s h =
      subst AllRuns (sym (new_server-IsMade w ttl tsnet cfg s h).caches)
        (make_caches-AllRuns cfg cfg.zones [] tt)

  module _ (d : Decoder) where
    reload-AllRuns :
        (file : Option Text) (s : Server)
        → AllRuns s.state.caches
        → AllRuns (reload_configuration w d file s).0.state.caches
    unfolding reload_configuration reload_config
    reload-AllRuns file s all = elim (Result-cases (load w.parse_duration d file)) [
      | inl (cfg, e) ↦ rw e (apply_valid-AllRuns cfg s (validate_zones w.parse_duration cfg) all)
      | inr (x, e) ↦ rw e all
    ]

    step-AllRuns :
        (s s' : Server) → Step w d s s' → AllRuns s.state.caches → AllRuns s'.state.caches
    unfolding start
    step-AllRuns s s' (query remote r state served) all =
        serve_dns-R w (Kept (IsRun w.dns)) (Kept-Steps w (IsRun w.dns) (set-IsRun w.dns)) s.handler
          r remote s.state state served all
    step-AllRuns s s' (reload file) all = reload-AllRuns file s all
    step-AllRuns s s' started all = elim (Bool-cases s.tsnet) [
      | inl e ↦ rw e all
      | inr e ↦ rw e all
    ]
    step-AllRuns s s' (cleanup now name c there) all =
        insert-AllCaches (IsRun w.dns) name _ s.state.caches
          (cleanup-IsRun w.dns now c
            (lookup-AllCaches (IsRun w.dns) name c s.state.caches there all))
          all
    step-AllRuns s s' check all = all

    -- In every server that events lead to, each cache is what a sequence of calls makes of a new
    -- cache, in which each `Set` is under a key without a client's address.
    pub Reachable-IsRun : (s : Server) → Reachable w d s → AllCaches (IsRun w.dns) s.state.caches
    Reachable-IsRun s (made file cfg ttl tsnet loaded created) =
        new_server-AllRuns ttl tsnet cfg s created
    Reachable-IsRun s' (after {s} before one) = step-AllRuns s s' one (Reachable-IsRun s before)

    -- In every server that events lead to, each zone's cache has at most as many entries as its
    -- size limit, or at most one where that limit is below 1, and no key twice.
    pub Reachable-size :
        (s : Server) (name : Text) (c : ZoneCache)
        → Reachable w d s
        → lookup name s.state.caches ≡ some c
        → (size c ≤ limit c.max_size) × Distinct c.entries
    Reachable-size s name c reached there =
        IsRun-size w.dns c
          (lookup-AllCaches (IsRun w.dns) name c s.state.caches there (Reachable-IsRun s reached))
