-- ===== src/Dns/Steps/Counters.antt =====
-- The memory monitor and the recorded events of every server that events lead to.
use tsdnsreflector.Prelude.{
  ℕ, suc, ◌≤◌, ◌≡◌, refl, sym, inl, inr, Text, Option, [], ◌∷◌, Dict, if_both, arith,
}
use mathlib.Core.Path.{subst}
use tsdnsreflector.Prelude.Result.{Result, ok, err, Result-cases}
use tsdnsreflector.Config.{Config, Zone}
use tsdnsreflector.Config.Load.{Decoder, load}
use tsdnsreflector.Config.Validate.{ZoneError, validate_zones}
use tsdnsreflector.Via6.{new_translator}
use tsdnsreflector.Memory.{Monitor, new_monitor}
use tsdnsreflector.Memory.Limits.{IsSafe, IsUsable, register-IsSafe, check-IsSafe}
use tsdnsreflector.Command.{reload_configuration}
use tsdnsreflector.Dns.Kept.Serve.{serve_dns-R}
use tsdnsreflector.Dns.Kept.Instances.{
  StaysSafe, StaysSafe-Steps, Counted, Counted-Steps, queries_of, errors_of,
}
use tsdnsreflector.Dns.Server.{
  Server, start, register_zones, memory_limits, apply_config, apply_valid, reload_config,
}
use tsdnsreflector.Dns.Server.Made.{new_server-IsMade}
use tsdnsreflector.Dns.Steps.{Step, Reachable, query, reload, started, cleanup, check, made, after}
use tsdnsreflector.World.{World}

module _ (w : World) where
  memory_limits-IsUsable : IsUsable memory_limits
  memory_limits-IsUsable = record { cache_limit = omega arith; buffer_limit = omega arith }

  register_zones-IsSafe :
      (readings : ℕ) (zs : Dict Zone) (m : Monitor)
      → IsSafe memory_limits m
      → IsSafe memory_limits (register_zones w readings zs m)
  unfolding register_zones
  register_zones-IsSafe readings [] m safe = safe
  register_zones-IsSafe readings ((name, z) ∷ zs) m safe =
      register_zones-IsSafe (suc readings) zs _
        (register-IsSafe memory_limits (w.clock readings) name m memory_limits-IsUsable safe)

  new_monitor-IsSafe : IsSafe memory_limits (new_monitor memory_limits)
  unfolding new_monitor
  new_monitor-IsSafe = record { limits_kept = refl; few_zones = omega arith; within = tt }

  -- A reload changes neither the monitor nor the events.
  apply_valid-monitor :
      (cfg : Config) (s : Server) (r : Result ZoneError (Unit {0}))
      → ((apply_valid w cfg s r).0.state.monitor ≡ s.state.monitor)
        × ((apply_valid w cfg s r).0.state.events ≡ s.state.events)
  unfolding apply_config
  apply_valid-monitor cfg s (err e) = (refl, refl)
  apply_valid-monitor cfg s (ok valid) = elim (Result-cases (new_translator w cfg)) [
    | inl (t, e) ↦ rw e (refl, refl)
    | inr (x, e) ↦ rw e (refl, refl)
  ]

  module _ (d : Decoder) where
    reload-monitor :
        (file : Option Text) (s : Server)
        → ((reload_configuration w d file s).0.state.monitor ≡ s.state.monitor)
          × ((reload_configuration w d file s).0.state.events ≡ s.state.events)
    unfolding reload_configuration reload_config
    reload-monitor file s = elim (Result-cases (load w.parse_duration d file)) [
      | inl (cfg, e) ↦ rw e (apply_valid-monitor cfg s (validate_zones w.parse_duration cfg))
      | inr (x, e) ↦ rw e (refl, refl)
    ]

    start-monitor :
        (s : Server)
        → ((start w s).state.monitor ≡ s.state.monitor)
          × ((start w s).state.events ≡ s.state.events)
    unfolding start
    start-monitor s =
        if_both (λ x. (x.state.monitor ≡ s.state.monitor) × (x.state.events ≡ s.state.events))
          s.tsnet _ s (refl, refl) (refl, refl)

    step-IsSafe :
        (s s' : Server)
        → Step w d s s'
        → IsSafe memory_limits s.state.monitor
        → IsSafe memory_limits s'.state.monitor
    step-IsSafe s s' (query remote r state served) safe =
        serve_dns-R w (StaysSafe memory_limits) (StaysSafe-Steps w memory_limits) s.handler r remote
          s.state state served safe
    step-IsSafe s s' (reload file) safe =
        subst (IsSafe memory_limits) (sym (reload-monitor file s).0) safe
    step-IsSafe s s' started safe = subst (IsSafe memory_limits) (sym (start-monitor s).0) safe
    step-IsSafe s s' (cleanup now name c there) safe = safe
    step-IsSafe s s' check safe = check-IsSafe memory_limits s.state.monitor safe

    -- In every server that events lead to, the memory monitor watches no more zones than its limit of
    -- 100 allows, and no zone's recorded cache or buffer is above the zone's limit.
    pub Reachable-IsSafe : (s : Server) → Reachable w d s → IsSafe memory_limits s.state.monitor
    Reachable-IsSafe s (made file cfg ttl tsnet loaded created) =
        subst (IsSafe memory_limits) (sym (new_server-IsMade w ttl tsnet cfg s created).monitor)
          (register_zones-IsSafe 0 cfg.zones (new_monitor memory_limits) new_monitor-IsSafe)
    Reachable-IsSafe s' (after {s} before one) = step-IsSafe s s' one (Reachable-IsSafe s before)

    module _ (zone_name backend : Text) where
      abbrev FewErrors : Server → Type 0
      FewErrors s =
          errors_of zone_name backend s.state.events ≤ queries_of zone_name backend s.state.events

      step-FewErrors : (s s' : Server) → Step w d s s' → FewErrors s → FewErrors s'
      step-FewErrors s s' (query remote r state served) few = omega (
        arith,
        few,
        serve_dns-R w Counted (Counted-Steps w) s.handler r remote s.state state served zone_name
            backend,
      )
      step-FewErrors s s' (reload file) few =
          subst (λ es. errors_of zone_name backend es ≤ queries_of zone_name backend es)
            (sym (reload-monitor file s).1) few
      step-FewErrors s s' started few =
          subst (λ es. errors_of zone_name backend es ≤ queries_of zone_name backend es)
            (sym (start-monitor s).1) few
      step-FewErrors s s' (cleanup now name c there) few = few
      step-FewErrors s s' check few = few

      -- In every server that events lead to, at most as many errors of a backend have been recorded
      -- for a zone as queries of it.
      pub Reachable-errors :
          (s : Server)
          → Reachable w d s
          → errors_of zone_name backend s.state.events ≤ queries_of zone_name backend s.state.events
      Reachable-errors s (made file cfg ttl tsnet loaded created) =
          subst (λ es. errors_of zone_name backend es ≤ queries_of zone_name backend es)
            (sym (new_server-IsMade w ttl tsnet cfg s created).events) (omega arith)
      Reachable-errors s' (after {s} before one) =
          step-FewErrors s s' one (Reachable-errors s before)
