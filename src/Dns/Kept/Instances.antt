-- ===== src/Dns/Kept/Instances.antt =====
-- The relations that are used.
use tsdnsreflector.Prelude.{
  ℕ, ◌≡◌, inl, inr, Text, ◌&&◌, some, List, [], ◌∷◌, Dict, lookup, insert, if◌then◌else◌, text_eq,
  All, All-In, Bool-cases, arith,
}
use tsdnsreflector.Message.{Msg, DnsLib}
use tsdnsreflector.Prelude.Int.{ℤ}
use tsdnsreflector.Prelude.Maps.{lookup-In}
use tsdnsreflector.Cache
use tsdnsreflector.Cache.{ZoneCache, cache_key}
use tsdnsreflector.Dns.{
  Event, backend_error, backend_query, State, write_msg, record_event, dns_query,
}
use tsdnsreflector.Dns.Hits.{IsShared}
use tsdnsreflector.Dns.Kept.{Steps, IsNoError}
use tsdnsreflector.Dns.{
  Event, dns_query, cache_hit, cache_miss, via6_translation, via6_error, cache_size, backend_query,
  backend_error, external_blocked, external_allowed,
}
use tsdnsreflector.Prelude.{◌+◌, ◌≤◌}
use tsdnsreflector.Memory.{GlobalLimits}
use tsdnsreflector.Memory.Limits.{IsSafe, update_cache_usage-IsSafe}
use tsdnsreflector.World.{World}

module _ (Q : ZoneCache → Type 0) where
  abbrev pub AllCaches : Dict ZoneCache → Type 0
  AllCaches = All (λ c. Q c.1)

  pub insert-AllCaches :
      (name : Text) (c : ZoneCache) (cs : Dict ZoneCache)
      → Q c
      → AllCaches cs
      → AllCaches (insert name c cs)
  unfolding insert
  insert-AllCaches name c [] q all = (q, tt)
  insert-AllCaches name c ((n, d) ∷ cs) q all = elim (Bool-cases (text_eq n name)) [
    | inl same ↦ rw same (q, all.1)
    | inr differ ↦ rw differ (all.0, insert-AllCaches name c cs q all.1)
  ]

  pub lookup-AllCaches :
      (name : Text) (c : ZoneCache) (cs : Dict ZoneCache)
      → lookup name cs ≡ some c
      → AllCaches cs
      → Q c
  lookup-AllCaches name c cs there all = All-In (λ x. Q x.1) cs (lookup-In name c cs there) all

-- `Set` keeps the property, under a key without a client's address.
abbrev pub SetKeeps : DnsLib → (ZoneCache → Type 0) → Type 0
SetKeeps lib Q =
    (evicting storing : ℤ) (key : Text) (m : Msg) (c : ZoneCache)
    → IsShared lib key
    → Q c
    → Q (Cache.set lib evicting storing key m c)

-- The caches of the second state have the property if those of the first have it.
abbrev pub Kept : (ZoneCache → Type 0) → State → State → Type 0
Kept Q s s' = AllCaches Q s.caches → AllCaches Q s'.caches

-- The same for the monitor and its limits.
abbrev pub StaysSafe : GlobalLimits → State → State → Type 0
StaysSafe g s s' = IsSafe g s.monitor → IsSafe g s'.monitor

-- The queries of a backend for a zone, and its errors, among the events.
abbrev pub queries_of : Text → Text → List Event → ℕ
queries_of zone_name backend [] = 0
queries_of zone_name backend (backend_query z b ∷ es) =
    (if text_eq z zone_name && text_eq b backend then 1 else 0) + queries_of zone_name backend es
queries_of zone_name backend (e ∷ es) = queries_of zone_name backend es

abbrev pub errors_of : Text → Text → List Event → ℕ
errors_of zone_name backend [] = 0
errors_of zone_name backend (backend_error z b ∷ es) =
    (if text_eq z zone_name && text_eq b backend then 1 else 0) + errors_of zone_name backend es
errors_of zone_name backend (e ∷ es) = errors_of zone_name backend es

-- No more errors than queries are added.
abbrev pub Counted : State → State → Type 0
Counted s s' =
    (zone_name backend : Text)
    → errors_of zone_name backend s'.events + queries_of zone_name backend s.events
      ≤ queries_of zone_name backend s'.events + errors_of zone_name backend s.events

module _ (w : World) where
  pub Kept-Steps : (Q : ZoneCache → Type 0) → SetKeeps w.dns Q → Steps w (Kept Q)
  unfolding write_msg record_event
  Kept-Steps Q set-Q = record {
    same = λ s all. all;
    next = λ s s' s'' first second all. second (first all);
    written = λ m s all. all;
    recorded = λ e s no_error all. all;
    failed = λ zone_name backend s all. all;
    counted = λ asked readings s all. all;
    watched = λ now zone_name usage s all. all;
    stored = λ evicting storing zone_name key m c s shared there all.
        insert-AllCaches Q zone_name _ s.caches
          (set-Q evicting storing key m c shared
            (lookup-AllCaches Q zone_name c s.caches there all))
          all;
  }

  pub StaysSafe-Steps : (g : GlobalLimits) → Steps w (StaysSafe g)
  unfolding write_msg record_event
  StaysSafe-Steps g = record {
    same = λ s safe. safe;
    next = λ s s' s'' first second safe. second (first safe);
    written = λ m s safe. safe;
    recorded = λ e s no_error safe. safe;
    failed = λ zone_name backend s safe. safe;
    counted = λ asked readings s safe. safe;
    watched = λ now zone_name usage s safe.
        update_cache_usage-IsSafe g now zone_name usage s.monitor safe;
    stored = λ evicting storing zone_name key m c s shared there safe. safe;
  }

  recorded-Counted : (e : Event) (s : State) → IsNoError e → Counted s (record_event e s)
  unfolding record_event
  recorded-Counted (dns_query z t) s no_error zone_name backend = omega arith
  recorded-Counted (cache_hit z) s no_error zone_name backend = omega arith
  recorded-Counted (cache_miss z) s no_error zone_name backend = omega arith
  recorded-Counted (via6_translation z) s no_error zone_name backend = omega arith
  recorded-Counted (via6_error z) s no_error zone_name backend = omega arith
  recorded-Counted (cache_size z n) s no_error zone_name backend = omega arith
  recorded-Counted (external_blocked z) s no_error zone_name backend = omega arith
  recorded-Counted (external_allowed z) s no_error zone_name backend = omega arith
  recorded-Counted (backend_query z b) s no_error zone_name backend = omega arith
  recorded-Counted (backend_error z b) s no_error zone_name backend = absurd no_error

  pub Counted-Steps : Steps w Counted
  unfolding write_msg record_event
  Counted-Steps = record {
    same = λ s zone_name backend. omega arith;
    next = λ s s' s'' first second zone_name backend.
        omega (arith, first zone_name backend, second zone_name backend);
    written = λ m s zone_name backend. omega arith;
    recorded = λ e s no_error. recorded-Counted e s no_error;
    failed = λ z b s zone_name backend. omega arith;
    counted = λ asked readings s zone_name backend. omega arith;
    watched = λ now z usage s zone_name backend. omega arith;
    stored = λ evicting storing z key m c s shared there zone_name backend. omega arith;
  }
