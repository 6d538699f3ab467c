-- ===== src/Dns/Server/Stopping.antt =====
-- Stopping the caches.
use tsdnsreflector.Prelude.{
  ◌≡◌, ◌≢◌, ◌↔◌, inl, inr, refl, Bool, true, false, ◌||◌, none, some, [], ◌∷◌, Dict, arith,
  Bool-cases, Option-cases,
}
use mathlib.Core.Path.{subst}
use tsdnsreflector.Prelude.{Option-cases, Bool-cases, inl, inr}
use tsdnsreflector.Cache.{ZoneCache, stop}
use tsdnsreflector.Dns.Server.{stop_caches}

-- Some cache is stopped already.
abbrev pub some_stopped : Dict ZoneCache → Bool
some_stopped [] = false
some_stopped ((name, c) ∷ cs) = c.stopped || some_stopped cs

-- Stopping panics exactly when some cache is stopped already.
pub stop_caches-none_iff :
    (cs : Dict ZoneCache) → (stop_caches cs ≡ none) ↔ (some_stopped cs ≡ true)
unfolding stop_caches stop
stop_caches-none_iff [] = ground arith
stop_caches-none_iff ((name, c) ∷ cs) = ground (arith, stop_caches-none_iff cs)

-- Stopping the caches of a server that has any, a second time, panics.
pub stop_caches-twice :
    (cs cs' : Dict ZoneCache) → cs ≢ [] → stop_caches cs ≡ some cs' → stop_caches cs' ≡ none
unfolding stop_caches stop
stop_caches-twice [] cs' any once = absurd (any refl)
stop_caches-twice ((name, c) ∷ cs) cs' any once = elim (Bool-cases c.stopped) [
  | inl e ↦ absurd (ground arith)
  | inr e ↦ elim (Option-cases (stop_caches cs)) [
    | inl stuck ↦ absurd (ground arith)
    | inr (rest, done) ↦
        let same : ◌≡◌ {A = Dict ZoneCache} ((name, record c { stopped = true }) ∷ rest) cs' =
          ground arith in
        subst (λ x. stop_caches x ≡ none) same refl
  ]
]
