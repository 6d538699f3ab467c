-- ===== src/Dns/Steps/Runs.antt =====
-- Caches that sequences of calls make of new caches.
use tsdnsreflector.Prelude.{
  ℕ, ◌≤◌, ◌≡◌, refl, ap, sym, ◌∙◌, Text, false, none, List, [], ◌∷◌, ◌++◌, Distinct, All, is_empty,
}
use mathlib.Core.Path.{subst}
use tsdnsreflector.Message.{DnsLib}
use tsdnsreflector.Prelude.Int.{ℤ}
use tsdnsreflector.Cache.{ZoneCache, new_zone_cache_with_name, size, cache_key, cleanup_expired}
use tsdnsreflector.Cache.Calls.{Call, set_at, cleanup_at, clear_all, step, run}
use tsdnsreflector.Cache.Capacity.{limit, IsNamedCall, run-size, run-max_size}
use tsdnsreflector.Dns.Hits.{IsShared}
use tsdnsreflector.Dns.Kept.Instances.{SetKeeps}

-- A `Set` under a key without a client's address, or another call.
abbrev pub IsSharedCall : DnsLib → Call → Type 0
IsSharedCall lib (set_at evicting storing key m) = IsShared lib key
IsSharedCall lib (cleanup_at now) = Unit
IsSharedCall lib clear_all = Unit

-- The cache is what such calls make of a new cache.
pub record IsRun (lib : DnsLib) (c : ZoneCache) : Type 0 where
  pub calls : List Call
  pub max_size : ℤ
  pub ttl : ℤ
  pub name : Text
  pub shared : All (IsSharedCall lib) calls
  pub same : run lib calls (new_zone_cache_with_name max_size ttl name) ≡ c

cache_key-named :
    (lib : DnsLib) (name : Text) (t : ℕ) → is_empty (cache_key lib name t none) ≡ false
unfolding cache_key
cache_key-named lib [] t = refl
cache_key-named lib (c ∷ name) t = refl

IsShared-named :
    (lib : DnsLib) (calls : List Call) → All (IsSharedCall lib) calls → All IsNamedCall calls
IsShared-named lib [] all = tt
IsShared-named lib (set_at evicting storing key m ∷ calls) all =
    let (name, t, e) = all.0 in
    (ap is_empty e ∙ cache_key-named lib name t, IsShared-named lib calls all.1)
IsShared-named lib (cleanup_at now ∷ calls) all = (tt, IsShared-named lib calls all.1)
IsShared-named lib (clear_all ∷ calls) all = (tt, IsShared-named lib calls all.1)

module _ (lib : DnsLib) where
  run-append :
      (calls : List Call) (call : Call) (c : ZoneCache)
      → run lib (calls ++ call ∷ []) c ≡ step lib call (run lib calls c)
  unfolding run
  run-append [] call c = refl
  run-append (first ∷ calls) call c = run-append calls call (step lib first c)

  All-append :
      (calls : List Call) (call : Call)
      → All (IsSharedCall lib) calls
      → IsSharedCall lib call
      → All (IsSharedCall lib) (calls ++ call ∷ [])
  All-append [] call all one = (one, tt)
  All-append (first ∷ calls) call all one = (all.0, All-append calls call all.1 one)

  step-IsRun :
      (call : Call) (c : ZoneCache)
      → IsSharedCall lib call
      → IsRun lib c
      → IsRun lib (step lib call c)
  step-IsRun call c one r = record {
    calls = r.calls ++ call ∷ [];
    max_size = r.max_size;
    ttl = r.ttl;
    name = r.name;
    shared = All-append r.calls call r.shared one;
    same =
        run-append r.calls call (new_zone_cache_with_name r.max_size r.ttl r.name)
        ∙ ap (step lib call) r.same;
  }

  pub new-IsRun :
      (max_size ttl : ℤ) (name : Text) → IsRun lib (new_zone_cache_with_name max_size ttl name)
  new-IsRun max_size ttl name = record {
    calls = [];
    max_size = max_size;
    ttl = ttl;
    name = name;
    shared = tt;
    same = unfold run in refl;
  }

  pub set-IsRun : SetKeeps lib (IsRun lib)
  set-IsRun evicting storing key m c shared r =
      unfold step in step-IsRun (set_at evicting storing key m) c shared r

  pub cleanup-IsRun :
      (now : ℤ) (c : ZoneCache) → IsRun lib c → IsRun lib (cleanup_expired lib now c)
  cleanup-IsRun now c r = unfold step in step-IsRun (cleanup_at now) c tt r

  -- Such a cache has at most as many entries as its limit, and no key twice.
  pub IsRun-size : (c : ZoneCache) → IsRun lib c → (size c ≤ limit c.max_size) × Distinct c.entries
  IsRun-size c r =
      let fresh = new_zone_cache_with_name r.max_size r.ttl r.name in
      let (few, distinct) =
        run-size lib r.calls r.max_size r.ttl r.name (IsShared-named lib r.calls r.shared) in
      let same : c.max_size ≡ r.max_size =
        ap (λ d. d.max_size) (sym r.same)
        ∙ run-max_size lib r.calls fresh
        ∙ unfold new_zone_cache_with_name in refl in
      (
        subst (λ n. size c ≤ limit n) (sym same)
            (subst (λ d. size d ≤ limit r.max_size) r.same few),
        subst (λ d. Distinct d.entries) r.same distinct,
      )
