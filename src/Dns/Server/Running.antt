-- ===== src/Dns/Server/Running.antt =====
-- The caches of a server before `Stop`: none has been stopped.
use tsdnsreflector.Prelude.{
  ◌≡◌, inl, inr, refl, Text, Bool, true, false, ◌&&◌, Option, none, some, [], ◌∷◌, Dict, lookup,
  insert, arith, Option-cases,
}
use tsdnsreflector.Config.{Config, Zone, CacheConfig}
use tsdnsreflector.Cache.{ZoneCache, stop, new_zone_cache, new_zone_cache_with_name}
use tsdnsreflector.Dns.Server.{
  stop_caches, add_cache, make_caches, reused, reload_cache, reload_caches,
}
use tsdnsreflector.Dns.Server.Stopping.{some_stopped}
use tsdnsreflector.World.{World}

abbrev pub all_stopped : Dict ZoneCache → Bool
all_stopped [] = true
all_stopped ((name, c) ∷ cs) = c.stopped && all_stopped cs

abbrev pub IsRunning : Dict ZoneCache → Type 0
IsRunning cs = some_stopped cs ≡ false

insert-IsRunning :
    (name : Text) (c : ZoneCache) (cs : Dict ZoneCache)
    → c.stopped ≡ false
    → IsRunning cs
    → IsRunning (insert name c cs)
unfolding insert
insert-IsRunning name c [] h running = ground arith
insert-IsRunning name c ((other, b) ∷ cs) h running = ground (arith, insert-IsRunning name c cs h)

lookup-stopped :
    (name : Text) (c : ZoneCache) (cs : Dict ZoneCache)
    → IsRunning cs
    → lookup name cs ≡ some c
    → c.stopped ≡ false
unfolding lookup
lookup-stopped name c [] running h = absurd (ground arith)
lookup-stopped name c ((other, b) ∷ cs) running h = ground (arith, lookup-stopped name c cs)

-- Stopping caches that run stops them all.
pub stop_caches-IsRunning :
    (cs : Dict ZoneCache)
    → IsRunning cs
    → (cs' : Dict ZoneCache) × (stop_caches cs ≡ some cs') × (all_stopped cs' ≡ true)
unfolding stop_caches stop
stop_caches-IsRunning [] running = ([], refl, refl)
stop_caches-IsRunning ((name, c) ∷ cs) running =
    let first : c.stopped ≡ false = ground arith in
    let (cs', e, all) = stop_caches-IsRunning cs (ground arith) in
    ((name, record c { stopped = true }) ∷ cs', rw (first, e) refl, all)

module _ (w : World) where
  add_cache-IsRunning :
      (cfg : Config) (name : Text) (o : Option CacheConfig) (cs : Dict ZoneCache)
      → IsRunning cs
      → IsRunning (add_cache w cfg name o cs)
  unfolding new_zone_cache_with_name
  add_cache-IsRunning cfg name none cs running = running
  add_cache-IsRunning cfg name (some c) cs running = insert-IsRunning name _ cs refl running

  pub make_caches-IsRunning :
      (cfg : Config) (zs : Dict Zone) (cs : Dict ZoneCache)
      → IsRunning cs
      → IsRunning (make_caches w cfg zs cs)
  unfolding make_caches
  make_caches-IsRunning cfg [] cs running = running
  make_caches-IsRunning cfg ((name, z) ∷ zs) cs running =
      make_caches-IsRunning cfg zs (add_cache w cfg name z.cache cs)
        (add_cache-IsRunning cfg name z.cache cs running)

  module _ (cfg : Config) (old : Dict ZoneCache) (ran : IsRunning old) where
    reused-stopped :
        (name : Text) (c : CacheConfig) → (reused w cfg name c (lookup name old)).stopped ≡ false
    unfolding new_zone_cache
    reused-stopped name c = elim (Option-cases (lookup name old)) [
      | inl e ↦ rw e refl
      | inr (b, e) ↦ rw e (lookup-stopped name b old ran e)
    ]

    reload_cache-IsRunning :
        (name : Text) (o : Option CacheConfig) (cs : Dict ZoneCache)
        → IsRunning cs
        → IsRunning (reload_cache w cfg old name o cs)
    reload_cache-IsRunning name none cs running = running
    reload_cache-IsRunning name (some c) cs running =
        insert-IsRunning name _ cs (reused-stopped name c) running

    pub reload_caches-IsRunning :
        (zs : Dict Zone) (cs : Dict ZoneCache)
        → IsRunning cs
        → IsRunning (reload_caches w cfg old zs cs)
    unfolding reload_caches
    reload_caches-IsRunning [] cs running = running
    reload_caches-IsRunning ((name, z) ∷ zs) cs running =
        reload_caches-IsRunning zs (reload_cache w cfg old name z.cache cs)
          (reload_cache-IsRunning name z.cache cs running)
