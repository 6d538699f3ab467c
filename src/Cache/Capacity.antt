-- ===== src/Cache/Capacity.antt =====
-- The number of entries of a cache.
use tsdnsreflector.Prelude.{
  ℕ, ◌≤◌, ◌<◌, Text, false, ◌≡◌, refl, ◌∙◌, ap, ◌⊎◌, List, [], ◌∷◌, Dict, length, insert, erase,
  arith, Distinct, Bool-cases, inl, inr, is_empty, All,
}
use Prim.Native.Nat.{max}
use tsdnsreflector.Cache.Oldest.{HasNamedKeys, evict_oldest-least, evict_oldest-empty}
use mathlib.Core.Path.{subst}
use native.Mathlib.Nat.{le_trans}
use tsdnsreflector.Cache.Calls.{Call, set_at, cleanup_at, clear_all, step, run}
use tsdnsreflector.Prelude.Maps.{length-insert, length-erase, insert-Distinct}
use tsdnsreflector.Prelude.Int.{ℤ, pos_part, ◌+ℤ◌}
use tsdnsreflector.Message.{Msg, DnsLib}
use tsdnsreflector.Cache.Expiry.{evict_expired-Distinct, evict_oldest-Distinct}
use tsdnsreflector.Cache.{
  CacheEntry, ZoneCache, is_expired, drop_expired, evict_expired, evict_oldest, make_room, set,
  full, cleanup_expired, clear, new_zone_cache_with_name, size,
}

-- At least 1, since `Set` stores its entry even if the size limit is not positive.
abbrev pub limit : ℤ → ℕ
limit n = max 1 (pos_part n)

pub record IsBounded (c : ZoneCache) : Type 0 where
  pub distinct : Distinct c.entries
  pub named : HasNamedKeys c.entries
  pub fits : length c.entries ≤ limit c.max_size

-- Room for one entry, with the same limit.
record HasRoom (m : ℤ) (c : ZoneCache) : Type 0 where
  distinct : Distinct c.entries
  named : HasNamedKeys c.entries
  room : length c.entries < limit c.max_size
  same_limit : c.max_size ≡ m

abbrev pub IsNamedCall : Call → Type 0
IsNamedCall (set_at evicting storing key m) = is_empty key ≡ false
IsNamedCall (cleanup_at now) = Unit
IsNamedCall clear_all = Unit

module _ (lib : DnsLib) where
  pub drop_expired-length :
      (now : ℤ) (es : Dict CacheEntry) (usage : ℕ)
      → length (drop_expired lib now es usage).0 ≤ length es
  unfolding drop_expired
  drop_expired-length now [] usage = omega arith
  drop_expired-length now ((k, e) ∷ es) usage = elim (Bool-cases (is_expired now e)) [
    | inl gone ↦ rw gone (omega (arith, drop_expired-length now es _))
    | inr stays ↦ rw stays (omega (arith, drop_expired-length now es usage))
  ]

  drop_expired-HasNamedKeys :
      (now : ℤ) (es : Dict CacheEntry) (usage : ℕ)
      → HasNamedKeys es
      → HasNamedKeys (drop_expired lib now es usage).0
  unfolding drop_expired
  drop_expired-HasNamedKeys now [] usage n = tt
  drop_expired-HasNamedKeys now ((k, e) ∷ es) usage n = elim (Bool-cases (is_expired now e)) [
    | inl gone ↦ rw gone (drop_expired-HasNamedKeys now es _ n.1)
    | inr stays ↦ rw stays (n.0, drop_expired-HasNamedKeys now es usage n.1)
  ]

  insert-HasNamedKeys :
      (k : Text) (e : CacheEntry) (es : Dict CacheEntry)
      → is_empty k ≡ false
      → HasNamedKeys es
      → HasNamedKeys (insert k e es)
  unfolding insert
  insert-HasNamedKeys k e [] s n = (s, tt)
  insert-HasNamedKeys k e ((j, f) ∷ es) s n = ground (arith, insert-HasNamedKeys k e es s n.1)

  erase-HasNamedKeys :
      (k : Text) (es : Dict CacheEntry) → HasNamedKeys es → HasNamedKeys (erase k es)
  unfolding erase
  erase-HasNamedKeys k [] n = tt
  erase-HasNamedKeys k ((j, f) ∷ es) n = ground (arith, erase-HasNamedKeys k es n.1)

  evict_expired-IsBounded :
      (now : ℤ) (c : ZoneCache) → IsBounded c → IsBounded (evict_expired lib now c)
  evict_expired-IsBounded now c b = record {
    distinct = evict_expired-Distinct lib now c b.distinct;
    named = unfold evict_expired in drop_expired-HasNamedKeys now c.entries c.memory_usage b.named;
    fits =
        unfold evict_expired in
        omega (arith, drop_expired-length now c.entries c.memory_usage, b.fits);
  }

  evict_expired-max_size :
      (now : ℤ) (c : ZoneCache) → (evict_expired lib now c).max_size ≡ c.max_size
  unfolding evict_expired
  evict_expired-max_size now c = refl

  full-HasRoom : (c : ZoneCache) → IsBounded c → full c ≡ false → HasRoom c.max_size c
  full-HasRoom c b h = record {
    distinct = b.distinct;
    named = b.named;
    room = unfold full in ground arith;
    same_limit = refl;
  }

  evict_oldest-max_size : (c : ZoneCache) → (evict_oldest lib c).max_size ≡ c.max_size
  unfolding evict_oldest
  evict_oldest-max_size c = ground arith

  evict_oldest-HasRoom : (c : ZoneCache) → IsBounded c → HasRoom c.max_size (evict_oldest lib c)
  evict_oldest-HasRoom c b = elim (zero_or_more (length c.entries)) [
    | inl none_left ↦ record {
      distinct = evict_oldest-Distinct lib c b.distinct;
      named = rw (evict_oldest-empty lib c none_left) b.named;
      room = rw (evict_oldest-empty lib c none_left) (omega arith);
      same_limit = evict_oldest-max_size c;
    }
    | inr some_left ↦
        let (k, e, l, is, least) = evict_oldest-least lib c b.distinct b.named some_left in
        record {
          distinct = evict_oldest-Distinct lib c b.distinct;
          named = rw is (erase-HasNamedKeys k c.entries b.named);
          room = rw is (
              omega
                (arith, length-erase k c.entries e l, b.fits, ap limit (evict_oldest-max_size c)));
          same_limit = evict_oldest-max_size c;
        }
  ]
    where
      zero_or_more : (n : ℕ) → (n ≡ 0) ⊎ (0 < n)
      zero_or_more n = omega arith

  make_room-HasRoom :
      (now : ℤ) (c : ZoneCache) → IsBounded c → HasRoom c.max_size (make_room lib now c)
  unfolding make_room
  make_room-HasRoom now c b =
      let c' = evict_expired lib now c in
      let b' = evict_expired-IsBounded now c b in
      let same = evict_expired-max_size now c in
      elim (Bool-cases (full c)) [
        | inl at_limit ↦ rw at_limit (elim (Bool-cases (full c')) [
          | inl still ↦
              rw still
                (subst (λ m. HasRoom m (evict_oldest lib c')) same (evict_oldest-HasRoom c' b'))
          | inr room ↦ rw room (subst (λ m. HasRoom m c') same (full-HasRoom c' b' room))
        ])
        | inr room ↦ rw room (full-HasRoom c b room)
      ]

  -- `Set` with a key that is not empty keeps the bound.
  pub set-IsBounded :
      (evicting storing : ℤ) (key : Text) (m : Msg) (c : ZoneCache)
      → is_empty key ≡ false
      → IsBounded c
      → IsBounded (set lib evicting storing key m c)
  unfolding set
  set-IsBounded evicting storing key m c n b =
      let r = make_room-HasRoom evicting c b in
      let c' = make_room lib evicting c in
      let e : CacheEntry = record { response = lib.copy m; expires_at = storing +ℤ c.ttl } in
      record {
        distinct = insert-Distinct key e c'.entries r.distinct;
        named = insert-HasNamedKeys key e c'.entries n r.named;
        fits = le_trans (length-insert key e c'.entries) r.room;
      }

  step-IsBounded :
      (call : Call) (c : ZoneCache) → IsNamedCall call → IsBounded c → IsBounded (step lib call c)
  unfolding step cleanup_expired clear
  step-IsBounded (set_at evicting storing key m) c n b = set-IsBounded evicting storing key m c n b
  step-IsBounded (cleanup_at now) c n b = evict_expired-IsBounded now c b
  step-IsBounded clear_all c n b = record { distinct = tt; named = tt; fits = omega arith }

  run-IsBounded :
      (calls : List Call) (c : ZoneCache)
      → All IsNamedCall calls
      → IsBounded c
      → IsBounded (run lib calls c)
  unfolding run
  run-IsBounded [] c n b = b
  run-IsBounded (call ∷ calls) c n b =
      run-IsBounded calls (step lib call c) n.1 (step-IsBounded call c n.0 b)

  step-max_size : (call : Call) (c : ZoneCache) → (step lib call c).max_size ≡ c.max_size
  unfolding step cleanup_expired clear set make_room
  step-max_size (set_at evicting storing key m) c = ground (
    arith,
    evict_expired-max_size evicting c,
    evict_oldest-max_size (evict_expired lib evicting c),
  )
  step-max_size (cleanup_at now) c = evict_expired-max_size now c
  step-max_size clear_all c = refl

  pub run-max_size : (calls : List Call) (c : ZoneCache) → (run lib calls c).max_size ≡ c.max_size
  unfolding run
  run-max_size [] c = refl
  run-max_size (call ∷ calls) c = run-max_size calls (step lib call c) ∙ step-max_size call c

  -- Whatever is called on a new cache, with keys that are not empty, the cache has no more entries
  -- than its size limit, or than 1 where that limit is below 1, and no key twice.
  pub run-size :
      (calls : List Call) (max_size ttl : ℤ) (name : Text)
      → All IsNamedCall calls
      → (size (run lib calls (new_zone_cache_with_name max_size ttl name)) ≤ limit max_size)
        × Distinct (run lib calls (new_zone_cache_with_name max_size ttl name)).entries
  unfolding size
  run-size calls max_size ttl name n =
      let c = new_zone_cache_with_name max_size ttl name in
      let fresh : IsBounded c =
        unfold new_zone_cache_with_name in
        record { distinct = tt; named = tt; fits = omega arith } in
      let b = run-IsBounded calls c n fresh in
      let same : (run lib calls c).max_size ≡ max_size =
        run-max_size calls c ∙ unfold new_zone_cache_with_name in refl in
      (omega (arith, b.fits, ap limit same), b.distinct)
