-- ===== src/Cache/Complete.antt =====
-- A cache that is never full forgets nothing: its answers are those of the abstract view.
use tsdnsreflector.Prelude.{
  ℕ, suc, ◌+◌, ◌≤◌, Text, false, ◌≡◌, inl, inr, refl, ap, ◌∙◌, Option, none, some, List, [], ◌∷◌,
  lookup, Distinct, length, All, if◌then◌else◌, text_eq, Bool-cases, arith,
}
use tsdnsreflector.Prelude.Maps.{lookup-insert, insert-Distinct, length-insert}
use tsdnsreflector.Prelude.Int.{ℤ, pos_part, ◌+ℤ◌, ◌≤ℤ◌, ltz}
use tsdnsreflector.Message.{Msg, DnsLib}
use tsdnsreflector.Cache.Calls.{Call, set_at, cleanup_at, clear_all, step, run}
use tsdnsreflector.Cache.Capacity.{drop_expired-length}
use tsdnsreflector.Cache.Expiry.{get-cleanup_expired, evict_expired-Distinct}
use tsdnsreflector.Cache.History.{Stored, spec_step, last_set, run-ttl}
use tsdnsreflector.Cache.{
  CacheEntry, ZoneCache, is_expired, evict_expired, make_room, set, get, full, cleanup_expired,
  clear, new_zone_cache_with_name,
}

-- The calls of `Set`, and the calls of `Set` and of the cleanup that read the clock by a time.
abbrev pub sets : List Call → ℕ
sets [] = 0
sets (set_at evicting storing key m ∷ calls) = suc (sets calls)
sets (cleanup_at now ∷ calls) = sets calls
sets (clear_all ∷ calls) = sets calls

abbrev pub IsBefore : ℤ → Call → Type 0
IsBefore now (set_at evicting storing key m) = Unit
IsBefore now (cleanup_at then_) = then_ ≤ℤ now
IsBefore now clear_all = Unit

module _ (lib : DnsLib) where
  -- The answer of the abstract view.
  abbrev pub spec_answer : ℤ → ℤ → Option Stored → Option Msg
  spec_answer now ttl none = none
  spec_answer now ttl (some (m, at)) =
      if ltz (at +ℤ ttl) now then none else some (lib.copy (lib.copy m))

  module _ (now : ℤ) where
    -- The cache has room for `n` entries more, and answers as the abstract view.
    record IsExact (n : ℕ) (spec : Text → Option Stored) (c : ZoneCache) : Type 0 where
      distinct : Distinct c.entries
      room : length c.entries + n ≤ pos_part c.max_size
      exact : (j : Text) → get lib now j c ≡ spec_answer now c.ttl (spec j)

    not_full :
        (c : ZoneCache) (n : ℕ) → length c.entries + suc n ≤ pos_part c.max_size → full c ≡ false
    unfolding full
    not_full c n h = ground arith

    step-IsExact :
        (spec : Text → Option Stored) (call : Call) (calls : List Call) (c : ZoneCache)
        → IsBefore now call
        → IsExact (sets (call ∷ calls)) spec c
        → IsExact (sets calls) (λ j. spec_step j call (spec j)) (step lib call c)
    unfolding step spec_step set make_room clear get is_expired lookup cleanup_expired evict_expired
    step-IsExact spec (set_at evicting storing key m) calls c before x =
        let room : full c ≡ false = not_full c (sets calls) x.room in
        let e : CacheEntry = record { response = lib.copy m; expires_at = storing +ℤ c.ttl } in
        rw room (record {
          distinct = insert-Distinct key e c.entries x.distinct;
          room = omega (arith, x.room, length-insert key e c.entries);
          exact = λ j. rw (lookup-insert key j e c.entries) (elim (Bool-cases (text_eq key j)) [
            | inl same ↦ rw same refl
            | inr differ ↦ rw differ (x.exact j)
          ]);
        })
    step-IsExact spec (cleanup_at then_) calls c before x = record {
      distinct = evict_expired-Distinct lib then_ c x.distinct;
      room = omega (arith, x.room, drop_expired-length lib then_ c.entries c.memory_usage);
      exact = λ j. get-cleanup_expired lib then_ now j c x.distinct before ∙ x.exact j;
    }
    step-IsExact spec clear_all calls c before x = record {
      distinct = tt;
      room = omega (arith, x.room);
      exact = λ j. refl;
    }

    run-IsExact :
        (spec : Text → Option Stored) (calls : List Call) (c : ZoneCache)
        → All (IsBefore now) calls
        → IsExact (sets calls) spec c
        → IsExact 0 (λ j. last_set j calls (spec j)) (run lib calls c)
    unfolding run last_set
    run-IsExact spec [] c before x = x
    run-IsExact spec (call ∷ calls) c before x =
        run-IsExact (λ j. spec_step j call (spec j)) calls (step lib call c) before.1
          (step-IsExact spec call calls c before.0 x)

  -- After calls on a new cache that store no more entries than its size limit, and whose clock
  -- readings in the cleanup are not past the time of the `Get`, the `Get` of a key answers with a
  -- copy of the message of its last `Set` since the last `Clear`, if there is one and the clock is
  -- not past its time and the TTL, and with nothing otherwise.
  pub get-last_set_room :
      (calls : List Call) (max_size ttl now : ℤ) (name key : Text)
      → sets calls ≤ pos_part max_size
      → All (IsBefore now) calls
      → get lib now key (run lib calls (new_zone_cache_with_name max_size ttl name))
        ≡ spec_answer now ttl (last_set key calls none)
  unfolding get lookup new_zone_cache_with_name
  get-last_set_room calls max_size ttl now name key few before =
      let c = new_zone_cache_with_name max_size ttl name in
      let fresh : IsExact now (sets calls) (λ j. none) c = record {
        distinct = tt;
        room = omega (arith, few);
        exact = λ j. refl;
      } in
      (run-IsExact now (λ j. none) calls c before fresh).exact key
      ∙ ap (λ t. spec_answer now t (last_set key calls none)) (run-ttl lib calls c)
