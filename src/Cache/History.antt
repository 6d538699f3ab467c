-- ===== src/Cache/History.antt =====
-- The abstract view of a cache: what has been set since it was last cleared. A cache may forget, but
-- it never answers with anything else.
use tsdnsreflector.Prelude.{
  Text, false, ◌≡◌, ◌⊎◌, inl, inr, refl, ◌∙◌, Option, none, some, List, [], ◌∷◌, lookup, Distinct,
  if_both, if◌then◌else◌, text_eq, Bool-cases, arith,
}
use mathlib.Core.Path.{subst}
use tsdnsreflector.Prelude.Maps.{lookup-insert, insert-Distinct}
use tsdnsreflector.Prelude.Int.{ℤ, ◌+ℤ◌, ltz}
use tsdnsreflector.Message.{Msg, DnsLib}
use tsdnsreflector.Cache.Calls.{Call, set_at, cleanup_at, clear_all, step, run}
use tsdnsreflector.Cache.Expiry.{evict_expired-Distinct, evict_oldest-Distinct}
use tsdnsreflector.Cache.Reads.{lookup-make_room, lookup-evict_expired_cases}
use tsdnsreflector.Cache.{
  CacheEntry, ZoneCache, is_expired, evict_expired, evict_oldest, make_room, set, get, answer, full,
  cleanup_expired, clear, new_zone_cache_with_name,
}

-- A message and the time when it was stored.
abbrev pub Stored : Type 0
Stored = Msg × ℤ

-- What a call makes of the last `Set` of a key.
unfoldable pub spec_step : Text → Call → Option Stored → Option Stored
spec_step key (set_at evicting storing k m) last = if text_eq k key then some (m, storing) else last
spec_step key (cleanup_at now) last = last
spec_step key clear_all last = none

-- The last `Set` of a key since the last `Clear`.
unfoldable pub last_set : Text → List Call → Option Stored → Option Stored
unfolding spec_step
last_set key [] last = last
last_set key (call ∷ calls) last = last_set key calls (spec_step key call last)

module _ (lib : DnsLib) where
  evict_oldest-ttl : (c : ZoneCache) → (evict_oldest lib c).ttl ≡ c.ttl
  unfolding evict_oldest
  evict_oldest-ttl c = ground arith

  pub evict_expired-ttl : (now : ℤ) (c : ZoneCache) → (evict_expired lib now c).ttl ≡ c.ttl
  unfolding evict_expired
  evict_expired-ttl now c = refl

  make_room-ttl : (now : ℤ) (c : ZoneCache) → (make_room lib now c).ttl ≡ c.ttl
  unfolding make_room
  make_room-ttl now c =
      ground (arith, evict_expired-ttl now c, evict_oldest-ttl (evict_expired lib now c))

  make_room-Distinct :
      (now : ℤ) (c : ZoneCache) → Distinct c.entries → Distinct (make_room lib now c).entries
  unfolding make_room
  make_room-Distinct now c d =
      let c' = evict_expired lib now c in
      let d' = evict_expired-Distinct lib now c d in
      if_both (λ x. Distinct x.entries) (full c) _ c
        (if_both (λ x. Distinct x.entries) (full c') _ c' (evict_oldest-Distinct lib c' d') d') d

  -- An entry that is there is the one that the last `Set` made.
  abbrev EntryFits : ℤ → Option CacheEntry → Option Stored → Type 0
  EntryFits ttl o last =
      (o ≡ none)
      ⊎ ((m : Msg) × (at : ℤ) × (last ≡ some (m, at))
          × (o ≡ some (record { response = lib.copy m; expires_at = at +ℤ ttl })))

  record IsRefined (spec : Text → Option Stored) (c : ZoneCache) : Type 0 where
    distinct : Distinct c.entries
    fits : (j : Text) → EntryFits c.ttl (lookup j c.entries) (spec j)

  -- Losing entries is a refinement.
  forget :
      (spec : Text → Option Stored) (c c' : ZoneCache)
      → Distinct c'.entries
      → c'.ttl ≡ c.ttl
      → ((j : Text) → (lookup j c'.entries ≡ lookup j c.entries) ⊎ (lookup j c'.entries ≡ none))
      → IsRefined spec c
      → IsRefined spec c'
  forget spec c c' d same lost r = record {
    distinct = d;
    fits = λ j. elim (lost j) [ inl kept ↦ rw (kept, same) (r.fits j) | inr gone ↦ inl gone ];
  }

  step-IsRefined :
      (spec : Text → Option Stored) (call : Call) (c : ZoneCache)
      → IsRefined spec c
      → IsRefined (λ j. spec_step j call (spec j)) (step lib call c)
  unfolding step spec_step set cleanup_expired clear lookup
  step-IsRefined spec (set_at evicting storing key m) c r =
      let c' = make_room lib evicting c in
      let room =
        forget spec c c' (make_room-Distinct evicting c r.distinct) (make_room-ttl evicting c)
          (λ j. lookup-make_room lib evicting j c r.distinct) r in
      record {
        distinct = insert-Distinct key _ c'.entries room.distinct;
        fits = λ j. rw (lookup-insert key j _ c'.entries) (elim (Bool-cases (text_eq key j)) [
          | inl same ↦ rw (same, make_room-ttl evicting c) (inr (m, storing, refl, refl))
          | inr differ ↦ rw differ (room.fits j)
        ]);
      }
  step-IsRefined spec (cleanup_at now) c r =
      forget spec c (evict_expired lib now c) (evict_expired-Distinct lib now c r.distinct)
        (evict_expired-ttl now c) (λ j. lookup-evict_expired_cases lib now j c r.distinct) r
  step-IsRefined spec clear_all c r = record { distinct = tt; fits = λ j. inl refl }

  step-ttl : (call : Call) (c : ZoneCache) → (step lib call c).ttl ≡ c.ttl
  unfolding step set cleanup_expired clear
  step-ttl (set_at evicting storing key m) c = make_room-ttl evicting c
  step-ttl (cleanup_at now) c = evict_expired-ttl now c
  step-ttl clear_all c = refl

  pub run-ttl : (calls : List Call) (c : ZoneCache) → (run lib calls c).ttl ≡ c.ttl
  unfolding run
  run-ttl [] c = refl
  run-ttl (call ∷ calls) c = run-ttl calls (step lib call c) ∙ step-ttl call c

  run-IsRefined :
      (spec : Text → Option Stored) (calls : List Call) (c : ZoneCache)
      → IsRefined spec c
      → IsRefined (λ j. last_set j calls (spec j)) (run lib calls c)
  unfolding run last_set
  run-IsRefined spec [] c r = r
  run-IsRefined spec (call ∷ calls) c r =
      run-IsRefined (λ j. spec_step j call (spec j)) calls (step lib call c)
        (step-IsRefined spec call c r)

  -- What a `Get` may answer: nothing, or the message of the last `Set` before it has expired.
  abbrev pub Answers : ℤ → ℤ → Option Stored → Option Msg → Type 0
  Answers now ttl last o =
      (o ≡ none)
      ⊎ ((m : Msg) × (at : ℤ) × (last ≡ some (m, at))
          × (ltz (at +ℤ ttl) now ≡ false)
          × (o ≡ some (lib.copy (lib.copy m))))

  answer-Answers :
      (now ttl : ℤ) (o : Option CacheEntry) (last : Option Stored)
      → EntryFits ttl o last
      → Answers now ttl last (answer lib now o)
  unfolding is_expired
  answer-Answers now ttl o last (inl e) = rw e (inl refl)
  answer-Answers now ttl o last (inr (m, at, e, e')) =
      rw e' (elim (Bool-cases (ltz (at +ℤ ttl) now)) [
        | inl old ↦ rw old (inl refl)
        | inr fresh ↦ rw fresh (inr (m, at, e, fresh, refl))
      ])

  -- Whatever has been called on a new cache, a `Get` answers with nothing, or with a copy of the
  -- message of the last `Set` of its key since the last `Clear`, and this only while the clock is
  -- not past the time of that `Set` and the TTL.
  pub get-last_set :
      (calls : List Call) (max_size ttl now : ℤ) (name key : Text)
      → Answers now ttl
          (last_set key calls none)
          (get lib now key (run lib calls (new_zone_cache_with_name max_size ttl name)))
  unfolding get lookup new_zone_cache_with_name
  get-last_set calls max_size ttl now name key =
      let c = new_zone_cache_with_name max_size ttl name in
      let nothing = λ (j : Text). none in
      let fresh : IsRefined nothing c = record { distinct = tt; fits = λ j. inl refl } in
      let fits = (run-IsRefined nothing calls c fresh).fits key in
      let o = lookup key (run lib calls c).entries in
      answer-Answers now ttl o (last_set key calls none)
        (subst (λ t. EntryFits t o (last_set key calls none)) (run-ttl calls c) fits)
