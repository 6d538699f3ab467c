-- ===== src/Cache/Oldest.antt =====
-- Which entry `evictOldest` removes.
use tsdnsreflector.Prelude.{
  ◌<◌, Text, false, ◌≡◌, ◌≢◌, refl, none, some, [], ◌∷◌, Dict, length, lookup, erase, arith,
  Distinct, Option-cases, inl, inr, is_empty, All,
}
use tsdnsreflector.Prelude.Int.{◌≤ℤ◌}
use tsdnsreflector.Message.{DnsLib}
use tsdnsreflector.Cache.Accounting.{find_oldest-lookup}
use tsdnsreflector.Cache.{CacheEntry, ZoneCache, find_oldest, evict_oldest}

-- The keys are not empty, as those of `CacheKey` are.
abbrev pub HasNamedKeys : Dict CacheEntry → Type 0
HasNamedKeys = All (λ e. is_empty e.0 ≡ false)

module _ (lib : DnsLib) where
  find_from-least :
      (es : Dict CacheEntry) (j k : Text) (f e : CacheEntry)
      → HasNamedKeys es
      → is_empty j ≡ false
      → find_oldest lib es (some (j, f)) ≡ some (k, e)
      → (is_empty k ≡ false)
        × (e.expires_at ≤ℤ f.expires_at)
        × All (λ x. e.expires_at ≤ℤ x.1.expires_at) es
  unfolding find_oldest
  find_from-least [] j k f e n s h = ground arith
  find_from-least ((i, g) ∷ es) j k f e n s h =
      ground (arith, find_from-least es i k g e n.1 n.0, find_from-least es j k f e n.1 s)

  find_oldest-least :
      (es : Dict CacheEntry) (k : Text) (e : CacheEntry)
      → HasNamedKeys es
      → find_oldest lib es none ≡ some (k, e)
      → (is_empty k ≡ false) × All (λ x. e.expires_at ≤ℤ x.1.expires_at) es
  unfolding find_oldest
  find_oldest-least [] k e n h = cc
  find_oldest-least ((i, g) ∷ es) k e n h =
      let (named, le, least) = find_from-least es i k g e n.1 n.0 h in (named, (le, least))

  find_from-some :
      (es : Dict CacheEntry) (r : Text × CacheEntry) → find_oldest lib es (some r) ≢ none
  unfolding find_oldest
  find_from-some [] r h = cc
  find_from-some ((i, g) ∷ es) r h = ground (arith, find_from-some es (i, g), find_from-some es r)

  -- On a map that is not empty and has no repeated and no empty key, `evictOldest` removes exactly
  -- one entry, and no entry expires before that one.
  pub evict_oldest-least :
      (c : ZoneCache)
      → Distinct c.entries
      → HasNamedKeys c.entries
      → 0 < length c.entries
      → (k : Text) × (e : CacheEntry) × (lookup k c.entries ≡ some e)
        × ((evict_oldest lib c).entries ≡ erase k c.entries)
        × All (λ x. e.expires_at ≤ℤ x.1.expires_at) c.entries
  unfolding evict_oldest find_oldest
  evict_oldest-least c d n filled = elim (Option-cases (find_oldest lib c.entries none)) [
    | inl e ↦ absurd (found_none c.entries filled e)
    | inr ((k, o), e) ↦
        let (named, least) = find_oldest-least c.entries k o n e in
        (k, o, find_oldest-lookup lib c.entries k o d e, rw (e, named), least)
  ]
    where
      found_none : (es : Dict CacheEntry) → 0 < length es → find_oldest lib es none ≢ none
      found_none [] p h = elim p [ ]
      found_none (r ∷ es) p h = find_from-some es r h

  find_oldest-none : (es : Dict CacheEntry) → length es ≡ 0 → find_oldest lib es none ≡ none
  unfolding find_oldest
  find_oldest-none [] h = refl
  find_oldest-none (r ∷ es) h = absurd (omega arith)

  -- An empty map is left as it is.
  pub evict_oldest-empty : (c : ZoneCache) → length c.entries ≡ 0 → evict_oldest lib c ≡ c
  unfolding evict_oldest
  evict_oldest-empty c h = rw (find_oldest-none c.entries h)
