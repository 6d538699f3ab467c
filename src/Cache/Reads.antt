-- ===== src/Cache/Reads.antt =====
-- What `Get` answers after `Set`.
use tsdnsreflector.Prelude.{
  Text, false, ◌≡◌, ◌≢◌, ◌⊎◌, none, some, lookup, if◌then◌else◌, arith, Distinct, Bool-cases,
  text_eq, text_eq_iff, text_eq_refl, Option-cases, inl, inr, is_empty,
}
use tsdnsreflector.Prelude.Maps.{lookup-insert, lookup-erase}
use tsdnsreflector.Prelude.Int.{ℤ, ◌+ℤ◌, ltz}
use tsdnsreflector.Message.{Msg, DnsLib}
use tsdnsreflector.Cache.Expiry.{lookup-evict_expired, evict_expired-Distinct}
use tsdnsreflector.Cache.{
  CacheEntry, ZoneCache, is_expired, evict_expired, evict_oldest, evict_found, find_oldest,
  make_room, set, get, full,
}

module _ (lib : DnsLib) where
  -- A `Get` of a key after a `Set` of it returns the response, copied twice, until the clock is
  -- past the time of the `Set` and the cache's TTL, and nothing from then on.
  pub get-set_self :
      (evicting storing now : ℤ) (key : Text) (m : Msg) (c : ZoneCache)
      → get lib now key (set lib evicting storing key m c)
        ≡ (if ltz (storing +ℤ c.ttl) now then none else some (lib.copy (lib.copy m)))
  unfolding get set is_expired
  get-set_self evicting storing now key m c =
      rw (lookup-insert key key _ (make_room lib evicting c).entries, text_eq_refl key)

  lookup-evict_found :
      (k : Text) (o : CacheEntry) (j : Text) (c : ZoneCache)
      → Distinct c.entries
      → (lookup j (evict_found lib (some (k, o)) c).entries ≡ lookup j c.entries)
        ⊎ (lookup j (evict_found lib (some (k, o)) c).entries ≡ none)
  lookup-evict_found k o j c d = elim (Bool-cases (is_empty k)) [
    | inl unnamed ↦ inl (rw unnamed)
    | inr named ↦
        rw (named, lookup-erase k j c.entries d)
          (elim (Bool-cases (text_eq k j)) [
            | inl same ↦ inr (rw same)
            | inr differ ↦ inl (rw differ)
          ])
  ]

  lookup-evict_oldest :
      (j : Text) (c : ZoneCache)
      → Distinct c.entries
      → (lookup j (evict_oldest lib c).entries ≡ lookup j c.entries)
        ⊎ (lookup j (evict_oldest lib c).entries ≡ none)
  unfolding evict_oldest
  lookup-evict_oldest j c d = elim (Option-cases (find_oldest lib c.entries none)) [
    | inl e ↦ inl (rw e)
    | inr ((k, o), e) ↦ rw e (lookup-evict_found k o j c d)
  ]

  pub lookup-evict_expired_cases :
      (now : ℤ) (j : Text) (c : ZoneCache)
      → Distinct c.entries
      → (lookup j (evict_expired lib now c).entries ≡ lookup j c.entries)
        ⊎ (lookup j (evict_expired lib now c).entries ≡ none)
  lookup-evict_expired_cases now j c d = rw (lookup-evict_expired lib now c j d) (ground arith)

  pub lookup-make_room :
      (now : ℤ) (j : Text) (c : ZoneCache)
      → Distinct c.entries
      → (lookup j (make_room lib now c).entries ≡ lookup j c.entries)
        ⊎ (lookup j (make_room lib now c).entries ≡ none)
  unfolding make_room
  lookup-make_room now j c d =
      let c' = evict_expired lib now c in
      let first = lookup-evict_expired_cases now j c d in
      let second = lookup-evict_oldest j c' (evict_expired-Distinct lib now c d) in
      elim (Bool-cases (full c)) [
        | inl at_limit ↦ rw at_limit (elim (Bool-cases (full c')) [
          | inl still ↦ rw still (ground arith)
          | inr room ↦ rw room first
        ])
        | inr room ↦ inl (rw room)
      ]

  -- On a map without a repeated key, `Set` of one key never changes what a `Get` of another key
  -- returns, except that the other key's entry may be evicted.
  pub get-set_ne :
      (evicting storing now : ℤ) (key j : Text) (m : Msg) (c : ZoneCache)
      → Distinct c.entries
      → key ≢ j
      → (get lib now j (set lib evicting storing key m c) ≡ get lib now j c)
        ⊎ (get lib now j (set lib evicting storing key m c) ≡ none)
  unfolding get set
  get-set_ne evicting storing now key j m c d differ =
      let no : text_eq key j ≡ false = ground (arith, text_eq_iff key j) in
      rw (lookup-insert key j _ (make_room lib evicting c).entries, no)
        (elim (lookup-make_room evicting j c d) [
          | inl same ↦ inl (rw same)
          | inr gone ↦ inr (rw gone)
        ])

  -- Below the size limit nothing is evicted: every other key answers as before.
  pub get-set_room :
      (evicting storing now : ℤ) (key j : Text) (m : Msg) (c : ZoneCache)
      → full c ≡ false
      → key ≢ j
      → get lib now j (set lib evicting storing key m c) ≡ get lib now j c
  unfolding get set make_room
  get-set_room evicting storing now key j m c room differ =
      let no : text_eq key j ≡ false = ground (arith, text_eq_iff key j) in
      rw (lookup-insert key j _ (make_room lib evicting c).entries, no, make_room, room)
