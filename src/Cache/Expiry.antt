-- ===== src/Cache/Expiry.antt =====
-- Expiry: what `evictExpired` removes, and that readers do not see it.
use tsdnsreflector.Prelude.{
  ℕ, Text, true, ◌≡◌, refl, Option, none, some, [], ◌∷◌, Dict, lookup, if◌then◌else◌, arith,
  Distinct, Bool-cases, text_eq, text_eq_iff, Option-cases, inl, inr, is_empty,
}
use tsdnsreflector.Prelude.Maps.{insert-Distinct, erase-Distinct}
use tsdnsreflector.Prelude.Int.{ℤ, ◌≤ℤ◌}
use tsdnsreflector.Prelude.Word.{sub64}
use tsdnsreflector.Message.{Msg, DnsLib}
use tsdnsreflector.Cache.{
  CacheEntry, ZoneCache, is_expired, drop_expired, evict_expired, evict_oldest, get, make_room, set,
  cleanup_expired, evict_found, calculate_entry_size, answer, find_oldest,
}

-- The entry, unless it has expired.
abbrev pub unexpired : ℤ → Option CacheEntry → Option CacheEntry
unexpired now none = none
unexpired now (some e) = if is_expired now e then none else some e

module _ (lib : DnsLib) where
  lookup-drop_expired :
      (now : ℤ) (es : Dict CacheEntry) (usage : ℕ) (j : Text)
      → Distinct es
      → lookup j (drop_expired lib now es usage).0 ≡ unexpired now (lookup j es)
  unfolding drop_expired lookup
  lookup-drop_expired now [] usage j d = refl
  lookup-drop_expired now ((k, e) ∷ es) usage j d = elim (Bool-cases (is_expired now e)) [
    | inl gone ↦
        let ih =
          lookup-drop_expired now es (sub64 usage (calculate_entry_size lib k e.response)) j d.1 in
        rw (gone, ih)
          (elim (Bool-cases (text_eq k j)) [
            | inl same ↦
                let absent : lookup j es ≡ none = rw ((text_eq_iff k j).0 same) at d.0 in
                rw (same, absent) (rw gone)
            | inr differ ↦ rw differ
          ])
    | inr stays ↦ rw stays (ground (arith, lookup-drop_expired now es usage j d.1, text_eq_iff k j))
  ]

  drop_expired-Distinct :
      (now : ℤ) (es : Dict CacheEntry) (usage : ℕ)
      → Distinct es
      → Distinct (drop_expired lib now es usage).0
  unfolding drop_expired
  drop_expired-Distinct now [] usage d = tt
  drop_expired-Distinct now ((k, e) ∷ es) usage d = elim (Bool-cases (is_expired now e)) [
    | inl gone ↦ rw gone (drop_expired-Distinct now es _ d.1)
    | inr stays ↦ rw stays (
      ground (arith, lookup-drop_expired now es usage k d.1, d.0),
      drop_expired-Distinct now es usage d.1,
    )
  ]

  pub lookup-evict_expired :
      (now : ℤ) (c : ZoneCache) (j : Text)
      → Distinct c.entries
      → lookup j (evict_expired lib now c).entries ≡ unexpired now (lookup j c.entries)
  unfolding evict_expired
  lookup-evict_expired now c j d = lookup-drop_expired now c.entries c.memory_usage j d

  pub evict_expired-Distinct :
      (now : ℤ) (c : ZoneCache) → Distinct c.entries → Distinct (evict_expired lib now c).entries
  unfolding evict_expired
  evict_expired-Distinct now c d = drop_expired-Distinct now c.entries c.memory_usage d

  evict_found-Distinct :
      (k : Text) (o : CacheEntry) (c : ZoneCache)
      → Distinct c.entries
      → Distinct (evict_found lib (some (k, o)) c).entries
  evict_found-Distinct k o c d = elim (Bool-cases (is_empty k)) [
    | inl unnamed ↦ rw unnamed d
    | inr named ↦ rw named (erase-Distinct k c.entries d)
  ]

  pub evict_oldest-Distinct :
      (c : ZoneCache) → Distinct c.entries → Distinct (evict_oldest lib c).entries
  unfolding evict_oldest
  evict_oldest-Distinct c d = elim (Option-cases (find_oldest lib c.entries none)) [
    | inl e ↦ rw e d
    | inr ((k, o), e) ↦ rw e (evict_found-Distinct k o c d)
  ]

  pub make_room-Distinct :
      (now : ℤ) (c : ZoneCache) → Distinct c.entries → Distinct (make_room lib now c).entries
  unfolding make_room
  make_room-Distinct now c d =
      ground
        (arith, evict_expired-Distinct now c d, evict_oldest-Distinct (evict_expired lib now c))

  -- No key stands twice in the map after `Set`.
  pub set-Distinct :
      (evicting storing : ℤ) (key : Text) (m : Msg) (c : ZoneCache)
      → Distinct c.entries
      → Distinct (set lib evicting storing key m c).entries
  unfolding set
  set-Distinct evicting storing key m c d =
      insert-Distinct key _ (make_room lib evicting c).entries (make_room-Distinct evicting c d)

  expired_later :
      (now later : ℤ) (e : CacheEntry)
      → now ≤ℤ later
      → is_expired now e ≡ true
      → is_expired later e ≡ true
  unfolding is_expired
  expired_later now later e le h = ground arith

  answer-unexpired :
      (now later : ℤ) (o : Option CacheEntry)
      → now ≤ℤ later
      → answer lib later (unexpired now o) ≡ answer lib later o
  answer-unexpired now later none le = refl
  answer-unexpired now later (some e) le = ground (arith, expired_later now later e le)

  -- On a map without a repeated key the background cleanup is invisible: a `Get` at or after the
  -- time of the cleanup answers as if there had been none.
  pub get-cleanup_expired :
      (now later : ℤ) (key : Text) (c : ZoneCache)
      → Distinct c.entries
      → now ≤ℤ later
      → get lib later key (cleanup_expired lib now c) ≡ get lib later key c
  unfolding get cleanup_expired
  get-cleanup_expired now later key c d le =
      rw (lookup-evict_expired now c key d) (answer-unexpired now later (lookup key c.entries) le)
