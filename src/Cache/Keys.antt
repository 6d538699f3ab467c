-- ===== src/Cache/Keys.antt =====
-- A property of keys that all stored entries have.
use tsdnsreflector.Prelude.{
  ℕ, ◌≡◌, inl, inr, Text, Option, none, some, [], ◌∷◌, Dict, lookup, insert, erase, text_eq, All,
  All-In, is_empty, Bool-cases,
}
use tsdnsreflector.Message.{Msg, DnsLib}
use tsdnsreflector.Prelude.Int.{ℤ}
use tsdnsreflector.Prelude.Maps.{lookup-In}
use tsdnsreflector.Cache.{
  CacheEntry, ZoneCache, is_expired, drop_expired, evict_expired, evict_found, evict_oldest,
  find_oldest, make_room, set, full,
}

module _ (P : Text → Type 0) where
  abbrev pub HasKeys : Dict CacheEntry → Type 0
  HasKeys = All (λ e. P e.0)

  insert-HasKeys :
      (k : Text) (v : CacheEntry) (es : Dict CacheEntry)
      → P k
      → HasKeys es
      → HasKeys (insert k v es)
  unfolding insert
  insert-HasKeys k v [] p h = (p, tt)
  insert-HasKeys k v ((j, e) ∷ es) p h = elim (Bool-cases (text_eq j k)) [
    | inl same ↦ rw same h
    | inr differ ↦ rw differ (h.0, insert-HasKeys k v es p h.1)
  ]

  erase-HasKeys : (k : Text) (es : Dict CacheEntry) → HasKeys es → HasKeys (erase k es)
  unfolding erase
  erase-HasKeys k [] h = tt
  erase-HasKeys k ((j, e) ∷ es) h = elim (Bool-cases (text_eq j k)) [
    | inl same ↦ rw same h.1
    | inr differ ↦ rw differ (h.0, erase-HasKeys k es h.1)
  ]

  pub lookup-HasKeys :
      (k : Text) (e : CacheEntry) (es : Dict CacheEntry) → HasKeys es → lookup k es ≡ some e → P k
  lookup-HasKeys k e es h found = All-In (λ x. P x.0) es (lookup-In k e es found) h

  module _ (lib : DnsLib) where
    drop_expired-HasKeys :
        (now : ℤ) (es : Dict CacheEntry) (usage : ℕ)
        → HasKeys es
        → HasKeys (drop_expired lib now es usage).0
    unfolding drop_expired
    drop_expired-HasKeys now [] usage h = tt
    drop_expired-HasKeys now ((k, e) ∷ es) usage h = elim (Bool-cases (is_expired now e)) [
      | inl gone ↦ rw gone (drop_expired-HasKeys now es _ h.1)
      | inr stays ↦ rw stays (h.0, drop_expired-HasKeys now es _ h.1)
    ]

    evict_expired-HasKeys :
        (now : ℤ) (c : ZoneCache) → HasKeys c.entries → HasKeys (evict_expired lib now c).entries
    unfolding evict_expired
    evict_expired-HasKeys now c h = drop_expired-HasKeys now c.entries c.memory_usage h

    evict_found-HasKeys :
        (o : Option (Text × CacheEntry)) (c : ZoneCache)
        → HasKeys c.entries
        → HasKeys (evict_found lib o c).entries
    evict_found-HasKeys none c h = h
    evict_found-HasKeys (some (k, e)) c h = elim (Bool-cases (is_empty k)) [
      | inl unnamed ↦ rw unnamed h
      | inr named ↦ rw named (erase-HasKeys k c.entries h)
    ]

    make_room-HasKeys :
        (now : ℤ) (c : ZoneCache) → HasKeys c.entries → HasKeys (make_room lib now c).entries
    unfolding make_room evict_oldest
    make_room-HasKeys now c h =
        let c' = evict_expired lib now c in
        let h' = evict_expired-HasKeys now c h in
        elim (Bool-cases (full c)) [
          | inl at_limit ↦ rw at_limit (elim (Bool-cases (full c')) [
            | inl still ↦ rw still (evict_found-HasKeys (find_oldest lib c'.entries none) c' h')
            | inr room ↦ rw room h'
          ])
          | inr room ↦ rw room h
        ]

    pub set-HasKeys :
        (evicting storing : ℤ) (key : Text) (m : Msg) (c : ZoneCache)
        → P key
        → HasKeys c.entries
        → HasKeys (set lib evicting storing key m c).entries
    unfolding set
    set-HasKeys evicting storing key m c p h =
        insert-HasKeys key _ (make_room lib evicting c).entries p (make_room-HasKeys evicting c h)
