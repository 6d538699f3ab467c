-- ===== src/Cache/Accounting.antt =====
-- What the memory counter counts.
use tsdnsreflector.Prelude.{
  ℕ, ◌+◌, ◌%◌, ◌^◌, Text, ◌≡◌, ◌∙◌, ◌⊎◌, In, ◌||◌, ap, Option, none, some, [], ◌∷◌, Dict, is_empty,
  lookup, insert, erase, if◌then◌else◌, arith, Distinct, Bool-cases, text_eq_iff, Option-cases, inl,
  inr, List, refl,
}
use native.Mathlib.Nat.{add_assoc}
use tsdnsreflector.Prelude.Maps.{lookup_of_In}
use tsdnsreflector.Prelude.Int.{ℤ, ◌+ℤ◌}
use tsdnsreflector.Prelude.Word.{sub64, sub64_sum, add64_sum}
use tsdnsreflector.Message.{DnsLib, Msg}
use tsdnsreflector.Cache.Expiry.{evict_expired-Distinct}
use tsdnsreflector.Cache.Calls.{Call, set_at, cleanup_at, clear_all, step, run, step-Distinct}
use tsdnsreflector.Cache.{
  CacheEntry, ZoneCache, new_zone_cache_with_name, make_room, set, cleanup_expired, clear,
  is_expired, calculate_entry_size, drop_expired, evict_expired, find_oldest, evict_oldest,
  evict_found, before_oldest, no_oldest, full,
}

module _ (lib : DnsLib) where
  pub entry_bytes : Text → CacheEntry → ℕ
  entry_bytes k e = calculate_entry_size lib k e.response

  -- The bytes of all the entries that are in the map.
  pub total : Dict CacheEntry → ℕ
  total [] = 0
  total ((k, e) ∷ es) = entry_bytes k e + total es

  pub bytes_at : Text → Option CacheEntry → ℕ
  bytes_at k none = 0
  bytes_at k (some e) = entry_bytes k e

  -- The counter is the bytes of the entries and `extra` more.
  pub record IsAccounted (extra : ℕ) (c : ZoneCache) : Type 0 where
    pub counted : c.memory_usage ≡ (total c.entries + extra) % 2 ^ 64

  drop_expired-total :
      (now : ℤ) (es : Dict CacheEntry) (usage x : ℕ)
      → usage ≡ (total es + x) % 2 ^ 64
      → (drop_expired lib now es usage).1 ≡ (total (drop_expired lib now es usage).0 + x) % 2 ^ 64
  unfolding drop_expired total entry_bytes
  drop_expired-total now [] usage x h = h
  drop_expired-total now ((k, e) ∷ es) usage x h = elim (Bool-cases (is_expired now e)) [
    | inl gone ↦
        let less : sub64 usage (calculate_entry_size lib k e.response) ≡ (total es + x) % 2 ^ 64 =
          sub64_sum usage (calculate_entry_size lib k e.response) (total es + x)
            (h ∙ ap (λ n. n % 2 ^ 64) (add_assoc _ (total es) x)) in
        rw gone (drop_expired-total now es _ x less)
    | inr stays ↦
        let rest = drop_expired-total now es usage (entry_bytes k e + x) (omega arith) in
        rw stays (omega arith)
  ]

  erase-total :
      (k : Text) (e : CacheEntry) (es : Dict CacheEntry)
      → lookup k es ≡ some e
      → total es ≡ entry_bytes k e + total (erase k es)
  unfolding total lookup erase
  erase-total k e [] h = ground arith
  erase-total k e ((j, f) ∷ es) h = ground (arith, text_eq_iff j k, erase-total k e es)

  insert-total :
      (k : Text) (e : CacheEntry) (es : Dict CacheEntry)
      → total (insert k e es) + bytes_at k (lookup k es) ≡ entry_bytes k e + total es
  unfolding total lookup insert bytes_at
  insert-total k e [] = ground arith
  insert-total k e ((j, f) ∷ es) = ground (arith, text_eq_iff j k, insert-total k e es)

  evict_expired-IsAccounted :
      (now : ℤ) (x : ℕ) (c : ZoneCache) → IsAccounted x c → IsAccounted x (evict_expired lib now c)
  unfolding evict_expired
  evict_expired-IsAccounted now x c h = record {
    counted = drop_expired-total now c.entries c.memory_usage x h.counted;
  }

  evict_found-IsAccounted :
      (k : Text) (e : CacheEntry) (x : ℕ) (c : ZoneCache)
      → lookup k c.entries ≡ some e
      → IsAccounted x c
      → IsAccounted x (evict_found lib (some (k, e)) c)
  unfolding entry_bytes
  evict_found-IsAccounted k e x c l h = elim (Bool-cases (is_empty k)) [
    | inl unnamed ↦ rw unnamed h
    | inr named ↦ rw named (record {
      counted =
          sub64_sum c.memory_usage (calculate_entry_size lib k e.response)
            (total (erase k c.entries) + x) (omega (arith, h.counted, erase-total k e c.entries l));
    })
  ]

  find_oldest-In :
      (es : Dict CacheEntry) (o : Option (Text × CacheEntry)) (k : Text) (e : CacheEntry)
      → find_oldest lib es o ≡ some (k, e)
      → (o ≡ some (k, e)) ⊎ In (k, e) es
  unfolding find_oldest
  find_oldest-In [] o k e h = inl h
  find_oldest-In ((j, f) ∷ es) o k e h = ground (
    arith,
    find_oldest-In es (if no_oldest lib o || before_oldest lib f o then some (j, f) else o) k e h,
  )

  pub find_oldest-lookup :
      (es : Dict CacheEntry) (k : Text) (e : CacheEntry)
      → Distinct es
      → find_oldest lib es none ≡ some (k, e)
      → lookup k es ≡ some e
  find_oldest-lookup es k e d h =
      lookup_of_In k e es d (ground (arith, find_oldest-In es none k e h))

  evict_oldest-IsAccounted :
      (x : ℕ) (c : ZoneCache)
      → Distinct c.entries
      → IsAccounted x c
      → IsAccounted x (evict_oldest lib c)
  unfolding evict_oldest
  evict_oldest-IsAccounted x c d h = elim (Option-cases (find_oldest lib c.entries none)) [
    | inl e ↦ rw e h
    | inr ((k, o), e) ↦
        rw e (evict_found-IsAccounted k o x c (find_oldest-lookup c.entries k o d e) h)
  ]

  make_room-IsAccounted :
      (now : ℤ) (x : ℕ) (c : ZoneCache)
      → Distinct c.entries
      → IsAccounted x c
      → IsAccounted x (make_room lib now c)
  unfolding make_room
  make_room-IsAccounted now x c d h =
      let after = evict_expired-IsAccounted now x c h in
      let last =
        evict_oldest-IsAccounted x (evict_expired lib now c) (evict_expired-Distinct lib now c d)
          after in
      elim (Bool-cases (full c)) [
        | inl at_limit ↦ rw at_limit (elim (Bool-cases (full (evict_expired lib now c))) [
          | inl still ↦ rw still last
          | inr room ↦ rw room after
        ])
        | inr room ↦ rw room h
      ]

  -- The bytes of the entry that `Set` overwrites: the one that the key still has after the
  -- eviction.
  pub replaced : ℤ → Text → ZoneCache → ℕ
  replaced evicting key c = bytes_at key (lookup key (make_room lib evicting c).entries)

  -- `Set` adds the new entry's bytes and never takes off those of the entry that it overwrites.
  pub set-IsAccounted :
      (lawful : (m : Msg) → lib.copy m ≡ m) (evicting storing : ℤ) (key : Text) (m : Msg) (x : ℕ)
      (c : ZoneCache)
      → Distinct c.entries
      → IsAccounted x c
      → IsAccounted (replaced evicting key c + x) (set lib evicting storing key m c)
  unfolding set replaced entry_bytes
  set-IsAccounted lawful evicting storing key m x c d h =
      let r = make_room lib evicting c in
      let e : CacheEntry = record { response = lib.copy m; expires_at = storing +ℤ c.ttl } in
      let new : entry_bytes key e ≡ calculate_entry_size lib key m =
        ap (calculate_entry_size lib key) (lawful m) in
      let sum = insert-total key e r.entries in
      record {
        counted =
            add64_sum r.memory_usage (calculate_entry_size lib key m) (total r.entries + x)
              (make_room-IsAccounted evicting x c d h).counted
            ∙ ap (λ n. n % 2 ^ 64) (omega (arith, sum, new));
      }

module _ (lib : DnsLib) where
  -- The bytes of all entries that were overwritten since the last `Clear`.
  pub overwritten_by : Call → ZoneCache → ℕ → ℕ
  overwritten_by (set_at evicting storing key m) c x = replaced lib evicting key c + x
  overwritten_by (cleanup_at now) c x = x
  overwritten_by clear_all c x = 0

  pub overwritten : List Call → ZoneCache → ℕ → ℕ
  overwritten [] c x = x
  overwritten (call ∷ calls) c x = overwritten calls (step lib call c) (overwritten_by call c x)

  step-IsAccounted :
      (copy_same : (m : Msg) → lib.copy m ≡ m) (call : Call) (x : ℕ) (c : ZoneCache)
      → Distinct c.entries
      → IsAccounted lib x c
      → IsAccounted lib (overwritten_by call c x) (step lib call c)
  unfolding step overwritten_by cleanup_expired clear
  step-IsAccounted copy_same (set_at evicting storing key m) x c d h =
      set-IsAccounted lib copy_same evicting storing key m x c d h
  step-IsAccounted copy_same (cleanup_at now) x c d h = evict_expired-IsAccounted lib now x c h
  step-IsAccounted copy_same clear_all x c d h = record { counted = unfold total in refl }

  run-IsAccounted :
      (copy_same : (m : Msg) → lib.copy m ≡ m) (calls : List Call) (x : ℕ) (c : ZoneCache)
      → Distinct c.entries
      → IsAccounted lib x c
      → IsAccounted lib (overwritten calls c x) (run lib calls c)
  unfolding run overwritten
  run-IsAccounted copy_same [] x c d h = h
  run-IsAccounted copy_same (call ∷ calls) x c d h =
      run-IsAccounted copy_same calls (overwritten_by call c x) (step lib call c)
        (step-Distinct lib call c d) (step-IsAccounted copy_same call x c d h)

  -- After any calls on a new cache the memory counter is, modulo 2 ^ 64, the bytes of the entries
  -- in the map and of all entries that `Set` has overwritten since the last `Clear`, where copying
  -- a message gives an equal message.
  pub run-memory_usage :
      (copy_same : (m : Msg) → lib.copy m ≡ m) (calls : List Call) (max_size ttl : ℤ) (name : Text)
      → (run lib calls (new_zone_cache_with_name max_size ttl name)).memory_usage
        ≡ (total lib (run lib calls (new_zone_cache_with_name max_size ttl name)).entries
            + overwritten calls (new_zone_cache_with_name max_size ttl name) 0)
          % 2 ^ 64
  unfolding new_zone_cache_with_name
  run-memory_usage copy_same calls max_size ttl name =
      (run-IsAccounted copy_same calls 0 (new_zone_cache_with_name max_size ttl name) tt
        (record { counted = unfold total in refl })).counted
