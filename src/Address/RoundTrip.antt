-- ===== src/Address/RoundTrip.antt =====
-- A 4via6 address gives back the translate ID and the IPv4 address that it was made of.
use tsdnsreflector.Prelude.{
  ℕ, ◌+◌, ◌<◌, ◌≡◌, some, [], ◌∷◌, length, has_prefix, refl, arith, take, ◌^◌, ◌++◌, ◌*◌, ◌/◌, ◌%◌,
  ◌∙◌,
}
use tsdnsreflector.Address.{
  Ip, overlay, to4, is_via6_address, via6_bytes, translate_id_of, ipv4_of, via6_prefix,
}

to4_four : (ip : Ip) → length ip ≡ 4 → to4 ip ≡ some ip
unfolding to4
to4_four ip h = ground arith

overlay_four : (a b c d : ℕ) (v4 : Ip) → length v4 ≡ 4 → overlay (a ∷ b ∷ c ∷ d ∷ []) v4 ≡ v4
unfolding overlay
overlay_four a b c d (w ∷ x ∷ y ∷ z ∷ []) h = refl
overlay_four a b c d _ h = absurd (omega arith)

-- With a prefix of 16 bytes and an IPv4 address of 4, the address is the first ten bytes of the
-- prefix, the two bytes of the translate ID and the IPv4 address.
via6_layout :
    (prefix : Ip) (id : ℕ) (v4 : Ip)
    → length prefix ≡ 16
    → length v4 ≡ 4
    → via6_bytes prefix id v4 ≡ take 10 prefix ++ (id / 256) % 256 ∷ id % 256 ∷ v4
unfolding via6_bytes
via6_layout
      (b0 ∷ b1 ∷ b2 ∷ b3 ∷ b4 ∷ b5 ∷ b6 ∷ b7 ∷ b8 ∷ b9 ∷ b10 ∷ b11 ∷ b12 ∷ b13 ∷ b14 ∷ b15 ∷ []) id
      v4 h k =
    rw (to4_four v4 k, overlay_four b12 b13 b14 b15 v4 k)
via6_layout _ id v4 h k = absurd (omega arith)

first_ten :
    (prefix rest : Ip)
    → length prefix ≡ 16
    → has_prefix (take 10 prefix ++ rest) via6_prefix ≡ has_prefix prefix via6_prefix
unfolding has_prefix
first_ten (b0 ∷ b1 ∷ b2 ∷ b3 ∷ b4 ∷ b5 ∷ b6 ∷ b7 ∷ b8 ∷ b9 ∷ b10 ∷ b11 ∷ b12 ∷ b13 ∷ b14 ∷ b15 ∷ [])
      rest h =
    refl
first_ten _ rest h = absurd (omega arith)

parts :
    (prefix : Ip) (hi lo : ℕ) (v4 : Ip)
    → length prefix ≡ 16
    → length v4 ≡ 4
    → (translate_id_of (take 10 prefix ++ hi ∷ lo ∷ v4) ≡ hi * 256 + lo)
      × (ipv4_of (take 10 prefix ++ hi ∷ lo ∷ v4) ≡ v4)
      × (length (take 10 prefix ++ hi ∷ lo ∷ v4) ≡ 16)
unfolding translate_id_of ipv4_of
parts (b0 ∷ b1 ∷ b2 ∷ b3 ∷ b4 ∷ b5 ∷ b6 ∷ b7 ∷ b8 ∷ b9 ∷ b10 ∷ b11 ∷ b12 ∷ b13 ∷ b14 ∷ b15 ∷ []) hi
      lo (w ∷ x ∷ y ∷ z ∷ []) h k =
    (refl, refl, refl)
parts _ hi lo _ h k = absurd (omega arith)

module _ (prefix : Ip) (id : ℕ) (v4 : Ip) (sixteen : length prefix ≡ 16) (four : length v4 ≡ 4)
    (fits : id < 2 ^ 16) where
  -- From a prefix of 16 bytes, a translate ID below 2 ^ 16 and an IPv4 address of 4 bytes an
  -- address of 16 bytes is built, whose ID and IPv4 parts are the given ones, and which counts as a
  -- 4via6 address exactly when the first ten bytes of the prefix are those of fd7a:115c:a1e0:b1a:0.
  pub via6_bytes-parts :
      (length (via6_bytes prefix id v4) ≡ 16)
      × (translate_id_of (via6_bytes prefix id v4) ≡ id)
      × (ipv4_of (via6_bytes prefix id v4) ≡ v4)
      × (is_via6_address (via6_bytes prefix id v4) ≡ has_prefix prefix via6_prefix)
  unfolding is_via6_address
  via6_bytes-parts =
      let (ids, v4s, len) = parts prefix ((id / 256) % 256) (id % 256) v4 sixteen four in
      rw (via6_layout prefix id v4 sixteen four) (
        len,
        ids ∙ omega arith,
        v4s,
        rw len (first_ten prefix ((id / 256) % 256 ∷ id % 256 ∷ v4) sixteen),
      )
