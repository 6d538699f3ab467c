-- ===== src/Via6/ThereAndBack.antt =====
-- `TranslateToVia6` followed by `TranslateFromVia6`.
use tsdnsreflector.Prelude.{
  ℕ, suc, ◌^◌, ◌<◌, ◌≡◌, ◌⊎◌, inl, inr, refl, ap, ◌∙◌, Text, true, Option, none, some, List, [],
  ◌∷◌, ◌==◌, Dict, Distinct, text_eq, has_prefix, All, In, All-In, length, drop, arith, is_empty,
  Bool-cases, Option-cases,
}
use tsdnsreflector.Message.{Msg, type_a}
use tsdnsreflector.Prelude.Int.{ℤ}
use tsdnsreflector.Prelude.Result.{Result, ok, Result-cases}
use tsdnsreflector.Prelude.Maps.{lookup_of_In}
use tsdnsreflector.Config.{has_4via6, Config, ZoneRef}
use tsdnsreflector.Config.Domain.{with_dot, get_zone}
use tsdnsreflector.Config.Validate.Accepts.{DistinctIds}
use tsdnsreflector.Address.{Ip, to4, via6_bytes, via6_prefix}
use tsdnsreflector.Address.{v4_in_v6_prefix}
use tsdnsreflector.Prelude.{==_iff}
use tsdnsreflector.Prelude.{length-drop}
use mathlib.Core.Path.{subst}
use tsdnsreflector.Via6.{
  translator_of, translate_in, found_or, resolve_literal, or_error, no_ipv4_found, target_name,
  ZoneTranslator, Translator, Via6Error, find_translator, get_zone_for_domain, translate_from_via6,
  new_translator, ipv4_in, ask_servers, resolve_by_servers, resolve_reflected_domain,
  create_via6_address, translate_to_via6,
}
use tsdnsreflector.Via6.Zones.{new_translator-IsKeyed}
use tsdnsreflector.Via6.RoundTrip.{translate_from_via6-via6_bytes}
use tsdnsreflector.World.{World}

-- The prefix is a 4via6 prefix of 16 bytes, and the ID is one of 16 bits.
abbrev pub IsUsable : ZoneTranslator → Type 0
IsUsable zt =
    (length zt.rule.prefix_network ≡ 16)
    × (has_prefix zt.rule.prefix_network via6_prefix ≡ true)
    × (zt.rule.translate_id < 2 ^ 16)

find_translator-In :
    (z : ZoneRef) (zts : Dict ZoneTranslator) (zt : ZoneTranslator)
    → find_translator z zts ≡ some zt
    → (name : Text) × In (name, zt) zts
unfolding find_translator
find_translator-In z [] zt h = absurd (ground arith)
find_translator-In z ((n, y) ∷ zts) zt h = elim (Bool-cases (text_eq y.zone_name z.0)) [
  | inl same ↦ (n, inl (ground arith))
  | inr differ ↦ let (name, i) = find_translator-In z zts zt (ground arith) in (name, inr i)
]

translator_of-In :
    (zts : Dict ZoneTranslator) (o : Option ZoneRef) (zt : ZoneTranslator)
    → translator_of zts o ≡ some zt
    → (name : Text) × In (name, zt) zts
translator_of-In zts none zt h = absurd (ground arith)
translator_of-In zts (some z) zt h = elim (Bool-cases (has_4via6 z.1)) [
  | inl e ↦ find_translator-In z zts zt (ground (arith, e, h))
  | inr e ↦ absurd (ground (arith, e, h))
]

get_zone_for_domain-In :
    (t : Translator) (domain : Text) (zt : ZoneTranslator)
    → get_zone_for_domain t domain ≡ some zt
    → (name : Text) × In (name, zt) t.zones
unfolding get_zone_for_domain
get_zone_for_domain-In t domain zt h = translator_of-In t.zones (get_zone t.config domain) zt h

length-to4 : (ip v4 : Ip) → to4 ip ≡ some v4 → length v4 ≡ 4
unfolding to4
length-to4 ip v4 h = elim (Bool-cases (length ip == 4)) [
  | inl four ↦
      let same : ip ≡ v4 = ground (arith, four, h) in
      rw⁻¹ same (omega (arith, (==_iff (length ip) 4).0 four))
  | inr other ↦ elim (Bool-cases (length ip == 16)) [
    | inl sixteen ↦ elim (Bool-cases (has_prefix ip v4_in_v6_prefix)) [
      | inl good ↦
          let same : drop 12 ip ≡ v4 = ground (arith, other, sixteen, good, h) in
          rw⁻¹ same (omega (arith, length-drop {0} 12 ip, (==_iff (length ip) 16).0 sixteen))
      | inr bad ↦ absurd (ground (arith, other, sixteen, bad, h))
    ]
    | inr neither ↦ absurd (ground (arith, other, neither, h))
  ]
]

module _ (w : World) where
  -- The A records of the servers' answers hold 4 bytes.
  abbrev pub FourBytes : Type 0
  FourBytes =
      (n : ℕ) (timeout : ℤ) (server : Text) (m : Msg) (ip : Ip)
      → ipv4_in w (w.exchange n timeout server m) ≡ some ip
      → length ip ≡ 4

  found_or-some :
      (o : Option Ip) (n : ℕ) (rest : Option Ip × ℕ) (ip : Ip)
      → (found_or w o n rest).0 ≡ some ip
      → (rest.0 ≡ some ip) ⊎ (o ≡ some ip)
  found_or-some none n rest ip h = inl h
  found_or-some (some a) n rest ip h = inr h

  resolve_literal-ok :
      (o : Option Ip) (by : Result Via6Error Ip × ℕ) (asked : ℕ) (ip : Ip)
      → (resolve_literal w o by asked).0 ≡ ok ip
      → (by.0 ≡ ok ip) ⊎ ((a : Ip) × (to4 a ≡ some ip))
  resolve_literal-ok none by asked ip h = inl h
  resolve_literal-ok (some a) by asked ip h = elim (Option-cases (to4 a)) [
    | inl e ↦ absurd (ground (arith, e, h))
    | inr (v, e) ↦ let same : v ≡ ip = ground (arith, e, h) in inr (a, e ∙ ap some same)
  ]

  ask_servers-four :
      (four : FourBytes) (timeout : ℤ) (m : Msg) (servers : List Text) (asked : ℕ) (ip : Ip)
      → (ask_servers w timeout m servers asked).0 ≡ some ip
      → length ip ≡ 4
  unfolding ask_servers
  ask_servers-four four timeout m [] asked ip h = absurd (ground arith)
  ask_servers-four four timeout m (server ∷ servers) asked ip h =
      let rest = ask_servers w timeout m servers (suc asked) in
      elim (found_or-some (ipv4_in w (w.exchange asked timeout server m)) (suc asked) rest ip h) [
        | inl later ↦ ask_servers-four four timeout m servers (suc asked) ip later
        | inr now ↦ four asked timeout server m ip now
      ]

  resolve-four :
      (four : FourBytes) (zt : ZoneTranslator) (name : Text) (asked : ℕ) (ip : Ip)
      → (resolve_reflected_domain w zt name asked).0 ≡ ok ip
      → length ip ≡ 4
  unfolding resolve_reflected_domain resolve_by_servers
  resolve-four four zt name asked ip h =
      let msg = w.dns.set_question w.dns.new_msg (target_name zt name) type_a in
      let found = ask_servers w zt.rule.dns_timeout msg zt.rule.dns_servers asked in
      elim (resolve_literal-ok (w.parse_ip zt.rule.reflected_domain)
        (or_error found.0 no_ipv4_found, found.1) asked ip h) [
          | inl by_servers ↦
              ask_servers-four four zt.rule.dns_timeout msg zt.rule.dns_servers asked ip
                (ground (arith, by_servers))
          | inr (a, literal) ↦ length-to4 a ip literal
        ]

  -- What a successful translation went through.
  create-ok :
      (zt : ZoneTranslator) (name : Text) (asked : ℕ) (ip : Ip)
      → (create_via6_address w zt name asked).0 ≡ ok ip
      → (v4 : Ip) × ((resolve_reflected_domain w zt name asked).0 ≡ ok v4)
        × (ip ≡ via6_bytes zt.rule.prefix_network zt.rule.translate_id v4)
  unfolding create_via6_address
  create-ok zt name asked ip h = elim (Bool-cases (is_empty zt.rule.reflected_domain)) [
    | inl e ↦ absurd (ground (arith, e, h))
    | inr e ↦ elim (Result-cases (resolve_reflected_domain w zt name asked).0) [
      | inl (v4, r) ↦ (v4, r, ground (arith, e, r, h))
      | inr (x, r) ↦ absurd (ground (arith, e, r, h))
    ]
  ]

  -- Let a translator be made for a configuration with distinct zone names and translate IDs, all its
  -- zones having a 4via6 prefix of 16 bytes and an ID below 2 ^ 16, and let the A records of the
  -- servers hold 4 bytes. If `TranslateToVia6` gives an address for a domain, then the domain has a zone
  -- translator, its reflected domain was resolved to an IPv4 address, and `TranslateFromVia6` returns
  -- just this reflected domain and this address.
  pub translate_from_via6-translate_to_via6 :
      (cfg : Config) (t : Translator) (domain : Text) (asked : ℕ) (ip : Ip)
      → FourBytes
      → new_translator w cfg ≡ ok t
      → Distinct cfg.zones
      → DistinctIds cfg.zones
      → All (λ e. IsUsable e.1) t.zones
      → (translate_to_via6 w t domain asked).0 ≡ ok ip
      → (zt : ZoneTranslator) × (v4 : Ip) × (get_zone_for_domain t (with_dot domain) ≡ some zt)
        × ((resolve_reflected_domain w zt (with_dot domain) asked).0 ≡ ok v4)
        × (translate_from_via6 t ip ≡ ok (zt.rule.reflected_domain, v4))
  unfolding translate_to_via6
  translate_from_via6-translate_to_via6 cfg t domain asked ip four made d ids usable h =
      elim (Option-cases (get_zone_for_domain t (with_dot domain))) [
        | inl e ↦ absurd (ground (arith, e, h))
        | inr (zt, e) ↦
            let (name, i) = get_zone_for_domain-In t (with_dot domain) zt e in
            let created = subst (λ o. (translate_in w o (with_dot domain) asked).0 ≡ ok ip) e h in
            let (v4, resolved, bytes) = create-ok zt (with_dot domain) asked ip created in
            let (sixteen, good, fits) = All-In (λ x. IsUsable x.1) t.zones i usable in
            let at = lookup_of_In name zt t.zones (new_translator-IsKeyed w cfg t made).0 i in
            let back =
              translate_from_via6-via6_bytes w cfg t name zt v4 made d ids at sixteen fits
                (resolve-four four zt (with_dot domain) asked v4 resolved) in
            (zt, v4, e, resolved, rw (bytes, back, good) refl)
      ]
