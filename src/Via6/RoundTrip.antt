-- ===== src/Via6/RoundTrip.antt =====
-- `TranslateFromVia6` on the addresses that `CreateVia6Address` builds.
use tsdnsreflector.Prelude.{
  ℕ, ◌<◌, ◌^◌, Text, true, ◌≡◌, ◌≢◌, sym, ◌∙◌, ap, none, some, [], ◌∷◌, Dict, lookup, if◌then◌else◌,
  arith, Distinct, Bool-cases, Option-cases, inl, inr, All-In, In, length, has_prefix, ◌==◌,
}
use tsdnsreflector.Prelude.Maps.{lookup-In, lookup_of_In}
use tsdnsreflector.Prelude.Result.{ok, err}
use tsdnsreflector.Config.{Zone, Config, ZoneRef, has_4via6}
use tsdnsreflector.Config.Validate.Accepts.{DistinctIds, Apart}
use tsdnsreflector.Address.{Ip, via6_bytes, via6_prefix}
use tsdnsreflector.Address.RoundTrip.{via6_bytes-parts}
use tsdnsreflector.Via6.{
  ZoneTranslator, Translator, new_zone_translator, new_translator, find_id, translate_from_via6,
  not_4via6_address, id_or_zero,
}
use tsdnsreflector.Via6.Zones.{new_translator-origin, new_translator-IsKeyed}
use tsdnsreflector.World.{World}

-- Two zones of one translate ID are one zone.
zone_of_id :
    (zs : Dict Zone) (y z : ZoneRef)
    → DistinctIds zs
    → In y zs
    → In z zs
    → has_4via6 y.1 ≡ true
    → y.1.translate_id ≡ z.1.translate_id
    → y ≡ z
zone_of_id [] y z d i j via e = elim i [ ]
zone_of_id (x ∷ zs) y z d (inl a) (inl b) via e = a ∙ sym b
zone_of_id (x ∷ zs) y z d (inl a) (inr j) via e =
    let apart = All-In (λ v. Apart v.1.translate_id x.1.translate_id) zs j d.0 in
    let same : y.1.translate_id ≡ x.1.translate_id = ap (λ v. v.1.translate_id) a in
    absurd (ground arith)
zone_of_id (x ∷ zs) y z d (inr i) (inl b) via e =
    let apart = All-In (λ v. Apart v.1.translate_id x.1.translate_id) zs i d.0 in
    let same : z.1.translate_id ≡ x.1.translate_id = ap (λ v. v.1.translate_id) b in
    absurd (ground arith)
zone_of_id (x ∷ zs) y z d (inr i) (inr j) via e = zone_of_id zs y z d.1 i j via e

find_id-In :
    (id : ℕ) (zts : Dict ZoneTranslator) (zt : ZoneTranslator)
    → find_id id zts ≡ some zt
    → (name : Text) × In (name, zt) zts × (zt.rule.translate_id ≡ id)
unfolding find_id
find_id-In id [] zt h = cc
find_id-In id ((name, y) ∷ zts) zt h = elim (Bool-cases (y.rule.translate_id == id)) [
  | inl same ↦ (name, inl (ground arith), ground arith)
  | inr differ ↦ let (n, i, e) = find_id-In id zts zt (ground arith) in (n, inr i, e)
]

find_id-some :
    (name : Text) (zts : Dict ZoneTranslator) (zt : ZoneTranslator)
    → In (name, zt) zts
    → find_id zt.rule.translate_id zts ≢ none
unfolding find_id
find_id-some name [] zt i = elim i [ ]
find_id-some name ((n, y) ∷ zts) zt i = ground (arith, find_id-some name zts zt)

module _ (w : World) where
  translator-id :
      (name : Text) (z : Zone) (zt : ZoneTranslator)
      → new_zone_translator w name z ≡ ok zt
      → zt.rule.translate_id ≡ id_or_zero z.translate_id
  unfolding new_zone_translator
  translator-id name z zt h = ground arith

  ids_same :
      (y z : Zone)
      → has_4via6 y ≡ true
      → has_4via6 z ≡ true
      → id_or_zero y.translate_id ≡ id_or_zero z.translate_id
      → y.translate_id ≡ z.translate_id
  ids_same y z p q e = ground arith

  -- The search by translate ID finds the zone's own translator.
  find_id-own :
      (cfg : Config) (t : Translator) (name : Text) (zt : ZoneTranslator)
      → new_translator w cfg ≡ ok t
      → Distinct cfg.zones
      → DistinctIds cfg.zones
      → lookup name t.zones ≡ some zt
      → find_id zt.rule.translate_id t.zones ≡ some zt
  find_id-own cfg t name zt h d ids at =
      elim (Option-cases (find_id zt.rule.translate_id t.zones)) [
        | inl e ↦ absurd (find_id-some name t.zones zt (lookup-In name zt t.zones at) e)
        | inr (yt, e) ↦
            let (n, i, same_id) = find_id-In zt.rule.translate_id t.zones yt e in
            let at_n = lookup_of_In n yt t.zones (new_translator-IsKeyed w cfg t h).0 i in
            let (z, z_at, z_via, z_made) = new_translator-origin w cfg t name zt h d at in
            let (y, y_at, y_via, y_made) = new_translator-origin w cfg t n yt h d at_n in
            let equal_ids =
              ids_same y z y_via z_via
                (sym (translator-id n y yt y_made) ∙ same_id ∙ translator-id name z zt z_made) in
            let one : ◌≡◌ {A = ZoneRef} (n, y) (name, z) =
              zone_of_id cfg.zones (n, y) (name, z) ids (lookup-In n y cfg.zones y_at)
                (lookup-In name z cfg.zones z_at) y_via equal_ids in
            e ∙ ap some (same_translator n y yt name z zt y_made z_made one)
      ]
    where
      same_translator :
          (n : Text) (y : Zone) (yt : ZoneTranslator) (m : Text) (z : Zone) (mt : ZoneTranslator)
          → new_zone_translator w n y ≡ ok yt
          → new_zone_translator w m z ≡ ok mt
          → ◌≡◌ {A = ZoneRef} (n, y) (m, z)
          → yt ≡ mt
      same_translator n y yt m z mt p q r = ground arith

  -- Let a translator be made for a configuration with distinct zone names and translate IDs, and
  -- take an address that one of its zones builds from an IPv4 address of 4 bytes, the zone's prefix
  -- being of 16 bytes and its ID below 2 ^ 16. If the first ten bytes of the prefix are
  -- fd7a:115c:a1e0:b1a:0, then `TranslateFromVia6` returns the zone's reflected domain and the IPv4
  -- address; if they are not, it refuses the address as no 4via6 address.
  pub translate_from_via6-via6_bytes :
      (cfg : Config) (t : Translator) (name : Text) (zt : ZoneTranslator) (v4 : Ip)
      → new_translator w cfg ≡ ok t
      → Distinct cfg.zones
      → DistinctIds cfg.zones
      → lookup name t.zones ≡ some zt
      → length zt.rule.prefix_network ≡ 16
      → zt.rule.translate_id < 2 ^ 16
      → length v4 ≡ 4
      → translate_from_via6 t (via6_bytes zt.rule.prefix_network zt.rule.translate_id v4) ≡ (
          if has_prefix zt.rule.prefix_network via6_prefix
          then ok (zt.rule.reflected_domain, v4)
          else err not_4via6_address)
  unfolding translate_from_via6
  translate_from_via6-via6_bytes cfg t name zt v4 h d ids at sixteen fits four =
      let (len, id, ip, via) =
        via6_bytes-parts zt.rule.prefix_network zt.rule.translate_id v4 sixteen four fits in
      rw (len, via)
        (elim (Bool-cases (has_prefix zt.rule.prefix_network via6_prefix)) [
          | inl good ↦ rw (good, id, find_id-own cfg t name zt h d ids at, ip)
          | inr bad ↦ rw bad
        ])
