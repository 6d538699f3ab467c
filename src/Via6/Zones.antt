-- ===== src/Via6/Zones.antt =====
-- `NewTranslator` makes a translator for every 4via6 zone, and for no other.
use tsdnsreflector.Prelude.{
  Text, Bool, true, false, ◌≡◌, refl, ◌∙◌, Option, none, some, [], ◌∷◌, Dict, lookup, insert, arith,
  Distinct, Bool-cases, text_eq, text_eq_iff, Option-cases, inl, inr, All,
}
use tsdnsreflector.Prelude.Maps.{lookup-insert, insert-Distinct, lookup_of_In}
use tsdnsreflector.Prelude.Result.{ok, Result-cases}
use tsdnsreflector.Config.{Zone, Config, ZoneRef, has_4via6}
use tsdnsreflector.Config.Domain.Select.{get_zone-In}
use tsdnsreflector.Prelude.Maps.{lookup_of_In}
use tsdnsreflector.Config.Domain.{get_zone}
use tsdnsreflector.Via6.{
  ZoneTranslator, Translator, new_zone_translator, add_zones, new_translator, find_translator,
  get_zone_for_domain, should_translate,
}
use tsdnsreflector.World.{World}

abbrev via6_at : Option Zone → Bool
via6_at none = false
via6_at (some z) = has_4via6 z

abbrev pub has_translator : Option ZoneTranslator → Bool
has_translator none = false
has_translator (some zt) = true

-- Every translator stands under its zone's name.
pub IsKeyed : Dict ZoneTranslator → Type 0
IsKeyed = All (λ e. e.1.zone_name ≡ e.0)

insert-IsKeyed :
    (name : Text) (zt : ZoneTranslator) (zts : Dict ZoneTranslator)
    → zt.zone_name ≡ name
    → IsKeyed zts
    → IsKeyed (insert name zt zts)
unfolding IsKeyed insert
insert-IsKeyed name zt [] e k = (e, tt)
insert-IsKeyed name zt ((j, y) ∷ zts) e k =
    ground (arith, insert-IsKeyed name zt zts e k.1, text_eq_iff j name)

find_translator-lookup :
    (z : ZoneRef) (zts : Dict ZoneTranslator) → IsKeyed zts → find_translator z zts ≡ lookup z.0 zts
unfolding IsKeyed find_translator lookup
find_translator-lookup z [] k = refl
find_translator-lookup z ((j, y) ∷ zts) k = rw (k.0, find_translator-lookup z zts k.1)

module _ (w : World) where
  new_zone_translator-name :
      (name : Text) (z : Zone) (zt : ZoneTranslator)
      → new_zone_translator w name z ≡ ok zt
      → (zt.zone_name ≡ name) × (zt.zone ≡ z)
  unfolding new_zone_translator
  new_zone_translator-name name z zt h = ground arith

  -- A round of the loop that adds a translator.
  add_zones-add :
      (name : Text) (z : Zone) (zs : Dict Zone) (acc out : Dict ZoneTranslator)
      → has_4via6 z ≡ true
      → add_zones w ((name, z) ∷ zs) acc ≡ ok out
      → (zt : ZoneTranslator) × (new_zone_translator w name z ≡ ok zt)
        × (add_zones w zs (insert name zt acc) ≡ ok out)
  unfolding add_zones
  add_zones-add name z zs acc out via h = elim (Result-cases (new_zone_translator w name z)) [
    | inl (zt, e) ↦ (zt, e, ground arith)
    | inr (x, e) ↦ absurd (ground arith)
  ]

  add_zones-skip :
      (name : Text) (z : Zone) (zs : Dict Zone) (acc out : Dict ZoneTranslator)
      → has_4via6 z ≡ false
      → add_zones w ((name, z) ∷ zs) acc ≡ ok out
      → add_zones w zs acc ≡ ok out
  unfolding add_zones
  add_zones-skip name z zs acc out plain h = ground arith

  add_zones-other :
      (zs : Dict Zone) (acc out : Dict ZoneTranslator) (j : Text)
      → add_zones w zs acc ≡ ok out
      → via6_at (lookup j zs) ≡ false
      → Distinct zs
      → lookup j out ≡ lookup j acc
  unfolding lookup
  add_zones-other [] acc out j h absent d = unfold add_zones in ground arith
  add_zones-other ((name, z) ∷ zs) acc out j h absent d = elim (Bool-cases (has_4via6 z)) [
    | inl via ↦
        let (zt, e, rest) = add_zones-add name z zs acc out via h in
        ground
          (arith, add_zones-other zs (insert name zt acc) out j rest, lookup-insert name j zt acc)
    | inr plain ↦ ground (
      arith,
      add_zones-other zs acc out j (add_zones-skip name z zs acc out plain h),
      text_eq_iff name j,
    )
  ]

  add_zones-found :
      (zs : Dict Zone) (acc out : Dict ZoneTranslator) (j : Text) (y : Zone)
      → add_zones w zs acc ≡ ok out
      → lookup j zs ≡ some y
      → has_4via6 y ≡ true
      → Distinct zs
      → (zt : ZoneTranslator) × (new_zone_translator w j y ≡ ok zt) × (lookup j out ≡ some zt)
  unfolding lookup
  add_zones-found [] acc out j y h at via d = cc
  add_zones-found ((name, z) ∷ zs) acc out j y h at via d = elim (Bool-cases (text_eq name j)) [
    | inl same ↦
        let key : name ≡ j = (text_eq_iff name j).0 same in
        let is : z ≡ y = ground arith in
        let (zt, e, rest) = add_zones-add name z zs acc out (rw is via) h in
        let absent : via6_at (lookup j zs) ≡ false = ground arith in
        let later = add_zones-other zs (insert name zt acc) out j rest absent d.1 in
        (zt, cc, ground (arith, later, lookup-insert name j zt acc))
    | inr differ ↦
        let at' : lookup j zs ≡ some y = ground arith in
        elim (Bool-cases (has_4via6 z)) [
          | inl via' ↦
              let (zt, e, rest) = add_zones-add name z zs acc out via' h in
              add_zones-found zs (insert name zt acc) out j y rest at' via d.1
          | inr plain ↦
              add_zones-found zs acc out j y (add_zones-skip name z zs acc out plain h) at' via d.1
        ]
  ]

  add_zones-Distinct :
      (zs : Dict Zone) (acc out : Dict ZoneTranslator)
      → add_zones w zs acc ≡ ok out
      → Distinct acc × IsKeyed acc
      → Distinct out × IsKeyed out
  add_zones-Distinct [] acc out h d = unfold add_zones in ground arith
  add_zones-Distinct ((name, z) ∷ zs) acc out h d = elim (Bool-cases (has_4via6 z)) [
    | inl via ↦
        let (zt, e, rest) = add_zones-add name z zs acc out via h in
        let named = (new_zone_translator-name name z zt e).0 in
        add_zones-Distinct zs (insert name zt acc) out rest
          (insert-Distinct name zt acc d.0, insert-IsKeyed name zt acc named d.1)
    | inr plain ↦ add_zones-Distinct zs acc out (add_zones-skip name z zs acc out plain h) d
  ]

  new_translator-parts :
      (cfg : Config) (t : Translator)
      → new_translator w cfg ≡ ok t
      → (t.config ≡ cfg) × (add_zones w cfg.zones [] ≡ ok t.zones)
  unfolding new_translator
  new_translator-parts cfg t h = ground arith

  -- The translators of a new translator stand under their zones' names, each name once.
  pub new_translator-IsKeyed :
      (cfg : Config) (t : Translator)
      → new_translator w cfg ≡ ok t
      → Distinct t.zones × IsKeyed t.zones
  new_translator-IsKeyed cfg t h =
      add_zones-Distinct cfg.zones [] t.zones (new_translator-parts cfg t h).1
        (unfold IsKeyed in (tt, tt))

  -- Every 4via6 zone has its translator.
  pub new_translator-found :
      (cfg : Config) (t : Translator) (name : Text) (z : Zone)
      → new_translator w cfg ≡ ok t
      → Distinct cfg.zones
      → lookup name cfg.zones ≡ some z
      → has_4via6 z ≡ true
      → (zt : ZoneTranslator) × (new_zone_translator w name z ≡ ok zt)
        × (lookup name t.zones ≡ some zt)
  new_translator-found cfg t name z h d at via =
      add_zones-found cfg.zones [] t.zones name z (new_translator-parts cfg t h).1 at via d

  -- And every translator is of a 4via6 zone.
  pub new_translator-origin :
      (cfg : Config) (t : Translator) (name : Text) (zt : ZoneTranslator)
      → new_translator w cfg ≡ ok t
      → Distinct cfg.zones
      → lookup name t.zones ≡ some zt
      → (z : Zone) × (lookup name cfg.zones ≡ some z)
        × (has_4via6 z ≡ true)
        × (new_zone_translator w name z ≡ ok zt)
  new_translator-origin cfg t name zt h d at = elim (Bool-cases (via6_at (lookup name cfg.zones))) [
    | inl via ↦ elim (Option-cases (lookup name cfg.zones)) [
      | inl e ↦ absurd (ground arith)
      | inr (z, e) ↦
          let via' : has_4via6 z ≡ true = ground arith in
          let (zt', made, at') = new_translator-found cfg t name z h d e via' in
          (z, e, via', ground arith)
    ]
    | inr plain ↦ absurd (
        absent at
          (add_zones-other cfg.zones [] t.zones name (new_translator-parts cfg t h).1 plain d))
  ]
    where
      absent : lookup name t.zones ≡ some zt → lookup name t.zones ≡ lookup name [] → ⊥
      absent p q = unfold lookup in cc (p, q)

  found_for :
      (cfg : Config) (t : Translator) (domain : Text) (z : ZoneRef)
      → new_translator w cfg ≡ ok t
      → Distinct cfg.zones
      → get_zone cfg domain ≡ some z
      → has_4via6 z.1 ≡ true
      → (zt : ZoneTranslator) × (find_translator z t.zones ≡ some zt)
        × (zt.zone_name ≡ z.0)
        × (zt.zone ≡ z.1)
  found_for cfg t domain z h d found via =
      let at : lookup z.0 cfg.zones ≡ some z.1 =
        lookup_of_In z.0 z.1 cfg.zones d (get_zone-In cfg domain z found) in
      let (zt, made, at') = new_translator-found cfg t z.0 z.1 h d at via in
      let (name, zone) = new_zone_translator-name z.0 z.1 zt made in
      (zt, find_translator-lookup z t.zones (new_translator-IsKeyed cfg t h).1 ∙ at', name, zone)

  -- A new translator for a configuration without repeated zone names has a zone translator for a
  -- domain exactly when `ShouldTranslate` says so.
  pub get_zone_for_domain-should_translate :
      (cfg : Config) (t : Translator) (domain : Text)
      → new_translator w cfg ≡ ok t
      → Distinct cfg.zones
      → has_translator (get_zone_for_domain t domain) ≡ should_translate t domain
  unfolding get_zone_for_domain should_translate
  get_zone_for_domain-should_translate cfg t domain h d =
      rw ((new_translator-parts cfg t h).0) (elim (Option-cases (get_zone cfg domain)) [
        | inl e ↦ rw e
        | inr (z, e) ↦ rw e (elim (Bool-cases (has_4via6 z.1)) [
          | inl via ↦ let (zt, is, name, zone) = found_for cfg t domain z h d e via in rw (via, is)
          | inr plain ↦ rw plain
        ])
      ])
