-- ===== src/Config/Validate/Accepts.antt =====
-- Exactly which configurations `ValidateZones` accepts.
use tsdnsreflector.Prelude.{
  ℕ, Text, true, false, ◌==◌, ◌≡◌, ◌≢◌, ◌↔◌, ◌⊎◌, inl, inr, Option, none, some, [], ◌∷◌, Dict,
  is_empty, refl, All, arith, Bool-cases, Option-cases, if◌then◌else◌,
}
use mathlib.Core.Path.{subst}
use tsdnsreflector.Prelude.Int.{ℤ}
use tsdnsreflector.Prelude.Result.{ok, Result-cases}
use tsdnsreflector.Config.{Zone, Config, has_4via6, id_set}
use tsdnsreflector.Config.Defaults.{no_items}
use tsdnsreflector.Config.Validate.{
  Ids, find_id, check_4via6, check_zone, check_zones, validate_zones, no_zone_at_all,
  cache_ttl_parses, empty_or_parses,
}

-- Two zones may stand side by side: the first has no translate ID, or another one than the second.
abbrev pub Apart : Option ℕ → Option ℕ → Type 0
Apart a b = (id_set a ≡ false) ⊎ (a ≢ b)

abbrev pub DistinctIds : Dict Zone → Type 0
DistinctIds [] = Unit
DistinctIds (z ∷ zs) = All (λ w. Apart w.1.translate_id z.1.translate_id) zs × DistinctIds zs

abbrev Unused : Ids → Option ℕ → Type 0
Unused ids t = All (λ e. Apart t (some e.0)) ids

module _ (parse_duration : Text → Option ℤ) where
  pub record IsValidZone (z : Zone) : Type 0 where
    pub has_domains : no_items z.domains ≡ false
    pub has_servers : no_items z.backend.dns_servers ≡ false
    pub timeout_parses : empty_or_parses parse_duration z.backend.timeout ≡ true
    pub reflects : (has_4via6 z ≡ false) ⊎ (is_empty z.reflected_domain ≡ false)
    pub ttl_parses : cache_ttl_parses parse_duration z.cache ≡ true
    pub closed : (has_4via6 z ≡ false) ⊎ (z.allow_external_clients ≡ false)

find_id-Unused : (id : ℕ) (ids : Ids) → find_id id ids ≡ none → Unused ids (some id)
unfolding find_id
find_id-Unused id [] h = tt
find_id-Unused id ((j, n) ∷ ids) h = ground (arith, find_id-Unused id ids)

Unused-find_id :
    (id : ℕ) (ids : Ids) → (id == 0) ≡ false → Unused ids (some id) → find_id id ids ≡ none
unfolding find_id
Unused-find_id id [] z h = refl
Unused-find_id id ((j, n) ∷ ids) z h = ground (arith, Unused-find_id id ids z)

unset-Unused : (ids : Ids) (t : Option ℕ) → id_set t ≡ false → Unused ids t
unset-Unused [] t h = tt
unset-Unused (e ∷ ids) t h = (inl h, unset-Unused ids t h)

-- The IDs after a round that accepted the zone.
abbrev add_id : Text → Option ℕ → Ids → Ids
add_id name none ids = ids
add_id name (some id) ids = if id == 0 then ids else (id, name) ∷ ids

module _ (name : Text) (z : Zone) (ids : Ids) where
  check_4via6-accepts :
      (t : Option ℕ) (ids' : Ids)
      → check_4via6 name z ids t ≡ ok ids'
      → ((id_set t ≡ false) ⊎ (is_empty z.reflected_domain ≡ false))
        × Unused ids t
        × (ids' ≡ add_id name t ids)
  unfolding check_4via6
  check_4via6-accepts none ids' h = (inl refl, unset-Unused ids none refl, ground arith)
  check_4via6-accepts (some id) ids' h = elim (Bool-cases (id == 0)) [
    | inl nil ↦ (inl (rw nil), unset-Unused ids (some id) (rw nil), ground arith)
    | inr set ↦ elim (Option-cases (find_id id ids)) [
      | inl e ↦ (inr (ground arith), find_id-Unused id ids e, ground arith)
      | inr (n, e) ↦ absurd (ground arith)
    ]
  ]

  accepts-check_4via6 :
      (t : Option ℕ)
      → (id_set t ≡ false) ⊎ (is_empty z.reflected_domain ≡ false)
      → Unused ids t
      → check_4via6 name z ids t ≡ ok (add_id name t ids)
  unfolding check_4via6
  accepts-check_4via6 none v u = refl
  accepts-check_4via6 (some id) v u = elim (Bool-cases (id == 0)) [
    | inl nil ↦ ground arith
    | inr set ↦ ground (arith, Unused-find_id id ids set u)
  ]

module _ (pd : Text → Option ℤ) (name : Text) (z : Zone) (ids : Ids) where
  check_zone-accepts :
      (ids' : Ids)
      → check_zone pd name z ids ≡ ok ids'
      → IsValidZone pd z × Unused ids z.translate_id × (ids' ≡ add_id name z.translate_id ids)
  unfolding check_zone
  check_zone-accepts ids' h = ground (arith, check_4via6-accepts name z ids z.translate_id ids')

  accepts-check_zone :
      IsValidZone pd z
      → Unused ids z.translate_id
      → check_zone pd name z ids ≡ ok (add_id name z.translate_id ids)
  unfolding check_zone
  accepts-check_zone v u =
      ground (arith, accepts-check_4via6 name z ids z.translate_id v.reflects u)

-- Unused beside one more ID.
Unused-add :
    (name : Text) (t u : Option ℕ) (ids : Ids)
    → Unused ids u
    → Apart u t
    → Unused (add_id name t ids) u
Unused-add name t u ids h a = ground arith

Unused-add_inv :
    (name : Text) (t u : Option ℕ) (ids : Ids)
    → Unused (add_id name t ids) u
    → Unused ids u × Apart u t
Unused-add_inv name t u ids h = ground arith

abbrev AllUnused : Ids → Dict Zone → Type 0
AllUnused ids zs = All (λ w. Unused ids w.1.translate_id) zs

AllUnused-add :
    (name : Text) (t : Option ℕ) (ids : Ids) (zs : Dict Zone)
    → AllUnused ids zs
    → All (λ w. Apart w.1.translate_id t) zs
    → AllUnused (add_id name t ids) zs
AllUnused-add name t ids [] h a = tt
AllUnused-add name t ids (w ∷ zs) h a =
    (Unused-add name t w.1.translate_id ids h.0 a.0, AllUnused-add name t ids zs h.1 a.1)

AllUnused-add_inv :
    (name : Text) (t : Option ℕ) (ids : Ids) (zs : Dict Zone)
    → AllUnused (add_id name t ids) zs
    → AllUnused ids zs × All (λ w. Apart w.1.translate_id t) zs
AllUnused-add_inv name t ids [] h = (tt, tt)
AllUnused-add_inv name t ids (w ∷ zs) h =
    let (u, a) = Unused-add_inv name t w.1.translate_id ids h.0 in
    let (us, as') = AllUnused-add_inv name t ids zs h.1 in ((u, us), (a, as'))

module _ (pd : Text → Option ℤ) where
  check_zones-accepts :
      (ids : Ids) (zs : Dict Zone) (ids' : Ids)
      → check_zones pd ids zs ≡ ok ids'
      → All (λ w. IsValidZone pd w.1) zs × AllUnused ids zs × DistinctIds zs
  unfolding check_zones
  check_zones-accepts ids [] ids' h = (tt, tt, tt)
  check_zones-accepts ids ((name, z) ∷ zs) ids' h = elim (Result-cases (check_zone pd name z ids)) [
    | inl (one, e) ↦
        let (v, u, is) = check_zone-accepts pd name z ids one e in
        let (vs, us, ds) = check_zones-accepts one zs ids' (ground arith) in
        let (us', apart) =
          AllUnused-add_inv name z.translate_id ids zs (subst (λ i. AllUnused i zs) is us) in
        ((v, vs), (u, us'), (apart, ds))
    | inr (x, e) ↦ absurd (ground arith)
  ]

  accepts-check_zones :
      (ids : Ids) (zs : Dict Zone)
      → All (λ w. IsValidZone pd w.1) zs
      → AllUnused ids zs
      → DistinctIds zs
      → (ids' : Ids) × (check_zones pd ids zs ≡ ok ids')
  unfolding check_zones
  accepts-check_zones ids [] vs us ds = (ids, refl)
  accepts-check_zones ids ((name, z) ∷ zs) vs us ds =
      rw (accepts-check_zone pd name z ids vs.0 us.0) (
        accepts-check_zones (add_id name z.translate_id ids) zs vs.1
          (AllUnused-add name z.translate_id ids zs us.1 ds.0) ds.1)

  none_used : (zs : Dict Zone) → AllUnused [] zs
  none_used [] = tt
  none_used (w ∷ zs) = (tt, none_used zs)

  -- `ValidateZones` accepts a configuration exactly when it has a zone, every zone is valid by
  -- itself, and no two zones have one translate ID other than 0.
  pub validate_zones_iff :
      (c : Config)
      → (validate_zones pd c ≡ ok tt) ↔ (
          (no_zone_at_all c.zones ≡ false)
          × All (λ w. IsValidZone pd w.1) c.zones
          × DistinctIds c.zones)
  unfolding validate_zones
  validate_zones_iff c = (sound, complete)
    where
      sound :
          validate_zones pd c ≡ ok tt
          → (no_zone_at_all c.zones ≡ false)
            × All (λ w. IsValidZone pd w.1) c.zones
            × DistinctIds c.zones
      sound h = elim (Result-cases (check_zones pd [] c.zones)) [
        | inl (ids, e) ↦
            let (vs, us, ds) = check_zones-accepts [] c.zones ids e in (ground arith, vs, ds)
        | inr (x, e) ↦ absurd (ground arith)
      ]

      complete :
          (no_zone_at_all c.zones ≡ false)
            × All (λ w. IsValidZone pd w.1) c.zones
            × DistinctIds c.zones
          → validate_zones pd c ≡ ok tt
      complete (some_zone, vs, ds) =
          let (ids, e) = accepts-check_zones [] c.zones vs (none_used c.zones) ds in ground arith
