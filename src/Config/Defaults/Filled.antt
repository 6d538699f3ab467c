-- ===== src/Config/Defaults/Filled.antt =====
-- What a configuration has after `setDefaults`, and that a second run changes nothing.
use tsdnsreflector.Prelude.{
  Text, true, false, ◌≡◌, ◌≢◌, ◌⊎◌, inl, inr, none, [], ◌∷◌, Dict, is_empty, All, arith,
}
use tsdnsreflector.Prelude.Int.{is_zero, is_positive}
use tsdnsreflector.Prelude.Result.{ok, Result-cases}
use tsdnsreflector.Config.{BackendConfig, GlobalConfig, Zone, Config}
use tsdnsreflector.Config.Defaults.{
  inherit, set_global_defaults, set_zone_defaults, set_all_defaults, set_defaults, no_items,
  not_zero_id,
}

pub record IsFilledBackend (b : BackendConfig) : Type 0 where
  pub has_servers : no_items b.dns_servers ≡ false
  pub has_timeout : is_empty b.timeout ≡ false
  pub has_retries : is_zero b.retries ≡ false

pub record IsFilledZone (name : Text) (z : Zone) : Type 0 where
  pub named : is_empty name ≡ false
  pub has_domains : no_items z.domains ≡ false
  pub usable_id : not_zero_id z.translate_id ≡ true
  pub has_prefix : (z.translate_id ≡ none) ⊎ (is_empty z.prefix_subnet ≡ false)
  pub backend : IsFilledBackend z.backend

inherit-IsFilled : (b d : BackendConfig) → IsFilledBackend d → IsFilledBackend (inherit b d)
unfolding inherit
inherit-IsFilled b d h = ground arith

set_global-IsFilled : (g : GlobalConfig) → IsFilledBackend (set_global_defaults g).backend
unfolding set_global_defaults
set_global-IsFilled g = ground arith

set_zone-IsFilled :
    (g : GlobalConfig) (name : Text) (z z' : Zone)
    → IsFilledBackend g.backend
    → set_zone_defaults g name z ≡ ok z'
    → IsFilledZone name z'
unfolding set_zone_defaults
set_zone-IsFilled g name z z' h e = ground (arith, inherit-IsFilled z.backend g.backend h)

-- Filled zones are left as they are.
IsSettled : GlobalConfig → Zone → Type 0
IsSettled g z = (z.cache ≢ none) ⊎ (is_positive g.cache.max_size ≡ false)

inherit_filled : (b d : BackendConfig) → IsFilledBackend b → inherit b d ≡ b
unfolding inherit
inherit_filled b d h = ground arith

set_zone_settled :
    (g : GlobalConfig) (name : Text) (z : Zone)
    → IsFilledZone name z
    → IsSettled g z
    → set_zone_defaults g name z ≡ ok z
unfolding set_zone_defaults IsSettled
set_zone_settled g name z h k = ground (arith, inherit_filled z.backend g.backend)

set_zone-IsSettled :
    (g : GlobalConfig) (name : Text) (z z' : Zone)
    → set_zone_defaults g name z ≡ ok z'
    → IsSettled g z'
unfolding set_zone_defaults IsSettled
set_zone-IsSettled g name z z' e = ground arith

set_global_idem :
    (g : GlobalConfig) → set_global_defaults (set_global_defaults g) ≡ set_global_defaults g
unfolding set_global_defaults
set_global_idem g = ground arith

module _ (g : GlobalConfig) where
  set_all-cons :
      (name : Text) (z : Zone) (zs ys : Dict Zone)
      → set_all_defaults g ((name, z) ∷ zs) ≡ ok ys
      → (z' : Zone) × (zs' : Dict Zone) × (set_zone_defaults g name z ≡ ok z')
        × (set_all_defaults g zs ≡ ok zs')
        × (ys ≡ (name, z') ∷ zs')
  unfolding set_all_defaults
  set_all-cons name z zs ys h = elim (Result-cases (set_zone_defaults g name z)) [
    | inl (z', e) ↦ elim (Result-cases (set_all_defaults g zs)) [
      | inl (zs', f) ↦ (z', zs', e, f, ground arith)
      | inr (x, f) ↦ absurd (ground arith)
    ]
    | inr (x, e) ↦ absurd (ground arith)
  ]

  set_all_defaults-IsFilledZone :
      (zs ys : Dict Zone)
      → IsFilledBackend g.backend
      → set_all_defaults g zs ≡ ok ys
      → All (λ z. IsFilledZone z.0 z.1) ys
  unfolding set_all_defaults
  set_all_defaults-IsFilledZone [] ys b h = ground arith
  set_all_defaults-IsFilledZone ((name, z) ∷ zs) ys b h =
      let (z', zs', e, f, is) = set_all-cons name z zs ys h in
      rw is (set_zone-IsFilled g name z z' b e, set_all_defaults-IsFilledZone zs zs' b f)

  set_all_again :
      (zs ys : Dict Zone)
      → IsFilledBackend g.backend
      → set_all_defaults g zs ≡ ok ys
      → set_all_defaults g ys ≡ ok ys
  unfolding set_all_defaults
  set_all_again [] ys b h = ground arith
  set_all_again ((name, z) ∷ zs) ys b h =
      let (z', zs', e, f, is) = set_all-cons name z zs ys h in
      let again : set_zone_defaults g name z' ≡ ok z' =
        set_zone_settled g name z' (set_zone-IsFilled g name z z' b e)
          (set_zone-IsSettled g name z z' e) in
      rw (is, again, set_all_again zs zs' b f)

set_defaults-parts :
    (c c' : Config)
    → set_defaults c ≡ ok c'
    → (c'.global ≡ set_global_defaults c.global)
      × (set_all_defaults (set_global_defaults c.global) c.zones ≡ ok c'.zones)
unfolding set_defaults
set_defaults-parts c c' h = ground arith

-- After `setDefaults` without an error the global backend and every zone's backend have servers, a
-- timeout and a retry count; every zone has a name, a domain, no translate ID 0, and a prefix
-- subnet if it has a translate ID.
pub set_defaults-IsFilled :
    (c c' : Config)
    → set_defaults c ≡ ok c'
    → IsFilledBackend c'.global.backend × All (λ z. IsFilledZone z.0 z.1) c'.zones
set_defaults-IsFilled c c' h =
    let (e, f) = set_defaults-parts c c' h in
    let b = set_global-IsFilled c.global in
    (rw e b, set_all_defaults-IsFilledZone (set_global_defaults c.global) c.zones c'.zones b f)

-- `setDefaults` on a configuration that it has produced returns that configuration.
pub set_defaults_idem : (c c' : Config) → set_defaults c ≡ ok c' → set_defaults c' ≡ ok c'
set_defaults_idem c c' h =
    let (e, f) = set_defaults-parts c c' h in
    let again =
      set_all_again (set_global_defaults c.global) c.zones c'.zones (set_global-IsFilled c.global)
        f in
    unfold set_defaults in ground (arith, again, set_global_idem c.global)
