-- ===== src/Tests/Names.antt =====
-- Tests and examples for the configuration.
use tsdnsreflector.Prelude.{
  ◌≤◌, ◌≡◌, ◌↔◌, inl, inr, refl, Text, true, false, some, [], ◌∷◌, codes, text_eq, has_prefix,
  has_suffix, All, In, length, arith,
}
use tsdnsreflector.Prelude.Int.{pos}
use tsdnsreflector.Prelude.Result.{Result, ok, err}
use tsdnsreflector.Config.{Config}
use tsdnsreflector.Config.Domain.{
  get_zone, matches_domain, with_dot, scan_zones, scan_domains, consider, matches_dotted,
}
use tsdnsreflector.Config.Domain.Match.{matches_domain-Covers, Covers}
use tsdnsreflector.Config.Domain.Select.{get_zone-longest, candidates, matched_length}
use tsdnsreflector.Config.Domain.Order.{get_zone-order, get_zone-tie, two_zones}
use tsdnsreflector.Config.Defaults.{
  set_defaults, DefaultsError, set_all_defaults, set_zone_defaults,
}
use tsdnsreflector.Config.Validate.{
  no_zone_at_all, validate_zones, duplicate_id, check_zones, check_zone, check_4via6, find_id,
}
use tsdnsreflector.Config.Validate.Accepts.{validate_zones_iff, DistinctIds, IsValidZone}
use tsdnsreflector.Tests.{config, corp, home, world, global}

abbrev host : Text
host = codes "db.corp.example."

get_zone_test : get_zone config host ≡ some corp
unfolding get_zone scan_zones scan_domains consider matches_domain matches_dotted has_prefix
    with_dot has_suffix
get_zone_test = refl

matches_domain_test : matches_domain (codes "badexample") (codes "example") ≡ false
unfolding matches_domain matches_dotted has_prefix with_dot has_suffix
matches_domain_test = refl

get_zone-longest_example :
    (p : Text) × In (corp, p) (candidates config.zones)
    × (matches_domain host p ≡ true)
    × All (λ y. matched_length host y.1 ≤ length p) (candidates config.zones)
get_zone-longest_example = get_zone-longest config host corp get_zone_test

get_zone-order_example : get_zone config host ≡ get_zone (two_zones global corp home) host
unfolding candidates matches_domain matches_dotted has_prefix with_dot has_suffix text_eq
get_zone-order_example =
    get_zone-order config (two_zones global corp home) host (inr (inl refl), (inl refl, tt))
      (inr (inl refl), (inl refl, tt))
      (
        (inl refl, (inr (inl (λ e. ground arith)), tt)),
        ((inr (inl (λ e. ground arith)), (inl refl, tt)), tt),
      )

get_zone-tie_example :
    (get_zone (two_zones global home (codes "twin", home.1)) host ≡ some home)
    × (get_zone (two_zones global (codes "twin", home.1) home) host ≡ some (codes "twin", home.1))
unfolding matches_domain matches_dotted has_prefix with_dot has_suffix
get_zone-tie_example =
    get_zone-tie global home (codes "twin", home.1) (codes "example") (codes "example") host refl
      refl refl refl refl

matches_domain-Covers_example :
    (matches_domain host (codes "*.corp.example") ≡ true)
    ↔ Covers (with_dot (codes "*.corp.example")) (with_dot host)
matches_domain-Covers_example = matches_domain-Covers host (codes "*.corp.example")

-- The configuration with the defaults filled in.
abbrev bare : Config
bare = record {
  global = record {
    backend = record { dns_servers = []; timeout = []; retries = pos 0 };
    cache = record { max_size = pos 0; ttl = [] };
  };
  zones =
      (
        codes "home",
        record home.1 { backend = record { dns_servers = []; timeout = []; retries = pos 0 } },
      )
      ∷ [];
}

abbrev config_of : Result DefaultsError Config → Config
config_of (ok c) = c
config_of (err e) = bare

abbrev filled : Config
unfolding set_defaults
filled = config_of (set_defaults bare)

bare-filled : set_defaults bare ≡ ok filled
unfolding set_defaults filled set_all_defaults set_zone_defaults
bare-filled = refl

validate_zones_iff_example : (validate_zones world.parse_duration config ≡ ok tt) ↔ (
    (no_zone_at_all config.zones ≡ false)
    × All (λ z. IsValidZone world.parse_duration z.1) config.zones
    × DistinctIds config.zones)
validate_zones_iff_example = validate_zones_iff world.parse_duration config

validate_zones_test :
    validate_zones world.parse_duration (two_zones global corp (codes "twin", corp.1))
    ≡ err (duplicate_id 5 (codes "corp") (codes "twin"))
unfolding validate_zones check_zones check_zone check_4via6 find_id
validate_zones_test = refl
