-- ===== src/Config/Domain.antt =====
-- internal/config/zone_methods.go: `MatchesDomain` and `GetZone`.
pub mod Match
pub mod Select
pub mod Order
use tsdnsreflector.Prelude.{
  ℕ, Text, Bool, true, false, ◌||◌, Option, none, some, List, [], ◌∷◌, ◌++◌, Dict, has_suffix,
  has_prefix, text_eq, length, drop, ltb, if◌then◌else◌,
}
use tsdnsreflector.Config.{Zone, Config, ZoneRef}

abbrev pub dot : Text
dot = b'.' ∷ []

abbrev pub star_dot : Text
star_dot = b'*' ∷ b'.' ∷ []

-- `if !strings.HasSuffix(s, ".") { s += "." }`
unfoldable pub with_dot : Text → Text
with_dot s = if has_suffix s dot then s else s ++ dot

-- `MatchesDomain` after both names got their dots.
unfoldable pub matches_dotted : Text → Text → Bool
matches_dotted domain zone_domain =
    if has_prefix zone_domain star_dot
    then has_suffix domain (drop 1 zone_domain)
    else text_eq domain zone_domain || has_suffix domain (b'.' ∷ zone_domain)

unfoldable pub matches_domain : Text → Text → Bool
matches_domain domain zone_domain = matches_dotted (with_dot domain) (with_dot zone_domain)

-- The loop variables `bestMatch` and `bestMatchLength` of `GetZone`.
pub record Best : Type 0 where
  pub best_match : Option ZoneRef
  pub best_match_length : ℕ

abbrev pub is_none : Option ZoneRef → Bool
is_none none = true
is_none (some z) = false

-- The body of the inner loop.
unfoldable pub consider : Text → ZoneRef → Text → Best → Best
consider domain zone zone_domain b =
    if matches_domain domain zone_domain
    then (if is_none b.best_match || ltb b.best_match_length (length zone_domain)
        then record { best_match = some zone; best_match_length = length zone_domain }
        else b)
    else b

unfoldable pub scan_domains : Text → ZoneRef → List Text → Best → Best
scan_domains domain zone [] b = b
scan_domains domain zone (p ∷ ps) b = scan_domains domain zone ps (consider domain zone p b)

unfoldable pub scan_zones : Text → Dict Zone → Best → Best
scan_zones domain [] b = b
scan_zones domain (z ∷ zs) b = scan_zones domain zs (scan_domains domain z z.1.domains b)

unfoldable pub get_zone : Config → Text → Option ZoneRef
get_zone c domain =
    (scan_zones (with_dot domain) c.zones
      (record { best_match = none; best_match_length = 0 })).best_match
