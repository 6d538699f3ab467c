-- ===== src/Config/Validate.antt =====
-- internal/config/zone_methods.go: `ValidateZones`; internal/config/duration.go. The standard
-- library's `time.ParseDuration` is the parameter `parse_duration`; `none` is its error.
pub mod Accepts
use tsdnsreflector.Prelude.{
  ℕ, Text, Bool, true, false, not, ◌&&◌, ◌||◌, ◌==◌, ◌*◌, Option, none, some, List, [], ◌∷◌, Dict,
  is_empty, if◌then◌else◌,
}
use tsdnsreflector.Prelude.Int.{ℤ, pos}
use tsdnsreflector.Prelude.Result.{Result, ok, err, guard, ◌>>=◌, ◌>>◌}
use tsdnsreflector.Config.{CacheConfig, Zone, Config, has_4via6}
use tsdnsreflector.Config.Defaults.{no_items}

pub data ZoneError : Type 0 where
  no_zones : ZoneError
  no_domains no_dns_servers bad_timeout zero_id : Text → ZoneError
  duplicate_id : ℕ → Text → Text → ZoneError
  needs_reflected_domain bad_cache_ttl external_on_4via6 : Text → ZoneError

-- The map `translateIDs` from the IDs met to the names of their zones.
abbrev pub Ids : Type 0
Ids = List (ℕ × Text)

unfoldable pub find_id : ℕ → Ids → Option Text
find_id id [] = none
find_id id ((j, name) ∷ ids) = if j == id then some name else find_id id ids

abbrev pub no_zone_at_all : Dict Zone → Bool
no_zone_at_all [] = true
no_zone_at_all (z ∷ zs) = false

abbrev pub parses : Option ℤ → Bool
parses none = false
parses (some d) = true

-- `id` is `*zone.TranslateID`.
unfoldable pub check_id : Text → Zone → Ids → ℕ → Result ZoneError Ids
check_id name z ids id = do
  guard (not (id == 0)) (zero_id name)
  ids' ← elim (find_id id ids) [
    | some existing ↦ err (duplicate_id id existing name)
    | none ↦ ok ((id, name) ∷ ids)
  ]
  guard (not (is_empty z.reflected_domain)) (needs_reflected_domain name)
  ok ids'

-- The block under `if zone.Has4via6()`.
unfoldable pub check_4via6 : Text → Zone → Ids → Option ℕ → Result ZoneError Ids
unfolding check_id
check_4via6 name z ids none = ok ids
check_4via6 name z ids (some id) = if id == 0 then ok ids else check_id name z ids id

module _ (parse_duration : Text → Option ℤ) where
  -- `ParseTimeout` and `ParseCacheTTL`: an empty text is 5 seconds and 5 minutes.
  unfoldable pub parse_timeout : Text → Option ℤ
  parse_timeout s = if is_empty s then some (pos (5 * 1000000000)) else parse_duration s

  unfoldable pub parse_cache_ttl : Text → Option ℤ
  parse_cache_ttl s = if is_empty s then some (pos (300 * 1000000000)) else parse_duration s

  abbrev pub empty_or_parses : Text → Bool
  empty_or_parses s = is_empty s || parses (parse_duration s)

  abbrev pub cache_ttl_parses : Option CacheConfig → Bool
  cache_ttl_parses none = true
  cache_ttl_parses (some c) = empty_or_parses c.ttl

  -- One round of the loop.
  unfoldable pub check_zone : Text → Zone → Ids → Result ZoneError Ids
  check_zone name z ids = do
    guard (not (no_items z.domains)) (no_domains name)
    guard (not (no_items z.backend.dns_servers)) (no_dns_servers name)
    guard (empty_or_parses z.backend.timeout) (bad_timeout name)
    ids' ← check_4via6 name z ids z.translate_id
    guard (cache_ttl_parses z.cache) (bad_cache_ttl name)
    guard (not (z.allow_external_clients && has_4via6 z)) (external_on_4via6 name)
    ok ids'

  unfoldable pub check_zones : Ids → Dict Zone → Result ZoneError Ids
  check_zones ids [] = ok ids
  check_zones ids ((name, z) ∷ zs) = do ids' ← check_zone name z ids; check_zones ids' zs

  unfoldable pub validate_zones : Config → Result ZoneError (Unit {0})
  validate_zones c = do
    guard (not (no_zone_at_all c.zones)) no_zones
    ids ← check_zones [] c.zones
    ok tt
