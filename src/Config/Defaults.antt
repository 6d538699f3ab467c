-- ===== src/Config/Defaults.antt =====
-- internal/config/config.go: `setDefaults` and `setZoneDefaults`. The structs are changed in place
-- there; here the new configuration is returned. `Load` drops the configuration on an error.
pub mod Filled
use tsdnsreflector.Prelude.{
  ℕ, Text, Bool, true, false, not, ◌&&◌, ◌==◌, Option, none, some, List, [], ◌∷◌, Dict, codes,
  is_empty, if◌then◌else◌,
}
use tsdnsreflector.Prelude.Int.{ℤ, pos, is_zero, is_positive}
use tsdnsreflector.Prelude.Result.{Result, ok, err, guard, ◌>>=◌, ◌>>◌}
use tsdnsreflector.Config.{BackendConfig, CacheConfig, GlobalConfig, Zone, Config}

pub data DefaultsError : Type 0 where
  zone_name_required : DefaultsError
  needs_domain zero_translate_id : Text → DefaultsError
  failed_for_zone : Text → DefaultsError → DefaultsError

abbrev pub no_items : List Text → Bool
no_items [] = true
no_items (x ∷ xs) = false

abbrev pub or_servers : List Text → List Text → List Text
or_servers xs d = if no_items xs then d else xs

abbrev pub or_text : Text → Text → Text
or_text s d = if is_empty s then d else s

abbrev pub or_int : ℤ → ℤ → ℤ
or_int n d = if is_zero n then d else n

-- The inheritance of each field of a backend: an empty field takes the default's value.
unfoldable pub inherit : BackendConfig → BackendConfig → BackendConfig
inherit b d = record {
  dns_servers = or_servers b.dns_servers d.dns_servers;
  timeout = or_text b.timeout d.timeout;
  retries = or_int b.retries d.retries;
}

abbrev pub built_in_backend : BackendConfig
built_in_backend = record {
  dns_servers = codes "8.8.8.8:53" ∷ codes "1.1.1.1:53" ∷ [];
  timeout = codes "5s";
  retries = pos 3;
}

unfoldable pub set_global_defaults : GlobalConfig → GlobalConfig
unfolding inherit
set_global_defaults g = record {
  backend = inherit g.backend built_in_backend;
  cache = record {
    max_size = or_int g.cache.max_size (pos 10000);
    ttl = or_text g.cache.ttl (codes "300s");
  };
}

abbrev pub default_prefix : Text
default_prefix = codes "fd7a:115c:a1e0:b1a::/64"

abbrev pub or_prefix : Option ℕ → Text → Text
or_prefix none s = s
or_prefix (some id) s = or_text s default_prefix

abbrev pub not_zero_id : Option ℕ → Bool
not_zero_id none = true
not_zero_id (some id) = not (id == 0)

abbrev pub or_cache : Option CacheConfig → CacheConfig → Option CacheConfig
or_cache (some c) g = some c
or_cache none g =
    if is_positive g.max_size then some (record { max_size = g.max_size; ttl = g.ttl }) else none

unfoldable pub set_zone_defaults : GlobalConfig → Text → Zone → Result DefaultsError Zone
unfolding inherit
set_zone_defaults g name z = do
  guard (not (is_empty name)) zone_name_required
  guard (not (no_items z.domains)) (needs_domain name)
  guard (not_zero_id z.translate_id) (zero_translate_id name)
  ok (record z {
    backend = inherit z.backend g.backend;
    prefix_subnet = or_prefix z.translate_id z.prefix_subnet;
    cache = or_cache z.cache g.cache;
  })

abbrev pub wrap_zone : {A : Type 0} → Text → Result DefaultsError A → Result DefaultsError A
wrap_zone name (ok a) = ok a
wrap_zone name (err e) = err (failed_for_zone name e)

-- The loop over the zones.
unfoldable pub set_all_defaults : GlobalConfig → Dict Zone → Result DefaultsError (Dict Zone)
set_all_defaults g [] = ok []
set_all_defaults g ((name, z) ∷ zs) = do
  z' ← wrap_zone name (set_zone_defaults g name z)
  zs' ← set_all_defaults g zs
  ok ((name, z') ∷ zs')

unfoldable pub set_defaults : Config → Result DefaultsError Config
set_defaults c = do
  let g = set_global_defaults c.global
  zs ← set_all_defaults g c.zones
  ok (record { global = g; zones = zs })
