-- ===== src/Tests/Reloading.antt =====
-- Tests and examples for the server's reload and stop.
use tsdnsreflector.Address.{is_4via6_prefix}
use tsdnsreflector.Prelude.{
  ◌≡◌, ◌≢◌, ◌⊎◌, refl, true, false, none, some, [], ◌∷◌, Dict, lookup, codes, text_eq, has_prefix,
  arith,
}
use tsdnsreflector.Prelude.Int.{pos}
use tsdnsreflector.Prelude.Result.{ok}
use tsdnsreflector.Config.{Config}
use tsdnsreflector.Config.Validate.{validate_zones, check_zones, check_zone, check_4via6, find_id}
use tsdnsreflector.Cache.{ZoneCache, new_zone_cache_with_name, stop}
use tsdnsreflector.Via6.{new_translator, add_zones, new_zone_translator}
use tsdnsreflector.Dns.Server.{Server, reload_config, stop_caches}
use tsdnsreflector.Dns.Server.Reload.{of_zone, reload_config-caches, reload_config-cases}
use tsdnsreflector.Dns.Server.Stopping.{stop_caches-twice}
use tsdnsreflector.Tests.Serving.{handler, start}
use tsdnsreflector.Tests.{config, home, corp, world}

abbrev pub reload_server : Server
reload_server = record { handler = handler; tsnet = false; state = start }

abbrev new_config : Config
new_config = record config {
  zones =
      (codes "home", record home.1 { cache = some (record { max_size = pos 9; ttl = [] }) })
      ∷ corp
      ∷ [];
}

new_config-succeeds : (reload_config world new_config reload_server).1 ≡ none
unfolding reload_config validate_zones check_zones check_zone check_4via6 find_id new_translator
    add_zones new_zone_translator is_4via6_prefix has_prefix
new_config-succeeds = refl

reload_config-caches_example :
    lookup (codes "home") (reload_config world new_config reload_server).0.state.caches
    ≡ of_zone world new_config start.caches
        (codes "home")
        (lookup (codes "home") new_config.zones)
        none
unfolding lookup text_eq
reload_config-caches_example =
    reload_config-caches world new_config reload_server (codes "home") (refl, (refl, tt))
      new_config-succeeds

abbrev no_zones_config : Config
no_zones_config = record config { zones = [] }

reload_config-cases_example :
    (((reload_config world no_zones_config reload_server).1 ≢ none)
      × ((reload_config world no_zones_config reload_server).0 ≡ reload_server))
    ⊎ (((reload_config world no_zones_config reload_server).1 ≡ none)
        × (validate_zones world.parse_duration no_zones_config ≡ ok tt)
        × ((reload_config world no_zones_config reload_server).0.handler.config ≡ no_zones_config)
        × (new_translator world no_zones_config
            ≡ ok (reload_config world no_zones_config reload_server).0.handler.via6_trans))
reload_config-cases_example = reload_config-cases world no_zones_config reload_server

abbrev stopped_caches : Dict ZoneCache
stopped_caches =
    (
      codes "home",
      record (new_zone_cache_with_name (pos 2) (pos 10) (codes "home")) { stopped = true },
    )
    ∷ []

stop_caches-twice_example : stop_caches stopped_caches ≡ none
unfolding stop_caches stop new_zone_cache_with_name
stop_caches-twice_example = stop_caches-twice start.caches stopped_caches (λ e. ground arith) refl
