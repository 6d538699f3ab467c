-- ===== src/Tests/Living.antt =====
-- Tests and examples for the life of a server: loading, queries, reloads and ticks.
use tsdnsreflector.Address.{is_4via6_prefix}
use tsdnsreflector.Config.Validate.{
  validate_zones, check_zones, check_zone, check_4via6, find_id, parse_cache_ttl,
}
use tsdnsreflector.Config.Defaults.{
  set_defaults, set_all_defaults, set_zone_defaults, set_global_defaults,
}
use tsdnsreflector.Prelude.{
  ◌≡◌, ◌≤◌, lookup, Distinct, refl, Text, false, Option, none, some, [], ◌∷◌, codes, has_prefix,
  insert, text_eq,
}
use tsdnsreflector.Prelude.Int.{pos}
use tsdnsreflector.Prelude.Result.{Result, ok, err}
use tsdnsreflector.Config.{Zone, Config}
use tsdnsreflector.Config.Load.{Decoder, load, not_read}
use tsdnsreflector.Via6.{Translator, new_translator, Via6Error, add_zones, new_zone_translator}
use tsdnsreflector.Cache.{ZoneCache, size, new_zone_cache_with_name}
use tsdnsreflector.Memory.{new_monitor}
use tsdnsreflector.Dns.{State, new_forwarder, parse_timeout}
use tsdnsreflector.Dns.Server.{register_zones, memory_limits, Server, new_server}
use tsdnsreflector.Tests.Serving
use tsdnsreflector.Dns.Steps.Counters.{Reachable-IsSafe}
use tsdnsreflector.Memory.Limits.{IsSafe}
use tsdnsreflector.Metrics.{value, new_registry}
use tsdnsreflector.Metrics.Counts.{observe_all}
use tsdnsreflector.Metrics.Backends.{Reachable-backend_errors}
use tsdnsreflector.Dns.Serve.Writes.{serve_dns-Wrote}
use tsdnsreflector.Dns.Forward.Writes.{Wrote}
use tsdnsreflector.Dns.Serve.{serve_dns}
use tsdnsreflector.Message.{type_a}
use tsdnsreflector.Command.{reload_configuration}
use tsdnsreflector.Dns.Kept.Instances.{AllCaches}
use tsdnsreflector.Dns.Steps.{Reachable, query, reload, made, after}
use tsdnsreflector.Dns.Steps.Runs.{IsRun}
use tsdnsreflector.Dns.Steps.Caches.{Reachable-IsRun, Reachable-size}
use tsdnsreflector.Dns.Steps.Sound.{IsSound, Reachable-IsSound}
use tsdnsreflector.Cache.Capacity.{limit}
use tsdnsreflector.Tests.{tailnet, home, corp, config, world}

-- A file is the configuration of the tests, and a file that cannot be read is an error.
abbrev pub decoder : Decoder
decoder = record { standardized = λ t. some t; unmarshal = λ t. some config }

abbrev pub file : Option Text
file = some (codes "zones")

abbrev with_cache : Zone → Zone
with_cache z = record z { cache = some config.global.cache }

abbrev pub loaded_config : Config
loaded_config = record config {
  zones = (codes "home", with_cache home.1) ∷ (codes "corp", with_cache corp.1) ∷ [];
}

load-loaded_config : load world.parse_duration decoder file ≡ ok loaded_config
unfolding load set_defaults set_all_defaults set_zone_defaults validate_zones check_zones check_zone
    check_4via6 set_global_defaults find_id
load-loaded_config = refl

load-unread : load world.parse_duration decoder none ≡ err not_read
unfolding load
load-unread = refl

abbrev new_state : State
new_state = record {
  caches =
      (codes "home", new_zone_cache_with_name (pos 10) (pos 5000000000) (codes "home"))
      ∷ (codes "corp", new_zone_cache_with_name (pos 10) (pos 5000000000) (codes "corp"))
      ∷ [];
  monitor = register_zones world 0 loaded_config.zones (new_monitor memory_limits);
  written = [];
  events = [];
  asked = 0;
  readings = 2;
}

abbrev translator_or : Result Via6Error Translator → Translator
translator_or (ok t) = t
translator_or (err e) = record { zones = []; config = loaded_config }

abbrev pub new_one : Server
new_one = record {
  handler = record {
    config = loaded_config;
    default_ttl = 300;
    via6_trans = translator_or (new_translator world loaded_config);
    forwarder = Serving.forwarder;
    tsnet = false;
  };
  tsnet = false;
  state = new_state;
}

new_server-new_one : new_server world 300 false loaded_config ≡ ok new_one
unfolding new_server new_translator add_zones load set_defaults set_all_defaults set_zone_defaults
    validate_zones check_zones check_zone check_4via6 set_global_defaults find_id
    new_zone_translator is_4via6_prefix has_prefix new_forwarder insert parse_timeout text_eq
    parse_cache_ttl
new_server-new_one = refl

-- A query of the new server, a reload of the file, one of no file, and a check of the memory.
served :
    (s : State) × (serve_dns world new_one.handler tailnet Serving.web new_one.state ≡ some s)
    × Wrote new_one.state s
served =
    serve_dns-Wrote world new_one.handler tailnet Serving.web
      (record { name = codes "web.example."; qtype = type_a }) [] new_one.state refl

abbrev after_query : Server
after_query = record new_one { state = served.0 }

abbrev after_reload : Server
after_reload = (reload_configuration world decoder file after_query).0

abbrev lived : Server
lived = (reload_configuration world decoder none after_reload).0

lived-reached : Reachable world decoder lived
lived-reached =
    after
      (after
        (after (made file loaded_config 300 false load-loaded_config new_server-new_one)
          (query tailnet Serving.web served.0 served.1))
        (reload file))
      (reload none)

Reachable-IsRun_example : AllCaches (IsRun world.dns) lived.state.caches
Reachable-IsRun_example = Reachable-IsRun world decoder lived lived-reached

Reachable-IsSound_example : IsSound world lived
Reachable-IsSound_example = Reachable-IsSound world decoder lived lived-reached

-- The cache of the zone home in the new server.
abbrev home_cache : ZoneCache
home_cache = new_zone_cache_with_name (pos 10) (pos 5000000000) (codes "home")

Reachable-size_example : (size home_cache ≤ limit home_cache.max_size) × Distinct home_cache.entries
unfolding lookup text_eq
Reachable-size_example =
    Reachable-size world decoder new_one (codes "home") home_cache
      (made file loaded_config 300 false load-loaded_config new_server-new_one) refl

Reachable-IsSafe_example : IsSafe memory_limits lived.state.monitor
Reachable-IsSafe_example = Reachable-IsSafe world decoder lived lived-reached

Reachable-backend_errors_example :
    value
      (codes "home" ∷ codes "10.0.0.1:53" ∷ [])
      (observe_all lived.state.events new_registry).backend_errors
    ≤ value
        (codes "home" ∷ codes "10.0.0.1:53" ∷ [])
        (observe_all lived.state.events new_registry).backend_queries
Reachable-backend_errors_example =
    Reachable-backend_errors world decoder lived (codes "home") (codes "10.0.0.1:53") lived-reached
