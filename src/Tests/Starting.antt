-- ===== src/Tests/Starting.antt =====
-- Tests and examples for the settings, the auth key and the start of the program.
use tsdnsreflector.Tailscale.{tailscale_ips}
use tsdnsreflector.Prelude.{
  insert, has_prefix, ℕ, zero, suc, ◌<◌, ◌^◌, ◌≡◌, refl, Text, true, false, Option, none, some, [],
  ◌∷◌, ◌++◌, codes, lookup, text_eq, if◌then◌else◌, Bool, List, not, ◌==◌,
}
use tsdnsreflector.Prelude.Int.{negsuc, pos}
use tsdnsreflector.Prelude.Result.{err}
use tsdnsreflector.Prelude.Split.{without-Without, Without, split, trim_space}
use tsdnsreflector.Config.Runtime.Values.{Env, atoi, parse_uint32, getenv}
use tsdnsreflector.Config.Runtime.{
  RuntimeConfig, Flags, new_runtime_config, parse, setup_env_only_values, to_tailscale_config,
}
use tsdnsreflector.Config.Runtime.Precedence.{ttl_of, setup_env_only_values-default_ttl}
use tsdnsreflector.World.{Addr, v4, World}
use tsdnsreflector.Tailscale.Auth.{
  Outside, created, resolve_auth_key, generate_auth_key_from_oauth_secret, client_id_failed,
  read_failed,
}
use tsdnsreflector.Tailscale.Auth.Secret.{
  secret_text, request_for, generate_auth_key_from_oauth_secret-query,
}
use tsdnsreflector.Dns.Startup.{Network, wait_for_ips, new_server_with_runtime}
use tsdnsreflector.Dns.Startup.Waiting.{Waits, wait_for_ips-Waits}
use tsdnsreflector.Dns.Startup.Standalone.{with_oauth, new_server_with_runtime-with_oauth}
use tsdnsreflector.Dns.Http.{handle_http}
use tsdnsreflector.Dns.Polling.{Polling, update_tailscale_metrics, tick}
use tsdnsreflector.Dns.{cache_hit}
use tsdnsreflector.Config.Load.{load}
use tsdnsreflector.Config.Defaults.{
  set_defaults, set_all_defaults, set_zone_defaults, set_global_defaults,
}
use tsdnsreflector.Config.Validate.{validate_zones, check_zones, check_zone, check_4via6}
use tsdnsreflector.Config.Validate
use tsdnsreflector.Dns.Server.{
  new_server, stop_caches, make_caches, reload_config, apply_config, reload_caches,
}
use tsdnsreflector.Via6.{new_translator, add_zones, new_zone_translator}
use tsdnsreflector.Address.{is_4via6_prefix}
use tsdnsreflector.Dns.Startup.{start, stop}
use tsdnsreflector.Cache
use tsdnsreflector.Cache.{new_zone_cache, new_zone_cache_with_name}
use tsdnsreflector.Command.{handle_signals, reload_configuration}
use tsdnsreflector.Logger.{Attr, Record, json, stdout, new, zone_log, default}
use tsdnsreflector.Metrics.{
  Registry, new_registry, value, record_cache_hit, inc, labels_eq, update_tailscale_status,
}
use tsdnsreflector.Metrics.Counts.{observe_all}
use tsdnsreflector.Command.{hangup, main, Exit, Signal, interrupt}
use tsdnsreflector.Command.{ran, stopped, interrupt, Signal, Exit}
use tsdnsreflector.Tests.Storing.{client, pod, Cluster}
use tsdnsreflector.Tests.Living.{decoder, file, loaded_config}
use tsdnsreflector.Tests.{world, tailnet_ip}

test-atoi : atoi (codes "-17") ≡ some (negsuc 16)
unfolding atoi
test-atoi = refl

test-atoi_bad : atoi (codes "5s") ≡ none
unfolding atoi
test-atoi_bad = refl

test-parse_uint32 : parse_uint32 (codes "4294967296") ≡ none
unfolding parse_uint32
test-parse_uint32 = refl

test-trim_space : trim_space (codes "\t key \n") ≡ codes "key"
unfolding trim_space
test-trim_space = refl

test-split : split b',' (codes "tag:a,,tag:b") ≡ codes "tag:a" ∷ [] ∷ codes "tag:b" ∷ []
unfolding split
test-split = refl

abbrev env : Env
env = (codes "TSDNS_DEFAULT_TTL", codes "60") ∷ (codes "CLIENT_ID_FILE", codes "/id") ∷ []

abbrev no_flags : Flags
no_flags = record {
  hostname = none;
  dns_port = none;
  http_port = none;
  bind_address = none;
  default_ttl = none;
  health = none;
  health_path = none;
  metrics = none;
  metrics_path = none;
  log_level = none;
  log_format = none;
  log_queries = none;
  log_file = none;
}

-- A TTL of 2 ^ 32 + 5 as a flag.
abbrev large_ttl : Flags
large_ttl = record no_flags { default_ttl = some 4294967301 }

abbrev runtime : Flags → RuntimeConfig
runtime flags = setup_env_only_values env (parse flags (new_runtime_config env))

test-environment_ttl : (runtime no_flags).default_ttl ≡ 60
unfolding setup_env_only_values parse new_runtime_config lookup text_eq
test-environment_ttl = refl

test-wrapped_ttl : (runtime large_ttl).default_ttl ≡ 5
unfolding setup_env_only_values parse new_runtime_config
test-wrapped_ttl = refl

setup_env_only_values-default_ttl_example :
    ((runtime large_ttl).default_ttl
      ≡ ttl_of (some 4294967301) (parse_uint32 (getenv env (codes "TSDNS_DEFAULT_TTL"))))
    × ((runtime large_ttl).default_ttl < 2 ^ 32)
setup_env_only_values-default_ttl_example = setup_env_only_values-default_ttl env large_ttl

-- The query has a value for the tags only.
abbrev values : Text → Text
values name = if text_eq name (codes "tags") then codes "tag:a,tag:b" else []

abbrev outside_world : Outside
outside_world = record {
  env = env;
  read_file = λ t. none;
  parse_query = λ t. some values;
  create_key = λ r. some (codes "tskey-auth-1");
}

test-resolve_auth_key :
    resolve_auth_key outside_world (to_tailscale_config (runtime no_flags))
    ≡ err (client_id_failed (read_failed (codes "/id")))
unfolding resolve_auth_key to_tailscale_config setup_env_only_values lookup text_eq
test-resolve_auth_key = refl

secret-Without : Without b'?' (secret_text (codes "k1") (codes "s9"))
secret-Without = without-Without b'?' (secret_text (codes "k1") (codes "s9")) refl

query-Without : Without b'?' (codes "tags=tag:a,tag:b")
query-Without = without-Without b'?' (codes "tags=tag:a,tag:b") refl

generate_auth_key_from_oauth_secret-query_example :
    generate_auth_key_from_oauth_secret outside_world
      (secret_text (codes "k1") (codes "s9") ++ b'?' ∷ codes "tags=tag:a,tag:b")
    ≡ created (
        outside_world.create_key
          (request_for (codes "k1") (secret_text (codes "k1") (codes "s9")) values))
generate_auth_key_from_oauth_secret-query_example =
    generate_auth_key_from_oauth_secret-query outside_world b'k' (codes "1") (codes "s9")
      (refl, (refl, tt)) (codes "tags=tag:a,tag:b") values secret-Without query-Without refl

-- The third call is the first that reports an address.
abbrev reported : ℕ → Option Addr × Option Addr
reported zero = (none, none)
reported (suc zero) = (none, none)
reported (suc (suc n)) = (some (v4 tailnet_ip), none)

abbrev network : Network
network = record { starts = true; ips = reported; listens = λ a. true }

test-wait_for_ips : wait_for_ips network 10 0 ≡ (some (some tailnet_ip, none), 2)
unfolding wait_for_ips tailscale_ips
test-wait_for_ips = refl

wait_for_ips-Waits_example : Waits network 9 0 (wait_for_ips network 10 0)
wait_for_ips-Waits_example = wait_for_ips-Waits network 9 0

abbrev cluster : Cluster
cluster = (none, false)

new_server_with_runtime-with_oauth_example :
    new_server_with_runtime world outside_world client pod loaded_config
      (with_oauth [] [] (codes "id") (codes "secret") (runtime no_flags))
      cluster
    ≡ new_server_with_runtime world outside_world client pod loaded_config
        (runtime no_flags)
        cluster
new_server_with_runtime-with_oauth_example =
    new_server_with_runtime-with_oauth world outside_world client pod [] [] (codes "id")
      (codes "secret") loaded_config (runtime no_flags) cluster

-- A reload that fails, one that does not, and the end.
abbrev sent : List Signal
sent = hangup none ∷ hangup file ∷ interrupt ∷ hangup none ∷ []

abbrev exit : Exit
exit = main world decoder outside_world client pod network no_flags false file sent cluster

abbrev is_stopped : Exit → Bool
is_stopped (ran metrics (stopped r)) = true
is_stopped _ = false

main_test : is_stopped exit ≡ true
unfolding main load set_defaults set_all_defaults set_zone_defaults validate_zones check_zones
    check_zone check_4via6 set_global_defaults Validate.find_id new_server_with_runtime new_server
    new_translator add_zones new_zone_translator is_4via6_prefix has_prefix to_tailscale_config
    setup_env_only_values parse new_runtime_config text_eq lookup start stop stop_caches Cache.stop
    make_caches new_zone_cache_with_name insert handle_signals reload_configuration reload_config
    apply_config reload_caches new_zone_cache
main_test = refl

-- The path of the metrics is redirected to itself.
test-metrics_redirect :
    handle_http
      (record {
        address = (codes "0.0.0.0", pos 8080);
        health = some (codes "/health");
        metrics = some (codes "/metrics");
      })
      (codes "/metrics")
    ≡ some (record {
      status = 301;
      headers = (codes "Location", codes "/metrics") ∷ [];
      body = codes "Metrics available at /metrics\n";
    })
unfolding handle_http text_eq
test-metrics_redirect = refl

abbrev opens : Text → Bool
opens name = false

test-logger :
    new opens (record {
      level = codes "WARNING";
      format = codes "Json";
      log_queries = false;
      log_file = codes "/l";
    })
    ≡ record { handler = json []; level = pos 4; output = stdout }
unfolding new
test-logger = refl

abbrev render : List Attr → Record → Text
render kept r = []

test-zone_log :
    zone_log render (pos 0) (codes "home") (codes "now") (codes "hit") [] (default opens)
    ≡ codes "now tsdnsreflector: hit zone=home\n"
unfolding zone_log default
test-zone_log = refl

abbrev registry : Registry
registry = observe_all (cache_hit (codes "home") ∷ cache_hit (codes "home") ∷ []) new_registry

test-record_cache_hit : value (codes "home" ∷ codes "hit" ∷ []) registry.cache_operations ≡ 2
unfolding value observe_all record_cache_hit inc new_registry labels_eq text_eq
test-record_cache_hit = refl

-- The second call of `LocalClient` fails.
abbrev polled_world : World
polled_world = record world {
  local_client = λ n. not (n == 1);
  status = λ n. some (record { self = none; peers = [] });
}

abbrev polling : Polling
polling = record { registry = new_registry; clients = 0; statuses = 0 }

abbrev status_after : ℕ → ℕ
status_after n = (update_tailscale_metrics polled_world true n polling).registry.tailscale_status

test-polling : (status_after 1 ≡ 1) × (status_after 2 ≡ 0) × (status_after 3 ≡ 1)
unfolding update_tailscale_metrics tick update_tailscale_status
test-polling = (refl, refl, refl)
