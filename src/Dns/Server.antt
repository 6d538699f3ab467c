-- ===== src/Dns/Server.antt =====
-- `NewServerWithRuntime`, the first lines of `Start`, `Stop` of the caches, and `ReloadConfig`. The
-- server's own pointers to the configuration, the translator, the forwarder and the caches are
-- those of its handler, and are not kept twice.
pub mod Made
pub mod Reload
pub mod Stopping
pub mod Running
use tsdnsreflector.Prelude.{
  ℕ, suc, ◌*◌, Text, Bool, true, false, Option, none, some, [], ◌∷◌, Dict, lookup, insert,
  if◌then◌else◌, length,
}
use tsdnsreflector.Prelude.Int.{ℤ, pos, is_zero}
use tsdnsreflector.Prelude.Result.{Result, ok, err, ◌>>=◌}
use tsdnsreflector.Config.{Config, Zone, CacheConfig}
use tsdnsreflector.Config.Validate.{ZoneError, validate_zones, parse_cache_ttl}
use tsdnsreflector.Cache.{ZoneCache, new_zone_cache, new_zone_cache_with_name, stop}
use tsdnsreflector.Memory.{Monitor, GlobalLimits, new_monitor, register_zone}
use tsdnsreflector.Via6.{Via6Error, Translator, new_translator, some_or}
use tsdnsreflector.World.{World}
use tsdnsreflector.Dns.{Handler, State, new_forwarder}

-- `tsnet` tells whether the server has a TSNet server; the handler learns of it in `Start`.
pub record Server : Type 0 where
  pub handler : Handler
  pub tsnet : Bool
  pub state : State

pub data ReloadError : Type 0 where
  zone_validation_failed : ZoneError → ReloadError
  translator_failed : Via6Error → ReloadError

-- `maxSize` of a zone's cache.
abbrev pub cache_size_of : Config → CacheConfig → ℤ
cache_size_of cfg c = if is_zero c.max_size then cfg.global.cache.max_size else c.max_size

abbrev pub memory_limits : GlobalLimits
memory_limits = record {
  max_zone_count = pos 100;
  max_total_memory = 500 * 1024 * 1024;
  max_cache_per_zone = 50 * 1024 * 1024;
  max_buffer_per_zone = 10 * 1024 * 1024;
}

-- `Stop` on every cache; the second closing of a channel panics, `none`.
unfoldable pub stop_caches : Dict ZoneCache → Option (Dict ZoneCache)
stop_caches [] = some []
stop_caches ((name, c) ∷ cs) = elim (stop c) [
  | none ↦ none
  | some c' ↦ elim (stop_caches cs) [ none ↦ none | some cs' ↦ some ((name, c') ∷ cs') ]
]

module _ (w : World) where
  -- `ttl, _ := config.ParseCacheTTL(...)`: 0 on an error.
  abbrev pub cache_ttl : CacheConfig → ℤ
  cache_ttl c = some_or (parse_cache_ttl w.parse_duration c.ttl) (pos 0)

  -- What the loop over the zones puts into the new map for one zone, if it has a cache.
  abbrev pub add_cache : Config → Text → Option CacheConfig → Dict ZoneCache → Dict ZoneCache
  add_cache cfg name none caches = caches
  add_cache cfg name (some c) caches =
      insert name (new_zone_cache_with_name (cache_size_of cfg c) (cache_ttl c) name) caches

  unfoldable pub make_caches : Config → Dict Zone → Dict ZoneCache → Dict ZoneCache
  make_caches cfg [] caches = caches
  make_caches cfg ((name, z) ∷ zs) caches = make_caches cfg zs (add_cache cfg name z.cache caches)

  -- The errors of `RegisterZone` are logged only.
  unfoldable pub register_zones : ℕ → Dict Zone → Monitor → Monitor
  register_zones readings [] m = m
  register_zones readings ((name, z) ∷ zs) m =
      register_zones (suc readings) zs (register_zone (w.clock readings) name m).0

  -- `NewServerWithRuntime`, for the runtime's default TTL; `tsnet` is true if it has an auth key,
  -- and the TSNet server is then made without an error.
  unfoldable pub new_server : ℕ → Bool → Config → Result Via6Error Server
  unfolding make_caches register_zones
  new_server default_ttl tsnet cfg = do
    translator ← new_translator w cfg
    ok (record {
      handler = record {
        config = cfg;
        default_ttl = default_ttl;
        via6_trans = translator;
        forwarder = new_forwarder w false cfg.global.backend;
        tsnet = false;
      };
      tsnet = tsnet;
      state = record {
        caches = make_caches cfg cfg.zones [];
        monitor = register_zones 0 cfg.zones (new_monitor memory_limits);
        written = [];
        events = [];
        asked = 0;
        readings = length cfg.zones;
      };
    })

  -- The assignments to the handler at the head of `Start`.
  unfoldable pub start : Server → Server
  start s =
      if s.tsnet
      then record s {
        handler = record s.handler {
          tsnet = true;
          forwarder = record s.handler.forwarder { tsnet = true };
        };
      }
      else s

  abbrev pub reused : Config → Text → CacheConfig → Option ZoneCache → ZoneCache
  reused cfg name c none = new_zone_cache (cache_size_of cfg c) (cache_ttl c)
  reused cfg name c (some existing) = existing

  -- The same for a reload; `old` are the caches before it.
  abbrev pub reload_cache :
      Config → Dict ZoneCache → Text → Option CacheConfig → Dict ZoneCache → Dict ZoneCache
  reload_cache cfg old name none caches = caches
  reload_cache cfg old name (some c) caches =
      insert name (reused cfg name c (lookup name old)) caches

  unfoldable pub reload_caches :
      Config → Dict ZoneCache → Dict Zone → Dict ZoneCache → Dict ZoneCache
  reload_caches cfg old [] caches = caches
  reload_caches cfg old ((name, z) ∷ zs) caches =
      reload_caches cfg old zs (reload_cache cfg old name z.cache caches)

  -- After the validation and the new translator.
  unfoldable pub apply_config : Config → Translator → Server → Server
  unfolding reload_caches new_forwarder
  apply_config cfg translator s = record s {
    handler = record s.handler {
      config = cfg;
      via6_trans = translator;
      forwarder = new_forwarder w s.tsnet cfg.global.backend;
    };
    state = record s.state { caches = reload_caches cfg s.state.caches cfg.zones [] };
  }

  abbrev pub apply_translator :
      Config → Server → Result Via6Error Translator → Server × Option ReloadError
  apply_translator cfg s (err e) = (s, some (translator_failed e))
  apply_translator cfg s (ok translator) = (apply_config cfg translator s, none)

  abbrev pub apply_valid :
      Config → Server → Result ZoneError (Unit {0}) → Server × Option ReloadError
  apply_valid cfg s (err e) = (s, some (zone_validation_failed e))
  apply_valid cfg s (ok valid) = apply_translator cfg s (new_translator w cfg)

  -- `ReloadConfig`
  unfoldable pub reload_config : Config → Server → Server × Option ReloadError
  unfolding apply_config
  reload_config cfg s = apply_valid cfg s (validate_zones w.parse_duration cfg)
