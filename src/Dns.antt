-- ===== src/Dns.antt =====
-- internal/dns/server.go: the DNS handler. What its calls change is the record `State`: the caches,
-- the memory monitor, the messages written to the client and the metrics recorded (both newest
-- first), and the counts of exchanges and of clock readings made so far. Logging is left out.
pub mod Client
pub mod Magic
pub mod Serve
pub mod Server
pub mod Startup
pub mod Http
pub mod Polling
pub mod Timeout
pub mod Kept
pub mod Steps
pub mod Hits
pub mod Forward
use tsdnsreflector.Prelude.{
  ℕ, suc, ◌+◌, Text, Bool, true, false, Option, none, some, List, [], ◌∷◌, Dict, lookup, insert,
  if◌then◌else◌, codes, is_empty, ◌*◌,
}
use tsdnsreflector.Prelude.Int.{ℤ, pos}
use tsdnsreflector.Config.{Config, BackendConfig}
use tsdnsreflector.Message.{Msg}
use tsdnsreflector.Cache
use tsdnsreflector.Cache.{ZoneCache}
use tsdnsreflector.Memory.{Monitor, update_cache_usage}
use tsdnsreflector.Via6.{Translator, some_or}
use tsdnsreflector.World.{World}

pub data Event : Type 0 where
  dns_query : Text → Text → Event
  cache_hit cache_miss via6_translation via6_error : Text → Event
  cache_size : Text → ℕ → Event
  backend_query backend_error : Text → Text → Event
  external_blocked external_allowed : Text → Event

pub record State : Type 0 where
  pub caches : Dict ZoneCache
  pub monitor : Monitor
  pub written : List Msg
  pub events : List Event
  pub asked : ℕ
  pub readings : ℕ

-- `tsnet` tells whether there is a TSNet server.
pub record Forwarder : Type 0 where
  pub backends : List Text
  pub timeout : ℤ
  pub retries : ℤ
  pub tsnet : Bool

-- The fields of `TailscaleDNSHandler` that its calls read; the caches and the monitor are in
-- `State`.
pub record Handler : Type 0 where
  pub config : Config
  pub default_ttl : ℕ
  pub via6_trans : Translator
  pub forwarder : Forwarder
  pub tsnet : Bool

unfoldable pub write_msg : Msg → State → State
write_msg m s = record s { written = m ∷ s.written }

unfoldable pub record_event : Event → State → State
record_event e s = record s { events = e ∷ s.events }

module _ (w : World) where
  -- `parseTimeout`, the forwarder's own.
  unfoldable pub parse_timeout : Text → ℤ
  parse_timeout timeout_str =
      if is_empty timeout_str
      then pos (5 * 1000000000)
      else some_or (w.parse_duration timeout_str) (pos (5 * 1000000000))

  -- `NewForwarder` and `NewForwarderWithTSNet`
  unfoldable pub new_forwarder : Bool → BackendConfig → Forwarder
  new_forwarder tsnet b = record {
    backends = b.dns_servers;
    timeout = parse_timeout b.timeout;
    retries = b.retries;
    tsnet = tsnet;
  }

  -- `zoneCache.Set` on the cache `c` of the zone, and the gauge of its size.
  unfoldable pub store_in : Text → Text → Msg → ZoneCache → State → State
  unfolding record_event
  store_in zone_name key m c s =
      let c' = Cache.set w.dns (w.clock s.readings) (w.clock (suc s.readings)) key m c in
      record_event (cache_size zone_name (Cache.size c'))
        (record s { caches = insert zone_name c' s.caches; readings = s.readings + 2 })

  abbrev pub store_found : Option ZoneCache → Text → Text → Msg → State → State
  store_found none zone_name key m s = s
  store_found (some c) zone_name key m s = store_in zone_name key m c s

  -- Storing a response in the zone's cache, if the zone has one.
  unfoldable pub store_response : Text → Text → Msg → State → State
  unfolding store_in
  store_response zone_name key m s = store_found (lookup zone_name s.caches) zone_name key m s
