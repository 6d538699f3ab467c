-- ===== src/Lib.antt =====
-- tsdnsreflector, a DNS server for Tailscale networks: it answers queries of 4via6 zones with
-- addresses that stand for IPv4 hosts of another site, resolves MagicDNS names, and forwards other
-- queries to the backend servers of their zones, with a cache per zone.
--
-- Parts, and where they are modelled:
--   Prelude        texts (Go strings as bytes), association lists (Go maps, in an order in which a
--                  `range` may meet the keys), 64-bit words, signed integers, results
--   Config         internal/config/config.go: the configuration. Config.Domain models GetZone and
--                  MatchesDomain (zone_methods.go), Config.Defaults models setDefaults, Config.Validate
--                  models ValidateZones and duration.go, Config.Load the reading of the file, and
--                  Config.Runtime the settings of runtime.go, from flags and the environment
--   Message        DNS messages and the interface `DnsLib` of github.com/miekg/dns
--   World          all that is called and not part of the repository: the DNS package, the network,
--                  the clock, the standard library's parsers, Tailscale's status
--   Cache          internal/cache/cache.go: a zone's cache. Cache.Calls are the sequences of its
--                  mutating calls, in the order of the mutex; Cache.History and
--                  Cache.Complete compare a cache with what was last set in it
--   Address, Via6  internal/4via6/translator.go: the bytes of 4via6 addresses, and the translator
--   Memory         internal/memory/monitor.go: the memory monitor
--   KubeStore      internal/kubestore/store.go: TSNet's state in a Kubernetes Secret
--   Tailscale      internal/tailscale/tsnet.go: the TSNet server's auth key and state store
--   Dns            internal/dns/server.go: the handler's state and stores. Dns.Client models
--                  getClientIP and isTailscaleClient, Dns.Forward the forwarder, Dns.Magic the
--                  MagicDNS answers, Dns.Serve models ServeDNS and handleZoneQuery. Dns.Server has the
--                  state that NewServerWithRuntime makes, ReloadConfig and the stopping of the
--                  caches; Dns.Startup the rest of NewServerWithRuntime, Start and Stop; Dns.Http the
--                  HTTP handlers, Dns.Polling the polling of the Tailscale status; Dns.Timeout
--                  compares the readings of a timeout. Dns.Steps is
--                  the life of a server as a step relation. Dns.Hits is about what is stored in
--                  the caches; Dns.Kept takes a relation between the states before and after
--                  from the handler's steps to ServeDNS
--   Metrics        internal/metrics/metrics.go: the counters and gauges; Metrics.Counts makes
--                  calls of them from the handler's events
--   Logger         internal/logger/logger.go: levels, handlers and the lines of the text format
--   Command        cmd/tsdnsreflector/main.go: the program, its signals and the reload of the
--                  file. Command.Signals says independently what the signals come to, and
--                  Command.Follows what main comes to
--   Tests          tests by evaluation, and the theorems at concrete inputs
--
-- How they interact: ServeDNS finds the zone of the first question (Config.Domain), looks each
-- question up in the zone's cache (Cache), translates names of 4via6 zones for clients in the tailnet
-- (Via6), answers MagicDNS names, refuses clients outside the tailnet unless the zone allows them, and
-- forwards the rest, storing the response in the zone's cache. A method that changes state is a
-- function from a state to a state; a Go error is the `err` of a Result or a `none`, a panic is `none`.
--
-- main reads the settings and the file, makes the server, starts it and handles signals; each SIGHUP
-- reads the file anew. The events of Dns.Steps (a query, a reload, the hand-over in Start, a tick of a
-- cache or of the monitor) are taken one after another, in any order.
--
-- Bounds: every loop of the program runs over a list or up to a count (the retries, the ten calls of
-- the wait for an address), so the models are structural recursions without fuel. The cache's byte
-- count wraps at 2 ^ 64. Exchanges, dials and readings of the clock are numbered, and each may be
-- answered in any way.
--
-- Not modelled: what the other parts log, sockets and the loops that serve them, and
-- internal/4via6/test_helper.go, which is for Go tests. All but the last are input and output, or
-- calls of other packages. A message and the cache never share memory in the model: the code copies
-- at both ends.
pub mod Prelude
pub mod Config
pub mod Message
pub mod Cache
pub mod Address
pub mod World
pub mod Via6
pub mod KubeStore
pub mod Memory
pub mod Tailscale
pub mod Dns
pub mod Metrics
pub mod Logger
pub mod Command
pub mod Tests
