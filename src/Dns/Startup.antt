-- ===== src/Dns/Startup.antt =====
-- `NewServerWithRuntime` with its TSNet server and its listeners, `NewServer`, `Start` and `Stop`. An
-- address "host:port" is the pair of its host and port. Registering the HTTP paths with the
-- `ServeMux` is left out.
pub mod Waiting
pub mod Standalone
use tsdnsreflector.Prelude.{
  ℕ, zero, suc, Text, Bool, true, false, not, ◌||◌, Option, none, some, List, [], ◌∷◌, codes,
  if◌then◌else◌, is_empty, ◌++◌, Dict,
}
use tsdnsreflector.Prelude.Int.{ℤ, pos}
use tsdnsreflector.Prelude.Result.{Result, ok, err, ◌>>=◌}
use tsdnsreflector.Config.{Config}
use tsdnsreflector.Config.Runtime.{RuntimeConfig, TailscaleConfig, to_tailscale_config}
use tsdnsreflector.Via6.{Via6Error}
use tsdnsreflector.Address.{Ip}
use tsdnsreflector.KubeStore.{Client, Pod}
use tsdnsreflector.Tailscale.Auth.{Outside, AuthError}
use tsdnsreflector.Tailscale.{TsNetServer, new_tsnet_server, tailscale_ips}
use tsdnsreflector.World.{World, Addr}
use tsdnsreflector.Cache.{ZoneCache}
use tsdnsreflector.Dns.Server
use tsdnsreflector.Dns.Server.{Server, new_server, stop_caches}

-- A listener's host and port.
abbrev pub Address : Type 0
Address = Text × ℤ

-- The `http.Server`, with the paths of its handlers.
pub record HttpServer : Type 0 where
  pub address : Address
  pub health : Option Text
  pub metrics : Option Text

-- The server with what it listens on: `address` is that of the standalone mode.
pub record Program : Type 0 where
  pub server : Server
  pub tsnet : Option TsNetServer
  pub address : Option Address
  pub http : Option HttpServer

pub data StartupError : Type 0 where
  translator_failed : Via6Error → StartupError
  tsnet_failed : AuthError → StartupError

abbrev pub when : Bool → Text → Option Text
when enabled path = if enabled then some path else none

unfoldable pub http_server : RuntimeConfig → Option HttpServer
http_server rc =
    if rc.health_enabled || rc.metrics_enabled
    then some (record {
      address = (rc.bind_address, rc.http_port);
      health = when rc.health_enabled rc.health_path;
      metrics = when rc.metrics_enabled rc.metrics_path;
    })
    else none

abbrev pub translated : {A : Type 0} → Result Via6Error A → Result StartupError A
translated (ok a) = ok a
translated (err e) = err (translator_failed e)

abbrev pub connected : {A : Type 0} → Result AuthError A → Result StartupError A
connected (ok a) = ok a
connected (err e) = err (tsnet_failed e)

-- The settings of `NewServer`; its other fields have Go's zero values.
abbrev pub compatible : RuntimeConfig
compatible = record {
  hostname = codes "tsdnsreflector";
  dns_port = pos 53;
  http_port = pos 8080;
  bind_address = codes "0.0.0.0";
  default_ttl = 300;
  health_enabled = true;
  health_path = codes "/health";
  metrics_enabled = true;
  metrics_path = codes "/metrics";
  ts_auth_key = [];
  ts_state = [];
  ts_hostname = [];
  ts_state_dir = [];
  ts_exit_node = false;
  ts_auto_split_dns = false;
  ts_oauth_url = [];
  ts_oauth_tags = [];
  ts_oauth_ephemeral = false;
  ts_oauth_preauthorized = false;
  client_id_file = [];
  client_secret_file = [];
  ts_api_client_id = [];
  ts_api_client_secret = [];
  log_level = codes "info";
  log_format = codes "json";
  log_queries = false;
  log_file = [];
  default_ttl_flag = none;
}

module _ (w : World) (o : Outside) {K : Type 0} (client : Client K) (pod : Pod) where
  -- The TSNet server, if there is an auth key.
  abbrev pub tsnet_of : TailscaleConfig → K → Result AuthError (K × Option TsNetServer)
  tsnet_of cfg k =
      if is_empty cfg.auth_key
      then ok (k, none)
      else new_tsnet_server o client pod cfg k >>= λ made. ok (made.0, some made.1)

  -- `NewServerWithRuntime`
  unfoldable pub new_server_with_runtime :
      Config → RuntimeConfig → K → Result StartupError (K × Program)
  unfolding to_tailscale_config http_server
  new_server_with_runtime cfg rc k = do
    let ts = to_tailscale_config rc
    server ← translated (new_server w rc.default_ttl (not (is_empty ts.auth_key)) cfg)
    (k', tsnet) ← connected (tsnet_of ts k)
    ok (
      k',
      record {
        server = server;
        tsnet = tsnet;
        address = if is_empty ts.auth_key then some (rc.bind_address, rc.dns_port) else none;
        http = http_server rc;
      },
    )

  unfoldable pub default_server : Config → K → Result StartupError (K × Program)
  default_server cfg k = new_server_with_runtime cfg compatible k

-- What `Start` meets: `tsnet.Server.Start` succeeds, the addresses that its n-th call of
-- `TailscaleIPs` reports, and `ListenPacket` succeeds on an address.
pub record Network : Type 0 where
  pub starts : Bool
  pub ips : ℕ → Option Addr × Option Addr
  pub listens : Address → Bool

abbrev pub no_ip : Option Ip × Option Ip → Bool
no_ip (none, none) = true
no_ip _ = false

module _ (net : Network) where
  -- The loop that waits for an address, from call `i` with `left` calls to go, of which the last one
  -- gives up: the addresses, and the number of sleeps of two seconds.
  unfoldable pub wait_for_ips : ℕ → ℕ → Option (Option Ip × Option Ip) × ℕ
  wait_for_ips zero i = (none, 0)
  wait_for_ips (suc zero) i =
      let found = tailscale_ips (net.ips i) in if no_ip found then (none, 0) else (some found, 0)
  wait_for_ips (suc (suc left)) i =
      let found = tailscale_ips (net.ips i) in
      let (later, sleeps) = wait_for_ips (suc left) (suc i) in
      if no_ip found then (later, suc sleeps) else (some found, 0)

-- How `Start` goes on: with an error, or serving on these addresses: TSNet's, and the regular one.
pub data Started : Type 0 where
  start_failed no_addresses : Started
  bind_failed : Address → Started
  serving : (tailnet : Option Address) → (regular : Address) → Started

-- Whether the gauge of the Tailscale connection is set and the periodic memory check is started.
pub record Run : Type 0 where
  pub program : Program
  pub result : Started
  pub connected : Bool
  pub monitoring : Bool

abbrev pub not_waiting : Program → Started → Run
not_waiting p result = record {
  program = p;
  result = result;
  connected = false;
  monitoring = false;
}

abbrev pub own_address : Option Address → Address
own_address none = ([], pos 0)
own_address (some a) = a

module _ (w : World) (net : Network) where
  -- The host of the address on the tailnet: IPv4 first, IPv6 in brackets.
  abbrev pub tailnet_host : Option Ip × Option Ip → Text
  tailnet_host (some ip, other) = w.ip_text ip
  tailnet_host (none, some ip) = b'[' ∷ (w.ip_text ip ++ b']' ∷ [])
  tailnet_host (none, none) = []

  abbrev pub bound : RuntimeConfig → Program → Option Ip × Option Ip → Run
  bound rc p found =
      let at : Address = (tailnet_host found, rc.dns_port) in
      record {
        program = p;
        result =
            if net.listens at
            then serving (some at) (rc.bind_address, rc.dns_port)
            else bind_failed at;
        connected = true;
        monitoring = true;
      }

  abbrev pub waited : RuntimeConfig → Program → Option (Option Ip × Option Ip) → Run
  waited rc p none = record {
    program = p;
    result = no_addresses;
    connected = false;
    monitoring = false;
  }
  waited rc p (some found) = bound rc p found

  -- `Start`, up to the serving.
  unfoldable pub start : RuntimeConfig → Program → Run
  unfolding wait_for_ips
  start rc p =
      if not p.server.tsnet
      then not_waiting p (serving none (own_address p.address))
      else if not net.starts
      then not_waiting p start_failed
      else waited rc (record p { server = Server.start w p.server }) (wait_for_ips net 10 0).0

-- `Stop`: the second stop of a cache panics, `none`. The shutdowns of the listeners follow.
abbrev pub with_caches : Run → Option (Dict ZoneCache) → Option Run
with_caches r none = none
with_caches r (some caches) = some (record r {
  connected = false;
  program = record r.program {
    server = record r.program.server { state = record r.program.server.state { caches = caches } };
  };
})

unfoldable pub stop : Run → Option Run
stop r = with_caches r (stop_caches r.program.server.state.caches)
