-- ===== src/Tailscale.antt =====
-- internal/tailscale/tsnet.go: the TSNet server's construction, and the addresses that it reports.
-- `tsnet.Server` itself is a library's; its methods that the code only passes on are left out.
pub mod Auth
use tsdnsreflector.Prelude.{
  Text, Bool, true, false, Option, none, some, codes, is_empty, has_prefix, if◌then◌else◌, not,
}
use tsdnsreflector.Prelude.Split.{trim_space}
use tsdnsreflector.Prelude.Result.{Result, ok, err, ◌>>=◌}
use tsdnsreflector.Config.Runtime.Values.{getenv}
use tsdnsreflector.Config.Runtime.{TailscaleConfig}
use tsdnsreflector.KubeStore.{Store, Client, Pod, KubeError, new_from_config}
use tsdnsreflector.World.{Addr, v4, v6}
use tsdnsreflector.Address.{Ip}
use tsdnsreflector.Tailscale.Auth.{Outside, AuthError, resolve_auth_key}

-- What `NewTSNetServer` sets: the fields of the `tsnet.Server`, with `Store` if it is not nil.
pub record TsNetServer : Type 0 where
  pub hostname : Text
  pub auth_key : Text
  pub dir : Text
  pub store : Option Store

pub data StateError : Type 0 where
  state_store_skipped : StateError
  kube_failed : KubeError → StateError

-- `As Slice` of a valid address.
abbrev pub ip_of : Option Addr → Option Ip
ip_of none = none
ip_of (some (v4 ip)) = some ip
ip_of (some (v6 ip)) = some ip

-- `TailscaleIPs`, of the addresses that tsnet reports; `none` is an invalid one.
unfoldable pub tailscale_ips : Option Addr × Option Addr → Option Ip × Option Ip
tailscale_ips (ipv4, ipv6) = (ip_of ipv4, ip_of ipv6)

module _ (o : Outside) {K : Type 0} (client : Client K) (pod : Pod) where
  abbrev pub of_kube : Result KubeError (K × Store) → Result StateError (K × Store)
  of_kube (ok opened) = ok opened
  of_kube (err e) = err (kube_failed e)

  -- What `setupStateStore` does with a state that is not empty.
  abbrev pub open_state : Text → K → Result StateError (K × Store)
  open_state state k =
      if has_prefix state (codes "kube:")
      then of_kube (new_from_config client pod state k)
      else err state_store_skipped

  unfoldable pub setup_state_store : TailscaleConfig → K → Result StateError (K × Store)
  setup_state_store cfg k =
      if not (is_empty (getenv o.env (codes "TS_STATE")))
      then open_state (getenv o.env (codes "TS_STATE")) k
      else if not (is_empty (trim_space cfg.state_secret))
      then open_state (trim_space cfg.state_secret) k
      else err state_store_skipped

  -- After any error of `setupStateStore` TSNet keeps its files in `Dir`. An error comes before the
  -- first request to the cluster.
  abbrev pub with_store :
      TailscaleConfig → Text → K → Result StateError (K × Store) → K × TsNetServer
  with_store cfg auth_key k (ok (k', store)) = (
    k',
    record {
      hostname = cfg.hostname;
      auth_key = auth_key;
      dir = cfg.state_dir;
      store = some store;
    },
  )
  with_store cfg auth_key k (err e) = (
    k,
    record { hostname = cfg.hostname; auth_key = auth_key; dir = cfg.state_dir; store = none },
  )

  -- `NewTSNetServer`
  unfoldable pub new_tsnet_server : TailscaleConfig → K → Result AuthError (K × TsNetServer)
  unfolding setup_state_store
  new_tsnet_server cfg k = do
    auth_key ← resolve_auth_key o cfg
    ok (with_store cfg auth_key k (setup_state_store cfg k))
