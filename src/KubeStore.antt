-- ===== src/KubeStore.antt =====
-- internal/kubestore/store.go: TSNet's state, kept in a Kubernetes Secret and a copy in memory. The
-- mutex makes each access to the copy one step. The data of a Secret is a `Dict`.
pub mod Restart
use tsdnsreflector.Prelude.{
  Text, Bool, true, false, not, Option, none, some, List, [], ◌∷◌, Dict, lookup, insert, codes,
  is_empty, has_prefix, trim_prefix, if◌then◌else◌,
}
use tsdnsreflector.Prelude.Maps.{copy_all}
use tsdnsreflector.Prelude.Split.{trim_space}
use tsdnsreflector.Prelude.Result.{Result, ok, err, ◌>>=◌, ◌>>◌, guard}

pub data KubeError : Type 0 where
  no_in_cluster_config no_client no_namespace invalid_format empty_secret_name : KubeError

pub record Store : Type 0 where
  pub secret_name : Text
  pub namespace : Text
  pub cache : Dict Text

-- `kubernetes.Interface` over the state `K` of the cluster: `Get`, `Create` and `Update` of a Secret,
-- by namespace and name; `none` and `false` are errors. A request may change the state.
pub record Client (K : Type 0) : Type 0 where
  pub get : Text → Text → K → K × Option (Dict Text)
  pub create : Text → Text → Dict Text → K → K × Bool
  pub update : Text → Text → Dict Text → K → K × Bool

-- What the process finds around it: `rest.InClusterConfig` and `kubernetes.NewForConfig` succeed,
-- and the file of the namespace.
pub record Pod : Type 0 where
  pub in_cluster : Bool
  pub client_made : Bool
  pub namespace_file : Option Text

-- `getCurrentNamespace`
abbrev pub namespace_of : Option Text → Result KubeError Text
namespace_of none = err no_namespace
namespace_of (some bytes) = ok (trim_space bytes)

unfoldable pub get_current_namespace : Pod → Result KubeError Text
get_current_namespace pod = namespace_of pod.namespace_file

-- `ReadState`: `none` is `ipn.ErrStateNotExist`.
unfoldable pub read_state : Text → Store → Option Text
read_state key s = lookup key s.cache

module _ {K : Type 0} (client : Client K) where
  -- `loadFromSecret`, which returns nil also when `Get` fails.
  abbrev pub loaded : Option (Dict Text) → Store → Store
  loaded none s = s
  loaded (some value) s = record s { cache = copy_all value s.cache }

  unfoldable pub load_from_secret : Store → K → K × Store
  load_from_secret s k =
      let (k', secret) = client.get s.namespace s.secret_name k in (k', loaded secret s)

  -- The data that `updateSecret` sends.
  abbrev pub secret_data : Dict Text → Store → Dict Text
  secret_data updates s = copy_all updates (copy_all s.cache [])

  abbrev pub create_or_update : Option (Dict Text) → Dict Text → Store → K → K × Bool
  create_or_update none value s k = client.create s.namespace s.secret_name value k
  create_or_update (some old) value s k = client.update s.namespace s.secret_name value k

  unfoldable pub update_secret : Dict Text → Store → K → K × Bool
  update_secret updates s k =
      let (k', secret) = client.get s.namespace s.secret_name k in
      create_or_update secret (secret_data updates s) s k'

  -- `WriteState`: the store, the cluster, and whether it returned nil.
  unfoldable pub write_state : Text → Text → Store → K → Store × K × Bool
  unfolding update_secret
  write_state key value s k =
      let s' = record s { cache = insert key value s.cache } in
      let (k', fine) = update_secret ((key, value) ∷ []) s' k in (s', k', fine)

  -- The store of `New`, in a namespace.
  unfoldable pub open_store : Text → K → Text → K × Store
  unfolding load_from_secret
  open_store secret_name k namespace =
      load_from_secret (record { secret_name = secret_name; namespace = namespace; cache = [] }) k

  unfoldable pub new : Pod → Text → K → Result KubeError (K × Store)
  unfolding open_store get_current_namespace
  new pod secret_name k = do
    guard pod.in_cluster no_in_cluster_config
    guard pod.client_made no_client
    namespace ← get_current_namespace pod
    ok (open_store secret_name k namespace)

  unfoldable pub new_from_config : Pod → Text → K → Result KubeError (K × Store)
  unfolding new
  new_from_config pod state_config k = do
    guard (has_prefix state_config (codes "kube:")) invalid_format
    let secret_name = trim_prefix state_config (codes "kube:")
    guard (not (is_empty secret_name)) empty_secret_name
    new pod secret_name k
