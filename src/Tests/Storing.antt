-- ===== src/Tests/Storing.antt =====
-- Tests and examples for the Kubernetes state store, on a cluster with one Secret.
use tsdnsreflector.Prelude.{
  ◌≡◌, refl, Text, Bool, true, false, Option, none, some, List, [], ◌∷◌, ◌++◌, Dict, lookup,
  Distinct, codes, arith, text_eq, if◌then◌else◌, insert, has_prefix, trim_prefix, ◌∙◌,
}
use mathlib.Core.Path.{subst}
use tsdnsreflector.Prelude.Maps.{copy_all, lookup-copy_all, copy_all-Distinct, or_else}
use tsdnsreflector.Prelude.Split.{trim_space}
use tsdnsreflector.Prelude.Result.{ok, err}
use tsdnsreflector.KubeStore.{
  Store, Client, Pod, empty_secret_name, invalid_format, read_state, write_state,
  get_current_namespace, new, new_from_config,
}
use tsdnsreflector.KubeStore.Restart.{
  Faithful, last_written, writes, new-last_written, write_state-replaces,
}

-- The Secret, if there is one, and whether the next `Get` fails.
abbrev pub Cluster : Type 0
Cluster = Option (Dict Text) × Bool

-- A `Secret` as a map: a later value of a key replaces an earlier one.
abbrev pub held : Option (Dict Text) → Option (Dict Text)
held none = none
held (some secret) = some (copy_all secret [])

abbrev pub get : Cluster → Cluster × Option (Dict Text)
get (secret, true) = ((secret, false), none)
get (secret, false) = ((secret, false), held secret)

abbrev pub client : Client Cluster
client = record {
  get = λ ns n k. get k;
  create = λ ns n value k. ((some value, k.1), true);
  update = λ ns n value k. ((some value, k.1), true);
}

abbrev value_of : Text → Option (Dict Text) → Option Text
value_of j none = none
value_of j (some value) = lookup j value

abbrev view : Text → Text → Cluster → Text → Option Text
view ns n k j = value_of j (held k.0)

get-view : (k : Cluster) (j : Text) → value_of j (held (get k).0.0) ≡ value_of j (held k.0)
get-view (secret, true) j = refl
get-view (secret, false) j = refl

get-held :
    (k : Cluster) (value : Dict Text)
    → (get k).1 ≡ some value
    → Distinct value × ((j : Text) → lookup j value ≡ value_of j (held k.0))
get-held (none, true) value e = absurd (ground arith)
get-held (none, false) value e = absurd (ground arith)
get-held (some secret, true) value e = absurd (ground arith)
get-held (some secret, false) value e =
    let same : copy_all secret [] ≡ value = ground arith in
    subst (λ v. Distinct v × ((j : Text) → lookup j v ≡ lookup j (copy_all secret []))) same
      (copy_all-Distinct secret [] tt, λ j. refl)

or_else-none : (o : Option Text) → or_else o none ≡ o
or_else-none none = refl
or_else-none (some v) = refl

lookup-held :
    (value : Dict Text) (j : Text)
    → Distinct value
    → value_of j (held (some value)) ≡ lookup j value
unfolding lookup
lookup-held value j d = lookup-copy_all j value [] d ∙ or_else-none (lookup j value)

client-Faithful : Faithful client view
client-Faithful = record {
  get_same = λ ns n k j. get-view k j;
  get_data = λ ns n k value e. get-held k value e;
  created = λ ns n value k j d fine. lookup-held value j d;
  updated = λ ns n value k j d fine. lookup-held value j d;
}

abbrev pub pod : Pod
pod = record { in_cluster = true; client_made = true; namespace_file = some (codes "dns") }

abbrev machine_key : Text
machine_key = codes "_machinekey"

abbrev profile : Text
profile = codes "profile"

abbrev store : Store
store = record { secret_name = codes "state"; namespace = codes "dns"; cache = [] }

abbrev kept_secret : Dict Text
kept_secret = (machine_key, codes "m1") ∷ []

test-new_from_config :
    new_from_config client pod (codes "kube:state") (some kept_secret, false)
    ≡ ok ((some kept_secret, false), record store { cache = kept_secret })
unfolding new_from_config has_prefix trim_prefix trim_space copy_all insert
test-new_from_config = refl

test-new_from_config_no_name :
    new_from_config client pod (codes "kube:") (some kept_secret, false) ≡ err empty_secret_name
unfolding new_from_config has_prefix trim_prefix
test-new_from_config_no_name = refl

test-new_from_config_invalid :
    new_from_config client pod (codes "state") (some kept_secret, false) ≡ err invalid_format
unfolding new_from_config has_prefix
test-new_from_config_invalid = refl

abbrev two_writes : List (Text × Text)
two_writes = (machine_key, codes "m2") ∷ (profile, codes "p1") ∷ []

-- The cluster and the store after a restart that follows the writes.
abbrev reopened : Cluster × Store
reopened = (
  (writes client two_writes profile (codes "p2") store (some kept_secret, false)).1,
  record store { cache = (machine_key, codes "m2") ∷ (profile, codes "p2") ∷ [] },
)

new-last_written_example :
    read_state machine_key reopened.1
    ≡ last_written machine_key
        (two_writes ++ (profile, codes "p2") ∷ [])
        (read_state machine_key store)
unfolding get_current_namespace trim_space write_state new copy_all insert text_eq
new-last_written_example =
    new-last_written client view client-Faithful two_writes profile (codes "p2") store
      (some kept_secret, false) pod reopened machine_key tt refl refl (λ e. ground arith) refl

-- A store that starts while `Get` fails.
abbrev started_empty : Cluster × Store
started_empty = ((some kept_secret, false), store)

write_state-replaces_example :
    view
      (codes "dns")
      (codes "state")
      (write_state client profile (codes "p1") started_empty.1 started_empty.0).1
      machine_key
    ≡ (if text_eq profile machine_key then some (codes "p1") else none)
unfolding get_current_namespace trim_space new write_state
write_state-replaces_example =
    write_state-replaces client view client-Faithful pod (codes "state") (codes "dns")
      (some kept_secret, true) started_empty profile (codes "p1") machine_key refl refl refl refl
