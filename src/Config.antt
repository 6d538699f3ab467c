-- ===== src/Config.antt =====
-- internal/config/config.go: the configuration as its structs. A `*Zone` is an entry of `zones`:
-- each key has a Zone object of its own, so pointers are compared by key. `nil` is `none`.
pub mod Domain
pub mod Defaults
pub mod Validate
pub mod Runtime
pub mod Load
use tsdnsreflector.Prelude.{
  ℕ, Text, Dict, Bool, true, false, Option, none, some, List, is_empty, not,
}
use tsdnsreflector.Prelude.{◌==◌}
use tsdnsreflector.Prelude.Int.{ℤ}

pub record BackendConfig : Type 0 where
  pub dns_servers : List Text
  pub timeout : Text
  pub retries : ℤ

pub record CacheConfig : Type 0 where
  pub max_size : ℤ
  pub ttl : Text

pub record GlobalConfig : Type 0 where
  pub backend : BackendConfig
  pub cache : CacheConfig

pub record Zone : Type 0 where
  pub domains : List Text
  pub backend : BackendConfig
  pub reflected_domain : Text
  pub translate_id : Option ℕ
  pub prefix_subnet : Text
  pub cache : Option CacheConfig
  pub allow_external_clients : Bool

pub record Config : Type 0 where
  pub global : GlobalConfig
  pub zones : Dict Zone

-- A zone with its key: what a `*Zone` points to.
abbrev pub ZoneRef : Type 0
ZoneRef = Text × Zone

abbrev pub id_set : Option ℕ → Bool
id_set none = false
id_set (some id) = not (id == 0)

-- `Zone.Has4via6`
abbrev pub has_4via6 : Zone → Bool
has_4via6 z = id_set z.translate_id

-- `Zone.HasReflection`
abbrev pub has_reflection : Zone → Bool
has_reflection z = not (is_empty z.reflected_domain)
