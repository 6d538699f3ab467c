-- ===== src/Config/Load.antt =====
-- internal/config/config.go: `Load`. The file, the HuJSON parser with its conversion to JSON, and the
-- decoder of package encoding/json are parameters.
use tsdnsreflector.Prelude.{◌≡◌, refl, Text, Option, none, some, arith, All}
use mathlib.Core.Path.{subst}
use tsdnsreflector.Prelude.Int.{ℤ}
use tsdnsreflector.Prelude.Result.{Result, ok, err, ◌>>=◌, bind-ok}
use tsdnsreflector.Config.{Config}
use tsdnsreflector.Config.Defaults.{DefaultsError, set_defaults}
use tsdnsreflector.Config.Defaults.Filled.{IsFilledBackend, IsFilledZone, set_defaults-IsFilled}
use tsdnsreflector.Config.Validate.{ZoneError, validate_zones}

pub data LoadError : Type 0 where
  not_read not_hujson not_decoded : LoadError
  no_defaults : DefaultsError → LoadError
  not_valid : ZoneError → LoadError

-- `hujson.Parse` with `Standardize` and `Pack`, and `json.Unmarshal` into a `Config`; `none` is an
-- error.
pub record Decoder : Type 0 where
  pub standardized : Text → Option Text
  pub unmarshal : Text → Option Config

abbrev pub or_fail : {A : Type 0} → LoadError → Option A → Result LoadError A
or_fail e none = err e
or_fail e (some a) = ok a

abbrev pub defaulted : Result DefaultsError Config → Result LoadError Config
defaulted (err e) = err (no_defaults e)
defaulted (ok cfg) = ok cfg

abbrev pub validated : Config → Result ZoneError (Unit {0}) → Result LoadError Config
validated cfg (err e) = err (not_valid e)
validated cfg (ok valid) = ok cfg

defaulted-ok : (r : Result DefaultsError Config) (cfg : Config) → defaulted r ≡ ok cfg → r ≡ ok cfg
defaulted-ok (ok c) cfg h = ground arith
defaulted-ok (err e) cfg h = absurd (ground arith)

validated-ok :
    (cfg : Config) (r : Result ZoneError (Unit {0})) (cfg' : Config)
    → validated cfg r ≡ ok cfg'
    → (r ≡ ok tt) × (cfg ≡ cfg')
validated-ok cfg (ok valid) cfg' h = (refl, ground arith)
validated-ok cfg (err e) cfg' h = absurd (ground arith)

module _ (parse_duration : Text → Option ℤ) where
  -- A configuration that has its defaults and is valid.
  pub record IsLoaded (cfg : Config) : Type 0 where
    pub backend : IsFilledBackend cfg.global.backend
    pub zones : All (λ z. IsFilledZone z.0 z.1) cfg.zones
    pub valid : validate_zones parse_duration cfg ≡ ok tt

  -- `Load`, of what `os.ReadFile` gives for the file.
  unfoldable pub load : Decoder → Option Text → Result LoadError Config
  load d file = do
    bytes ← or_fail not_read file
    standardized ← or_fail not_hujson (d.standardized bytes)
    decoded ← or_fail not_decoded (d.unmarshal standardized)
    cfg ← defaulted (set_defaults decoded)
    validated cfg (validate_zones parse_duration cfg)

  pub load-IsLoaded :
      (d : Decoder) (file : Option Text) (cfg : Config) → load d file ≡ ok cfg → IsLoaded cfg
  unfolding load
  load-IsLoaded d file cfg h =
      let (bytes, e1, h1) = bind-ok (or_fail not_read file) _ cfg h in
      let (standardized, e2, h2) = bind-ok (or_fail not_hujson (d.standardized bytes)) _ cfg h1 in
      let (decoded, e3, h3) = bind-ok (or_fail not_decoded (d.unmarshal standardized)) _ cfg h2 in
      let (cfg', e4, h4) = bind-ok (defaulted (set_defaults decoded)) _ cfg h3 in
      let (valid, same) = validated-ok cfg' (validate_zones parse_duration cfg') cfg h4 in
      let (backend, zones) =
        set_defaults-IsFilled decoded cfg' (defaulted-ok (set_defaults decoded) cfg' e4) in
      subst IsLoaded same (record { backend = backend; zones = zones; valid = valid })
