-- ===== src/Config/Runtime/Precedence.antt =====
-- The default TTL after the flags and the environment are read.
use tsdnsreflector.Prelude.{ℕ, ◌%◌, ◌^◌, ◌<◌, ◌≡◌, refl, Option, none, some, codes, arith}
use tsdnsreflector.Config.Runtime.Values.{
  Env, getenv, or_default, below, decimal, parse_uint32, default_uint32,
}
use tsdnsreflector.Config.Runtime.{
  Flags, ttl_of_flag, new_runtime_config, parse, setup_env_only_values,
}

-- The flag's value, modulo 2 ^ 32, or else the variable's, if it is a decimal number below 2 ^ 32,
-- or else 300.
abbrev pub ttl_of : Option ℕ → Option ℕ → ℕ
ttl_of (some n) variable = n % 2 ^ 32
ttl_of none variable = or_default variable 300

below-or_default : (o : Option ℕ) → or_default (below (2 ^ 32) o) 300 < 2 ^ 32
below-or_default none = omega arith
below-or_default (some n) = ground arith

ttl_of-fits : (given o : Option ℕ) → ttl_of given (below (2 ^ 32) o) < 2 ^ 32
ttl_of-fits (some n) o = omega arith
ttl_of-fits none o = below-or_default o

ttl_of_flag-parse :
    (given o : Option ℕ) (d : ℕ)
    → ttl_of_flag (some (or_default given (or_default (below (2 ^ 32) o) 300))) d
      ≡ ttl_of given (below (2 ^ 32) o)
ttl_of_flag-parse (some n) o d = refl
ttl_of_flag-parse none o d = omega (arith, below-or_default o)

-- The default TTL is the flag's value modulo 2 ^ 32, or without the flag that of the environment's
-- TSDNS_DEFAULT_TTL, if it is a decimal number below 2 ^ 32, or else 300. It fits 32 bits.
pub setup_env_only_values-default_ttl :
    (env : Env) (flags : Flags)
    → ((setup_env_only_values env (parse flags (new_runtime_config env))).default_ttl
        ≡ ttl_of flags.default_ttl (parse_uint32 (getenv env (codes "TSDNS_DEFAULT_TTL"))))
      × ((setup_env_only_values env (parse flags (new_runtime_config env))).default_ttl < 2 ^ 32)
unfolding setup_env_only_values parse new_runtime_config default_uint32 parse_uint32
setup_env_only_values-default_ttl env flags =
    let read = decimal (getenv env (codes "TSDNS_DEFAULT_TTL")) in
    let same = ttl_of_flag-parse flags.default_ttl read (or_default (below (2 ^ 32) read) 300) in
    (same, rw same (ttl_of-fits flags.default_ttl read))
