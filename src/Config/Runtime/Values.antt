-- ===== src/Config/Runtime/Values.antt =====
-- internal/config/runtime.go: values read from the environment. `strconv`'s parsers read an ASCII
-- text; a number out of range is an error, as a text of another form is.
use tsdnsreflector.Prelude.{
  ℕ, ◌+◌, ◌-◌, ◌*◌, ◌^◌, Text, Bool, true, false, ◌&&◌, Option, none, some, List, [], ◌∷◌, Dict,
  ◌==◌, leb, ltb, lookup, codes, text_eq, if◌then◌else◌,
}
use tsdnsreflector.Prelude.Int.{ℤ, pos, sub_ℕ}

-- The environment: the variables that are set.
abbrev pub Env : Type 0
Env = Dict Text

-- `os.Getenv`
abbrev pub or_nothing : Option Text → Text
or_nothing none = []
or_nothing (some v) = v

unfoldable pub getenv : Env → Text → Text
getenv env name = or_nothing (lookup name env)

abbrev pub or_default {ℓ} : {A : Type ℓ} → Option A → A → A
or_default none d = d
or_default (some a) d = a

abbrev pub digit : ℕ → Option ℕ
digit c = if leb b'0' c && leb c b'9' then some (c - b'0') else none

-- The number that the digits write after those of `n`.
unfoldable pub digits_from : ℕ → Text → Option ℕ
digits_from n [] = some n
digits_from n (c ∷ s) = elim (digit c) [ none ↦ none | some d ↦ digits_from (n * 10 + d) s ]

unfoldable pub decimal : Text → Option ℕ
unfolding digits_from
decimal [] = none
decimal (c ∷ s) = digits_from 0 (c ∷ s)

abbrev pub below : ℕ → Option ℕ → Option ℕ
below bound none = none
below bound (some n) = if ltb n bound then some n else none

-- `strconv.ParseUint(v, 10, 32)`
unfoldable pub parse_uint32 : Text → Option ℕ
unfolding decimal
parse_uint32 v = below (2 ^ 32) (decimal v)

abbrev pub as_pos : Option ℕ → Option ℤ
as_pos none = none
as_pos (some n) = some (pos n)

abbrev pub as_neg : Option ℕ → Option ℤ
as_neg none = none
as_neg (some n) = some (sub_ℕ 0 n)

-- `strconv.Atoi`
unfoldable pub atoi : Text → Option ℤ
unfolding decimal
atoi [] = none
atoi (c ∷ s) =
    if c == b'-'
    then as_neg (below (2 ^ 63 + 1) (decimal s))
    else if c == b'+'
    then as_pos (below (2 ^ 63) (decimal s))
    else as_pos (below (2 ^ 63) (decimal (c ∷ s)))

abbrev pub one_of : List Text → Text → Bool
one_of [] v = false
one_of (t ∷ ts) v = if text_eq v t then true else one_of ts v

-- `strconv.ParseBool`
unfoldable pub parse_bool : Text → Option Bool
parse_bool v =
    if one_of (codes "1" ∷ codes "t" ∷ codes "T" ∷ codes "true" ∷ codes "TRUE" ∷ codes "True" ∷ [])
      v
    then some true
    else if one_of
        (codes "0" ∷ codes "f" ∷ codes "F" ∷ codes "false" ∷ codes "FALSE" ∷ codes "False" ∷ []) v
    then some false
    else none

unfoldable pub default_env : Env → Text → Text → Text
default_env env name d = or_default (lookup name env) d

unfoldable pub default_bool : Env → Text → Bool → Bool
unfolding getenv parse_bool
default_bool env name d = or_default (parse_bool (getenv env name)) d

unfoldable pub default_int : Env → Text → ℤ → ℤ
unfolding getenv atoi
default_int env name d = or_default (atoi (getenv env name)) d

-- A `uint32` is a number below 2 ^ 32.
unfoldable pub default_uint32 : Env → Text → ℕ → ℕ
unfolding getenv parse_uint32
default_uint32 env name d = or_default (parse_uint32 (getenv env name)) d
