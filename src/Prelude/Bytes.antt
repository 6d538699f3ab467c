-- ===== src/Prelude/Bytes.antt =====
-- Go strings as their bytes, with the functions of package strings that the program calls.
use Prim.Native.Char.{code}
use Prim.Native.Nat.{ℕ, ◌-◌}
use Prim.Native.String.{String}
use mathlib.Core.Path.{◌≡◌, refl, sym, ap, ◌∙◌}
use mathlib.Core.Logic.{◌↔◌}
use mathlib.Core.Bool.{Bool, true, false, ◌&&◌}
use mathlib.Core.List.{List, [], ◌∷◌, ◌++◌}
use native.Mathlib.Omega.{arith}
use tsdnsreflector.Prelude.Tests.{◌==◌, leb, if◌then◌else◌}
use tsdnsreflector.Prelude.Lists.{
  length, take, drop, take-append-drop, drop-append, take-append, length-append,
}

abbrev pub Text : Type 0
Text = List ℕ

-- The bytes of an ASCII literal. `String` has its own `[]` and `∷`.
abbrev pub codes : String → Text
codes String.[] = []
codes (String.◌∷◌ c s) = code c ∷ codes s

abbrev pub is_empty : Text → Bool
is_empty [] = true
is_empty (c ∷ s) = false

unfoldable pub text_eq : Text → Text → Bool
text_eq [] [] = true
text_eq (a ∷ s) (b ∷ t) = a == b && text_eq s t
text_eq _ _ = false

-- `strings.HasPrefix`
unfoldable pub has_prefix : Text → Text → Bool
has_prefix s [] = true
has_prefix [] (p ∷ ps) = false
has_prefix (c ∷ s) (p ∷ ps) = c == p && has_prefix s ps

-- `strings.HasSuffix`: `len(s) >= len(t) && s[len(s)-len(t):] == t`
unfoldable pub has_suffix : Text → Text → Bool
unfolding text_eq
has_suffix s t = leb (length t) (length s) && text_eq (drop (length s - length t) s) t

-- `strings.TrimPrefix` and `strings.TrimSuffix`
unfoldable pub trim_prefix : Text → Text → Text
trim_prefix s p = if has_prefix s p then drop (length p) s else s

unfoldable pub trim_suffix : Text → Text → Text
trim_suffix s t = if has_suffix s t then take (length s - length t) s else s

pub text_eq_refl : (s : Text) → text_eq s s ≡ true
unfolding text_eq
text_eq_refl [] = refl
text_eq_refl (c ∷ s) = ground (arith, text_eq_refl s)

eq_of_text_eq : (s t : Text) → text_eq s t ≡ true → s ≡ t
unfolding text_eq
eq_of_text_eq [] [] h = refl
eq_of_text_eq (a ∷ s) (b ∷ t) h = ground (arith, eq_of_text_eq s t)
eq_of_text_eq [] (b ∷ t) h = ground arith
eq_of_text_eq (a ∷ s) [] h = ground arith

text_eq_of_eq : (s t : Text) → s ≡ t → text_eq s t ≡ true
text_eq_of_eq s t h = ap (text_eq s) (sym h) ∙ text_eq_refl s

pub text_eq_iff : (s t : Text) → (text_eq s t ≡ true) ↔ (s ≡ t)
text_eq_iff s t = (eq_of_text_eq s t, text_eq_of_eq s t)

pub has_prefix-append : (p s : Text) → has_prefix (p ++ s) p ≡ true
unfolding has_prefix
has_prefix-append [] s = refl
has_prefix-append (c ∷ p) s = ground (arith, has_prefix-append p s)

pub append_of_has_prefix : (s p : Text) → has_prefix s p ≡ true → p ++ drop (length p) s ≡ s
unfolding has_prefix
append_of_has_prefix s [] h = refl
append_of_has_prefix [] (c ∷ p) h = ground arith
append_of_has_prefix (a ∷ s) (c ∷ p) h = ground (arith, append_of_has_prefix s p)

pub has_suffix-append : (p t : Text) → has_suffix (p ++ t) t ≡ true
unfolding has_suffix
has_suffix-append p t =
    let n : length (p ++ t) - length t ≡ length p = omega (arith, length-append {0} p t) in
    rw (n, drop-append, text_eq_refl) (ground (arith, length-append p t))

pub append_of_has_suffix :
    (s t : Text) → has_suffix s t ≡ true → take (length s - length t) s ++ t ≡ s
unfolding has_suffix
append_of_has_suffix s t h =
    let e : drop (length s - length t) s ≡ t = eq_of_text_eq _ _ (ground arith) in
    ap (λ u. take (length s - length t) s ++ u) (sym e) ∙ take-append-drop _ s

pub trim_suffix-append : (p t : Text) → trim_suffix (p ++ t) t ≡ p
unfolding trim_suffix
trim_suffix-append p t =
    let n : length (p ++ t) - length t ≡ length p = omega (arith, length-append {0} p t) in
    rw (has_suffix-append p t, n, take-append)
