-- ===== src/Config/Domain/Match.antt =====
-- What `MatchesDomain` accepts, without its tests on lengths.
use mathlib.Core.Path.{subst}
use tsdnsreflector.Prelude.{
  Text, true, false, ◌||◌, ◌≡◌, ◌↔◌, inl, inr, refl, sym, ◌∙◌, ◌∷◌, ◌++◌, has_suffix, has_prefix,
  text_eq, text_eq_iff, drop, arith, Bool-cases,
}
use tsdnsreflector.Prelude.Bytes.{has_suffix-append, append_of_has_suffix, append_of_has_prefix}
use tsdnsreflector.Config.Domain.{dot, star_dot, with_dot, matches_dotted, matches_domain}

-- A fully qualified name is covered by a fully qualified pattern: `*.base` covers every name below
-- `base`, and any other pattern covers itself and every name below itself.
pub data Covers (pattern name : Text) : Type 0 where
  below_base :
      (base w : Text) → pattern ≡ star_dot ++ base → name ≡ w ++ b'.' ∷ base → Covers pattern name
  itself : has_prefix pattern star_dot ≡ false → name ≡ pattern → Covers pattern name
  below_itself :
      (w : Text)
      → has_prefix pattern star_dot ≡ false
      → name ≡ w ++ b'.' ∷ pattern
      → Covers pattern name

matches_dotted_wild :
    (name base : Text) → matches_dotted name (star_dot ++ base) ≡ has_suffix name (b'.' ∷ base)
unfolding matches_dotted has_prefix
matches_dotted_wild name base = refl

wild-Covers :
    (name base : Text)
    → matches_dotted name (star_dot ++ base) ≡ true
    → Covers (star_dot ++ base) name
wild-Covers name base h =
    below_base base _ refl
      (sym (append_of_has_suffix name (b'.' ∷ base) (rw matches_dotted_wild at h)))

plain-Covers :
    (name pattern : Text)
    → has_prefix pattern star_dot ≡ false
    → (text_eq name pattern || has_suffix name (b'.' ∷ pattern)) ≡ true
    → Covers pattern name
plain-Covers name pattern plain h = elim (Bool-cases (text_eq name pattern)) [
  | inl same ↦ itself plain ((text_eq_iff name pattern).0 same)
  | inr differ ↦
      below_itself _ plain (sym (append_of_has_suffix name (b'.' ∷ pattern) (ground arith)))
]

matches-Covers : (name pattern : Text) → matches_dotted name pattern ≡ true → Covers pattern name
matches-Covers name pattern h = elim (Bool-cases (has_prefix pattern star_dot)) [
  | inl wild ↦
      let e : star_dot ++ drop 2 pattern ≡ pattern = append_of_has_prefix pattern star_dot wild in
      subst (λ p. Covers p name) e
        (wild-Covers name (drop 2 pattern) (subst (λ p. matches_dotted name p ≡ true) (sym e) h))
  | inr plain ↦ plain-Covers name pattern plain (unfold matches_dotted in rw plain at h)
]

matches_of_Covers : (name pattern : Text) → Covers pattern name → matches_dotted name pattern ≡ true
unfolding matches_dotted
matches_of_Covers name pattern (below_base base w e f) =
    rw (e, f) (matches_dotted_wild (w ++ b'.' ∷ base) base ∙ has_suffix-append w (b'.' ∷ base))
matches_of_Covers name pattern (itself plain f) = rw (plain, (text_eq_iff name pattern).1 f)
matches_of_Covers name pattern (below_itself w plain f) =
    rw (plain, f) (ground (arith, has_suffix-append w (b'.' ∷ pattern)))

with_dot_self : (s : Text) → has_suffix s dot ≡ true → with_dot s ≡ s
unfolding with_dot
with_dot_self s h = rw h

with_dot_add : (s : Text) → has_suffix s dot ≡ false → with_dot s ≡ s ++ dot
unfolding with_dot
with_dot_add s h = rw h

with_dot-dotted : (s : Text) → has_suffix (with_dot s) dot ≡ true
unfolding with_dot
with_dot-dotted s = ground (arith, has_suffix-append s dot)

pub with_dot_idem : (s : Text) → with_dot (with_dot s) ≡ with_dot s
with_dot_idem s = with_dot_self (with_dot s) (with_dot-dotted s)

-- `matches_domain domain pattern` is true exactly when the fully qualified pattern covers the fully
-- qualified domain.
pub matches_domain-Covers :
    (domain pattern : Text)
    → (matches_domain domain pattern ≡ true) ↔ Covers (with_dot pattern) (with_dot domain)
unfolding matches_domain
matches_domain-Covers domain pattern = (
  matches-Covers (with_dot domain) (with_dot pattern),
  matches_of_Covers (with_dot domain) (with_dot pattern),
)

-- A final dot on the domain or on the pattern makes no difference.
pub matches_domain-with_dot :
    (domain pattern : Text)
    → (matches_domain (with_dot domain) pattern ≡ matches_domain domain pattern)
      × (matches_domain domain (with_dot pattern) ≡ matches_domain domain pattern)
unfolding matches_domain
matches_domain-with_dot domain pattern = (rw (with_dot_idem domain), rw (with_dot_idem pattern))
