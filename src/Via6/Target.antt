-- ===== src/Via6/Target.antt =====
-- The name that the backend servers are asked for.
use mathlib.Core.List.{append_assoc}
use mathlib.Core.Path.{subst}
use tsdnsreflector.Prelude.{
  ℕ, suc, ◌-◌, Text, true, false, ◌≡◌, ◌≢◌, refl, sym, ◌∙◌, ap, List, [], ◌∷◌, ◌++◌, arith,
  Bool-cases, inl, inr, All, has_prefix, has_suffix, trim_prefix, length, drop,
}
use tsdnsreflector.Prelude.Bytes.{has_suffix-append, trim_suffix-append}
use tsdnsreflector.Config.Domain.{dot, star_dot, with_dot, matches_domain}
use tsdnsreflector.Config.Domain.Match.{
  Covers, below_base, itself, below_itself, matches_domain-Covers, with_dot_idem,
}
use tsdnsreflector.Via6.{ZoneTranslator, reflect_under, reflect_in, target_name}

-- The last byte decides whether a text ends in a dot.
dotted_cons : (a b : ℕ) (s : Text) → has_suffix (a ∷ b ∷ s) dot ≡ has_suffix (b ∷ s) dot
unfolding has_suffix
dotted_cons a b s =
    let one : suc (suc (length s)) - 1 ≡ suc (length s) = omega arith in
    let two : suc (length s) - 1 ≡ length s = omega arith in rw (one, two) (ground arith)

dotted_append : (p s : Text) → s ≢ [] → has_suffix (p ++ s) dot ≡ has_suffix s dot
dotted_append [] s h = refl
dotted_append (a ∷ []) [] h = absurd (h refl)
dotted_append (a ∷ []) (b ∷ s) h = dotted_cons a b s
dotted_append (a ∷ b ∷ p) s h = dotted_cons a b (p ++ s) ∙ dotted_append (b ∷ p) s h

with_dot-append : (p s : Text) → s ≢ [] → with_dot (p ++ s) ≡ p ++ with_dot s
unfolding with_dot
with_dot-append p s h = rw (dotted_append p s h) (elim (Bool-cases (has_suffix s dot)) [
  | inl dotted ↦ rw dotted
  | inr bare ↦ rw bare (append_assoc p s dot)
])

with_dot-ne-nil : (s : Text) → with_dot s ≢ []
unfolding with_dot
with_dot-ne-nil [] h = unfold has_suffix in ground arith
with_dot-ne-nil (c ∷ s) h = ground arith

reflect_in-first :
    (before after : List Text) (p original reflected : Text)
    → All (λ q. matches_domain original q ≡ false) before
    → matches_domain original p ≡ true
    → reflect_in (before ++ p ∷ after) original reflected ≡ reflect_under original p reflected
unfolding reflect_in
reflect_in-first [] after p original reflected h m = rw m
reflect_in-first (q ∷ before) after p original reflected h m =
    rw h.0 (reflect_in-first before after p original reflected h.1 m)

reflect_under-wildcard :
    (u base original reflected : Text)
    → with_dot original ≡ u ++ with_dot base
    → reflect_under original (star_dot ++ base) reflected ≡ u ++ with_dot reflected
unfolding reflect_under trim_prefix has_prefix
reflect_under-wildcard u base original reflected e =
    rw (e, has_suffix-append u (with_dot base), trim_suffix-append u (with_dot base))

reflect_under-plain :
    (p original reflected : Text)
    → has_prefix p star_dot ≡ false
    → reflect_under original p reflected ≡ reflected
unfolding reflect_under
reflect_under-plain p original reflected h = rw h

-- The labels that a wildcard pattern covers.
covered_labels :
    (original base : Text)
    → base ≢ []
    → matches_domain original (star_dot ++ base) ≡ true
    → (w : Text) × (with_dot original ≡ w ++ b'.' ∷ with_dot base)
covered_labels original base h m = labels (
    subst (λ p. Covers p (with_dot original)) (with_dot-append star_dot base h)
      ((matches_domain-Covers original (star_dot ++ base)).0 m))
  where
    labels :
        Covers (star_dot ++ with_dot base) (with_dot original)
        → (w : Text) × (with_dot original ≡ w ++ b'.' ∷ with_dot base)
    labels (below_base base' w e f) = (w, f ∙ ap (λ t. w ++ b'.' ∷ t) (sym (ap (drop 2) e)))
    labels (itself plain f) = absurd (unfold has_prefix in ground arith)
    labels (below_itself w plain f) = absurd (unfold has_prefix in ground arith)

module _ (zt : ZoneTranslator) (original : Text) (before after : List Text)
    (earlier : All (λ q. matches_domain original q ≡ false) before) where
  -- If the first of the zone's patterns that matches the domain is `*.` and a base domain that is
  -- not empty, then the domain is some labels below the base domain, and the name asked for is
  -- those labels below the reflected domain.
  pub target_name-wildcard :
      (base : Text)
      → base ≢ []
      → zt.zone.domains ≡ before ++ (star_dot ++ base) ∷ after
      → matches_domain original (star_dot ++ base) ≡ true
      → (w : Text) × (with_dot original ≡ w ++ b'.' ∷ with_dot base)
        × (target_name zt original ≡ w ++ b'.' ∷ with_dot zt.rule.reflected_domain)
  unfolding target_name
  target_name-wildcard base h e m =
      let (w, is) = covered_labels original base h m in
      let u : with_dot original ≡ (w ++ dot) ++ with_dot base =
        is ∙ sym (append_assoc w dot (with_dot base)) in
      (
        w,
        is,
        ap with_dot (
              ap (λ ds. reflect_in ds original zt.rule.reflected_domain) e
              ∙ reflect_in-first before after (star_dot ++ base) original zt.rule.reflected_domain
                  earlier m
              ∙ reflect_under-wildcard (w ++ dot) base original zt.rule.reflected_domain u)
            ∙ with_dot-append (w ++ dot) (with_dot zt.rule.reflected_domain)
                (with_dot-ne-nil zt.rule.reflected_domain)
            ∙ ap (λ t. (w ++ dot) ++ t) (with_dot_idem zt.rule.reflected_domain)
            ∙ append_assoc w dot (with_dot zt.rule.reflected_domain),
      )

  -- If the first of the zone's patterns that matches the domain is no wildcard, then the name asked
  -- for is the reflected domain itself, whatever labels the domain has in front of the pattern.
  pub target_name-plain :
      (p : Text)
      → has_prefix p star_dot ≡ false
      → zt.zone.domains ≡ before ++ p ∷ after
      → matches_domain original p ≡ true
      → target_name zt original ≡ with_dot zt.rule.reflected_domain
  unfolding target_name
  target_name-plain p plain e m = ap with_dot (
      ap (λ ds. reflect_in ds original zt.rule.reflected_domain) e
      ∙ reflect_in-first before after p original zt.rule.reflected_domain earlier m
      ∙ reflect_under-plain p original zt.rule.reflected_domain plain)
