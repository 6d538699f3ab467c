-- ===== src/Config/Domain/Order.antt =====
-- `GetZone` ranges over a Go map: whether the order of the zones shows in the result.
use tsdnsreflector.Prelude.{
  Text, true, false, ◌≡◌, ◌≢◌, ◌≤◌, ◌⊎◌, inl, inr, sym, ap, ◌∙◌, none, some, List, [], ◌∷◌, length,
  arith, In, All, All-In, In-All, Option-cases,
}
use tsdnsreflector.Config.{Config, ZoneRef, GlobalConfig}
use tsdnsreflector.Config.Domain.Match.{matches_domain-with_dot}
use tsdnsreflector.Config.Domain.Select.{
  Candidate, candidates, matched_length, get_zone-longest, get_zone-none_iff,
}
use tsdnsreflector.Config.Domain.{
  with_dot, matches_domain, consider, scan_domains, scan_zones, get_zone,
}

-- The two patterns do not compete: they are of one zone, or have different lengths, or the first
-- does not match.
abbrev pub NoTie : Text → Candidate → Candidate → Type 0
NoTie d y w =
    (y.0 ≡ w.0) ⊎ (matched_length d y.1 ≢ matched_length d w.1) ⊎ (matches_domain d y.1 ≡ false)

abbrev pub HasNoTies : Text → List Candidate → Type 0
HasNoTies d cs = All (λ y. All (NoTie d y) cs) cs

abbrev pub IsWithin : List Candidate → List Candidate → Type 0
IsWithin cs ds = All (λ y. In y ds) cs

longest_same :
    (d : Text) (cs : List Candidate) (z w : ZoneRef) (p q : Text)
    → HasNoTies d cs
    → In (z, p) cs
    → In (w, q) cs
    → matches_domain d p ≡ true
    → matches_domain d q ≡ true
    → length p ≡ length q
    → z ≡ w
longest_same d cs z w p q none_tied i j m n e =
    let tie = All-In (NoTie d (z, p)) cs j (All-In (λ y. All (NoTie d y) cs) cs i none_tied) in
    ground arith

module _ (c c' : Config) (domain : Text)
    (same : IsWithin (candidates c.zones) (candidates c'.zones))
    (same' : IsWithin (candidates c'.zones) (candidates c.zones)) where
  one_none : get_zone c domain ≡ none → get_zone c' domain ≡ none
  one_none h =
      (get_zone-none_iff c' domain).1
        (In-All _ _ (λ y i. All-In _ _ (All-In _ _ i same') ((get_zone-none_iff c domain).0 h)))

  one_some :
      (z : ZoneRef)
      → HasNoTies domain (candidates c.zones)
      → get_zone c domain ≡ some z
      → (w : ZoneRef) → get_zone c' domain ≡ some w
      → z ≡ w
  one_some z none_tied h w k =
      let (p, i, m, most) = get_zone-longest c domain z h in
      let (q, j, n, most') = get_zone-longest c' domain w k in
      let j' : In (w, q) (candidates c.zones) = All-In _ (candidates c'.zones) j same' in
      let i' : In (z, p) (candidates c'.zones) = All-In _ (candidates c.zones) i same in
      let le : matched_length domain q ≤ length p = All-In _ (candidates c.zones) j' most in
      let ge : matched_length domain p ≤ length q = All-In _ (candidates c'.zones) i' most' in
      longest_same domain (candidates c.zones) z w p q none_tied i j' m n (ground arith)

-- Two configurations with the same zones and patterns, in any order, find the same zone for a
-- domain for which no two zones have matching patterns of one length.
pub get_zone-order :
    (c c' : Config) (domain : Text)
    → IsWithin (candidates c.zones) (candidates c'.zones)
    → IsWithin (candidates c'.zones) (candidates c.zones)
    → HasNoTies domain (candidates c.zones)
    → get_zone c domain ≡ get_zone c' domain
get_zone-order c c' domain same same' none_tied = elim (Option-cases (get_zone c domain)) [
  | inl e ↦ e ∙ sym (one_none c c' domain same same' e)
  | inr (z, e) ↦ elim (Option-cases (get_zone c' domain)) [
    | inl f ↦ absurd (cc (one_none c' c domain same' same f))
    | inr (w, f) ↦ e ∙ ap some (one_some c c' domain same same' z none_tied e w f) ∙ sym f
  ]
]

abbrev pub two_zones : GlobalConfig → ZoneRef → ZoneRef → Config
two_zones g a b = record { global = g; zones = a ∷ b ∷ [] }

first_found :
    (g : GlobalConfig) (a b : ZoneRef) (p q domain : Text)
    → a.1.domains ≡ p ∷ []
    → b.1.domains ≡ q ∷ []
    → length p ≡ length q
    → matches_domain domain p ≡ true
    → matches_domain domain q ≡ true
    → get_zone (two_zones g a b) domain ≡ some a
unfolding get_zone scan_zones scan_domains consider
first_found g a b p q domain da db e m n =
    let m' : matches_domain (with_dot domain) p ≡ true = (matches_domain-with_dot domain p).0 ∙ m in
    let n' : matches_domain (with_dot domain) q ≡ true = (matches_domain-with_dot domain q).0 ∙ n in
    ground arith

-- Two zones with one pattern each, which both match the domain and are of one length: the zone that
-- the map's order puts first is found, so the two orders of one map answer differently.
pub get_zone-tie :
    (g : GlobalConfig) (a b : ZoneRef) (p q domain : Text)
    → a.1.domains ≡ p ∷ []
    → b.1.domains ≡ q ∷ []
    → length p ≡ length q
    → matches_domain domain p ≡ true
    → matches_domain domain q ≡ true
    → (get_zone (two_zones g a b) domain ≡ some a) × (get_zone (two_zones g b a) domain ≡ some b)
get_zone-tie g a b p q domain da db e m n =
    (first_found g a b p q domain da db e m n, first_found g b a q p domain db da (sym e) n m)
