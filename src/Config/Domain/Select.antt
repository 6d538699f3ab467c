-- ===== src/Config/Domain/Select.antt =====
-- `GetZone` returns a zone with a longest matching pattern.
use tsdnsreflector.Prelude.{
  ℕ, Text, true, false, ◌≡◌, ◌≢◌, ◌↔◌, ◌≤◌, ◌⊎◌, inl, inr, refl, sym, ap, ◌∙◌, none, some, List, [],
  ◌∷◌, ◌++◌, Dict, length, arith, if◌then◌else◌, In, All, All-In, In-All, Option-cases,
}
use tsdnsreflector.Config.{Zone, Config, ZoneRef}
use tsdnsreflector.Config.Domain.Match.{matches_domain-with_dot}
use tsdnsreflector.Config.Domain.{
  with_dot, matches_domain, Best, consider, scan_domains, scan_zones, get_zone,
}

-- A pattern of a zone, as the two loops meet them.
abbrev pub Candidate : Type 0
Candidate = ZoneRef × Text

abbrev pub of_zone : ZoneRef → List Text → List Candidate
of_zone z [] = []
of_zone z (p ∷ ps) = (z, p) ∷ of_zone z ps

unfoldable pub candidates : Dict Zone → List Candidate
candidates [] = []
candidates (z ∷ zs) = of_zone z z.1.domains ++ candidates zs

scan : Text → List Candidate → Best → Best
scan d [] b = b
scan d (c ∷ cs) b = scan d cs (consider d c.0 c.1 b)

scan-append :
    (d : Text) (cs ds : List Candidate) (b : Best) → scan d (cs ++ ds) b ≡ scan d ds (scan d cs b)
unfolding scan
scan-append d [] ds b = refl
scan-append d (c ∷ cs) ds b = scan-append d cs ds (consider d c.0 c.1 b)

scan_domains-scan :
    (d : Text) (z : ZoneRef) (ps : List Text) (b : Best)
    → scan_domains d z ps b ≡ scan d (of_zone z ps) b
unfolding scan scan_domains
scan_domains-scan d z [] b = refl
scan_domains-scan d z (p ∷ ps) b = scan_domains-scan d z ps (consider d z p b)

scan_zones-scan :
    (d : Text) (zs : Dict Zone) (b : Best) → scan_zones d zs b ≡ scan d (candidates zs) b
unfolding scan_zones candidates scan
scan_zones-scan d [] b = refl
scan_zones-scan d (z ∷ zs) b =
    rw
      (scan_domains-scan d z z.1.domains b, scan-append d (of_zone z z.1.domains) (candidates zs) b)
      (scan_zones-scan d zs (scan d (of_zone z z.1.domains) b))

-- With no match yet the recorded length is the initial 0.
IsFresh : Best → Type 0
IsFresh b = b.best_match ≡ none → b.best_match_length ≡ 0

module _ (d : Text) where
  -- What the rest of the loops keeps: they only ever raise the length.
  scan-le :
      (cs : List Candidate) (b : Best)
      → IsFresh b
      → b.best_match_length ≤ (scan d cs b).best_match_length
  unfolding scan consider IsFresh
  scan-le [] b h = omega arith
  scan-le (c ∷ cs) b h = ground (arith, scan-le cs (consider d c.0 c.1 b))

  scan-some :
      (cs : List Candidate) (b : Best) → b.best_match ≢ none → (scan d cs b).best_match ≢ none
  unfolding scan consider
  scan-some [] b h = h
  scan-some (c ∷ cs) b h = scan-some cs (consider d c.0 c.1 b) (ground arith)

  consider-IsFresh : (z : ZoneRef) (p : Text) (b : Best) → IsFresh b → IsFresh (consider d z p b)
  unfolding consider IsFresh
  consider-IsFresh z p b h = ground arith

  consider-covers :
      (z : ZoneRef) (p : Text) (b : Best)
      → IsFresh b
      → matches_domain d p ≡ true
      → ((consider d z p b).best_match ≢ none) × (length p ≤ (consider d z p b).best_match_length)
  unfolding consider IsFresh
  consider-covers z p b h m = ground arith

  -- Every matching pattern was seen, and is no longer than the recorded one.
  scan-covers :
      (cs : List Candidate) (b : Best) (z : ZoneRef) (p : Text)
      → IsFresh b
      → In (z, p) cs
      → matches_domain d p ≡ true
      → ((scan d cs b).best_match ≢ none) × (length p ≤ (scan d cs b).best_match_length)
  unfolding scan
  scan-covers [] b z p h i m = elim i [ ]
  scan-covers ((y, q) ∷ cs) b z p h (inl e) m =
      let e0 : z ≡ y = ap (λ c. c.0) e in
      let e1 : p ≡ q = ap (λ c. c.1) e in
      let m' : matches_domain d q ≡ true = rw e1 at m in
      let k = consider d y q b in
      let fresh : IsFresh k = consider-IsFresh y q b h in
      let up = consider-covers y q b h m' in
      (scan-some cs k up.0, rw e1 (omega (arith, up.1, scan-le cs k fresh)))
  scan-covers (c ∷ cs) b z p h (inr i) m =
      scan-covers cs (consider d c.0 c.1 b) z p (consider-IsFresh c.0 c.1 b h) i m

  -- The result comes from a candidate.
  consider-origin :
      (y : ZoneRef) (q : Text) (b : Best)
      → (consider d y q b ≡ b)
        ⊎ ((matches_domain d q ≡ true)
            × (consider d y q b ≡ record { best_match = some y; best_match_length = length q }))
  unfolding consider
  consider-origin y q b = ground arith

  scan-origin :
      (cs : List Candidate) (b : Best) (z : ZoneRef)
      → (scan d cs b).best_match ≡ some z
      → ((b.best_match ≡ some z) × (b.best_match_length ≡ (scan d cs b).best_match_length))
        ⊎ ((p : Text) × In (z, p) cs
            × (matches_domain d p ≡ true)
            × (length p ≡ (scan d cs b).best_match_length))
  unfolding scan
  scan-origin [] b z h = inl (h, refl)
  scan-origin (c ∷ cs) b z h = elim (scan-origin cs (consider d c.0 c.1 b) z h) [
    | inl kept ↦ elim (consider-origin c.0 c.1 b) [
      | inl same ↦ inl (ground arith)
      | inr taken ↦ inr (c.1, inl (ground arith), taken.0, ground arith)
    ]
    | inr (p, i, m, l) ↦ inr (p, inr i, m, l)
  ]

-- The length of a pattern that matches the domain, and 0 for any other.
abbrev pub matched_length : Text → Text → ℕ
matched_length d p = if matches_domain d p then length p else 0

abbrev start : Best
start = record { best_match = none; best_match_length = 0 }

module _ (c : Config) (domain : Text) where
  get_zone-scan : get_zone c domain ≡ (scan (with_dot domain) (candidates c.zones) start).best_match
  unfolding get_zone
  get_zone-scan = ap (λ b. b.best_match) (scan_zones-scan (with_dot domain) c.zones start)

  matches_dotted_domain : (p : Text) → matches_domain (with_dot domain) p ≡ matches_domain domain p
  matches_dotted_domain p = (matches_domain-with_dot domain p).0

  start-IsFresh : IsFresh start
  unfolding IsFresh
  start-IsFresh _ = refl

  covered :
      (y : Candidate)
      → In y (candidates c.zones)
      → matches_domain domain y.1 ≡ true
      → ((get_zone c domain) ≢ none)
        × (length y.1 ≤ (scan (with_dot domain) (candidates c.zones) start).best_match_length)
  covered (y, q) i m = rw get_zone-scan (
      scan-covers (with_dot domain) (candidates c.zones) start y q start-IsFresh i
        (matches_dotted_domain q ∙ m))

  -- If a zone is found, then one of its patterns matches the domain, and no pattern of any zone
  -- that matches the domain is longer than that pattern.
  pub get_zone-longest :
      (z : ZoneRef)
      → get_zone c domain ≡ some z
      → (p : Text) × In (z, p) (candidates c.zones)
        × (matches_domain domain p ≡ true)
        × All (λ y. matched_length domain y.1 ≤ length p) (candidates c.zones)
  get_zone-longest z h =
      elim (scan-origin (with_dot domain) (candidates c.zones) start z (sym get_zone-scan ∙ h)) [
        | inl never ↦ absurd (ground arith)
        | inr (p, i, m, l) ↦ (
          p,
          i,
          sym (matches_dotted_domain p) ∙ m,
          In-All _ (candidates c.zones) (λ y j. ground (arith, covered y j, l)),
        )
      ]

  -- No zone is found exactly when no pattern of any zone matches the domain.
  pub get_zone-none_iff :
      (get_zone c domain ≡ none) ↔ All (λ y. matches_domain domain y.1 ≡ false) (candidates c.zones)
  get_zone-none_iff = (nothing, found_nothing)
    where
      nothing :
          get_zone c domain ≡ none
          → All (λ y. matches_domain domain y.1 ≡ false) (candidates c.zones)
      nothing h = In-All _ (candidates c.zones) (λ y j. ground (arith, covered y j))

      found_nothing :
          All (λ y. matches_domain domain y.1 ≡ false) (candidates c.zones)
          → get_zone c domain ≡ none
      found_nothing h = elim (Option-cases (get_zone c domain)) [
        | inl e ↦ e
        | inr (z, e) ↦
            let (p, i, m, most) = get_zone-longest z e in
            let f : matches_domain domain p ≡ false = All-In _ (candidates c.zones) i h in cc (m, f)
      ]

In-append : (y : Candidate) (cs ds : List Candidate) → In y (cs ++ ds) → In y cs ⊎ In y ds
In-append y [] ds i = inr i
In-append y (c ∷ cs) ds i = ground (arith, In-append y cs ds)

of_zone-zone : (z : ZoneRef) (ps : List Text) (y : Candidate) → In y (of_zone z ps) → y.0 ≡ z
of_zone-zone z [] y i = elim i [ ]
of_zone-zone z (p ∷ ps) y i = ground (arith, of_zone-zone z ps y)

candidates-zone : (zs : Dict Zone) (y : Candidate) → In y (candidates zs) → In y.0 zs
unfolding candidates
candidates-zone [] y i = elim i [ ]
candidates-zone (z ∷ zs) y i = elim (In-append y (of_zone z z.1.domains) (candidates zs) i) [
  | inl here ↦ inl (of_zone-zone z z.1.domains y here)
  | inr later ↦ inr (candidates-zone zs y later)
]

-- The zone that is found is one of the configuration's.
pub get_zone-In :
    (c : Config) (domain : Text) (z : ZoneRef) → get_zone c domain ≡ some z → In z c.zones
get_zone-In c domain z h =
    let (p, i, m, most) = get_zone-longest c domain z h in candidates-zone c.zones (z, p) i
