-- ===== src/Prelude/Split.antt =====
-- The functions of package strings that cut a string: `Split` and `Index` for a separator of one
-- byte, and `TrimSpace`.
use Prim.Native.Nat.{ℕ, suc}
use mathlib.Core.Path.{◌≡◌, refl, sym, ap, ◌∙◌}
use mathlib.Core.Bool.{Bool, false, not, ◌&&◌, ◌||◌, true}
use mathlib.Core.Option.{Option, none, some}
use mathlib.Core.List.{List, [], ◌∷◌, ◌++◌}
use native.Mathlib.Omega.{arith}
use mathlib.Core.Logic.{inl, inr}
use tsdnsreflector.Prelude.Tests.{◌==◌, ==_iff, leb, if◌then◌else◌, Bool-cases}
use tsdnsreflector.Prelude.Bytes.{Text}
use tsdnsreflector.Prelude.Lists.{All}

-- One more byte in the first part.
abbrev pub onto_first : ℕ → List Text → List Text
onto_first c [] = (c ∷ []) ∷ []
onto_first c (part ∷ parts) = (c ∷ part) ∷ parts

-- `strings.Split(s, sep)` for a separator of one byte: never an empty list.
unfoldable pub split : ℕ → Text → List Text
split sep [] = [] ∷ []
split sep (c ∷ s) = let parts = split sep s in if c == sep then [] ∷ parts else onto_first c parts

-- `strings.Index(s, sep)`: `none` is -1.
unfoldable pub index_byte : ℕ → Text → Option ℕ
index_byte sep [] = none
index_byte sep (c ∷ s) =
    let rest = index_byte sep s in
    if c == sep then some 0 else (elim rest [ none ↦ none | some i ↦ some (suc i) ])

-- No byte of a text is `sep`.
abbrev pub Without : ℕ → Text → Type 0
Without sep s = All (λ c. (c == sep) ≡ false) s

abbrev pub without : ℕ → Text → Bool
without sep [] = true
without sep (c ∷ s) = not (c == sep) && without sep s

pub without-Without : (sep : ℕ) (s : Text) → without sep s ≡ true → Without sep s
without-Without sep [] h = tt
without-Without sep (c ∷ s) h =
    let rest = without-Without sep s in
    elim (Bool-cases (c == sep)) [
      | inl at ↦ absurd (ground arith)
      | inr other ↦ (other, rest (ground arith))
    ]

-- The parts, with a separator between each two.
abbrev pub join : ℕ → List Text → Text
join sep [] = []
join sep (part ∷ []) = part
join sep (part ∷ next ∷ parts) = part ++ sep ∷ join sep (next ∷ parts)

-- The white space of package unicode: the ASCII bytes, and U+0085, U+00A0, U+1680, U+2000 to
-- U+200A, U+2028, U+2029, U+202F, U+205F, U+3000 in UTF-8.
abbrev pub ascii_space : ℕ → Bool
ascii_space c = (leb 9 c && leb c 13) || (c == 32)

abbrev pub two_byte_space : ℕ → ℕ → Bool
two_byte_space a b = (a == 194) && ((b == 133) || (b == 160))

abbrev pub three_byte_space : ℕ → ℕ → ℕ → Bool
three_byte_space a b c =
    ((a == 225) && (b == 154) && (c == 128))
    || ((a == 226)
        && (b == 128)
        && ((leb 128 c && leb c 138) || (c == 168) || (c == 169) || (c == 175)))
    || ((a == 226) && (b == 129) && (c == 159))
    || ((a == 227) && (b == 128) && (c == 128))

-- The loops of `TrimSpace` from the left, and from the right on the reversed text.
unfoldable pub trim_left : Text → Text
trim_left [] = []
trim_left (a ∷ []) = if ascii_space a then [] else a ∷ []
trim_left (a ∷ b ∷ []) =
    if ascii_space a then trim_left (b ∷ []) else if two_byte_space a b then [] else a ∷ b ∷ []
trim_left (a ∷ b ∷ c ∷ s) =
    let one = trim_left (b ∷ c ∷ s) in
    let two = trim_left (c ∷ s) in
    let three = trim_left s in
    if ascii_space a
    then one
    else if two_byte_space a b
    then two
    else if three_byte_space a b c
    then three
    else a ∷ b ∷ c ∷ s

unfoldable pub trim_left_reversed : Text → Text
trim_left_reversed [] = []
trim_left_reversed (a ∷ []) = if ascii_space a then [] else a ∷ []
trim_left_reversed (a ∷ b ∷ []) =
    if ascii_space a
    then trim_left_reversed (b ∷ [])
    else if two_byte_space b a
    then []
    else a ∷ b ∷ []
trim_left_reversed (a ∷ b ∷ c ∷ s) =
    let one = trim_left_reversed (b ∷ c ∷ s) in
    let two = trim_left_reversed (c ∷ s) in
    let three = trim_left_reversed s in
    if ascii_space a
    then one
    else if two_byte_space b a
    then two
    else if three_byte_space c b a
    then three
    else a ∷ b ∷ c ∷ s

abbrev pub reverse : Text → Text
reverse [] = []
reverse (c ∷ s) = reverse s ++ (c ∷ [])

-- `strings.TrimSpace`
unfoldable pub trim_space : Text → Text
unfolding trim_left trim_left_reversed
trim_space s = reverse (trim_left_reversed (reverse (trim_left s)))

-- A text without the separator is one part.
pub split_whole : (sep : ℕ) (s : Text) → Without sep s → split sep s ≡ s ∷ []
unfolding split
split_whole sep [] h = refl
split_whole sep (c ∷ s) h = rw (h.0, split_whole sep s h.1)

pub split-append :
    (sep : ℕ) (s t : Text) → Without sep s → split sep (s ++ sep ∷ t) ≡ s ∷ split sep t
unfolding split
split-append sep [] t h = ground arith
split-append sep (c ∷ s) t h = rw (h.0, split-append sep s t h.1)

pub split-cons :
    (sep : ℕ) (s : Text) → (part : Text) × (parts : List Text) × (split sep s ≡ part ∷ parts)
unfolding split
split-cons sep [] = ([], [], refl)
split-cons sep (c ∷ s) =
    let (part, parts, e) = split-cons sep s in
    elim (Bool-cases (c == sep)) [
      | inl at ↦ ([], part ∷ parts, rw (at, e) refl)
      | inr other ↦ (c ∷ part, parts, rw (other, e) refl)
    ]

join-onto_first :
    (sep c : ℕ) (part : Text) (parts : List Text)
    → join sep (onto_first c (part ∷ parts)) ≡ c ∷ join sep (part ∷ parts)
join-onto_first sep c part [] = refl
join-onto_first sep c part (next ∷ parts) = refl

-- What `Split` cuts, the separator puts together again.
pub join-split : (sep : ℕ) (s : Text) → join sep (split sep s) ≡ s
unfolding split
join-split sep [] = refl
join-split sep (c ∷ s) =
    let (part, parts, e) = split-cons sep s in
    let rest : join sep (part ∷ parts) ≡ s = ap (join sep) (sym e) ∙ join-split sep s in
    elim (Bool-cases (c == sep)) [
      | inl at ↦ rw (at, e, rest, (==_iff c sep).0 at)
      | inr other ↦ rw (other, e, join-onto_first sep c part parts, rest)
    ]
