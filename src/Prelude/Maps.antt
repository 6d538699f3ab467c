-- ===== src/Prelude/Maps.antt =====
-- A Go `map[string]V` as an association list. A new key goes to the end; the theorems that depend
-- on the order in which `range` meets the keys hold for every order of the list.
use Prim.Native.Nat.{suc, ◌≤◌}
use mathlib.Core.Path.{◌≡◌, refl}
use mathlib.Core.Option.{Option, none, some}
use mathlib.Core.List.{List, [], ◌∷◌}
use native.Mathlib.Omega.{arith}
use tsdnsreflector.Prelude.Tests.{if◌then◌else◌}
use tsdnsreflector.Prelude.Lists.{In, length}
use tsdnsreflector.Prelude.Bytes.{Text, text_eq, text_eq_iff, text_eq_refl}

abbrev pub Dict {ℓ} : Type ℓ → Type ℓ
Dict V = List (Text × V)

module _ {ℓ} {V : Type ℓ} where
  -- `v, ok := m[k]`
  unfoldable pub lookup : Text → Dict V → Option V
  lookup k [] = none
  lookup k ((j, v) ∷ m) = if text_eq j k then some v else lookup k m

  -- `m[k] = v`
  unfoldable pub insert : Text → V → Dict V → Dict V
  insert k v [] = (k, v) ∷ []
  insert k v ((j, w) ∷ m) = if text_eq j k then (j, v) ∷ m else (j, w) ∷ insert k v m

  -- `delete(m, k)`
  unfoldable pub erase : Text → Dict V → Dict V
  erase k [] = []
  erase k ((j, w) ∷ m) = if text_eq j k then m else (j, w) ∷ erase k m

  -- No key stands twice.
  abbrev pub Distinct : Dict V → Type ℓ
  Distinct [] = Unit
  Distinct ((k, v) ∷ m) = (lookup k m ≡ none) × Distinct m

  pub lookup-insert :
      (k j : Text) (v : V) (m : Dict V)
      → lookup j (insert k v m) ≡ (if text_eq k j then some v else lookup j m)
  unfolding lookup insert
  lookup-insert k j v [] = refl
  lookup-insert k j v ((i, w) ∷ m) =
      ground (arith, text_eq_iff k j, text_eq_iff i k, text_eq_iff i j, lookup-insert k j v m)

  pub lookup-erase :
      (k j : Text) (m : Dict V)
      → Distinct m
      → lookup j (erase k m) ≡ (if text_eq k j then none else lookup j m)
  unfolding lookup erase
  lookup-erase k j [] d = ground arith
  lookup-erase k j ((i, w) ∷ m) d =
      ground (arith, text_eq_iff k j, text_eq_iff i k, text_eq_iff i j, lookup-erase k j m)

  pub insert-Distinct : (k : Text) (v : V) (m : Dict V) → Distinct m → Distinct (insert k v m)
  unfolding lookup insert
  insert-Distinct k v [] d = (refl, tt)
  insert-Distinct k v ((i, w) ∷ m) d =
      ground (arith, insert-Distinct k v m, lookup-insert k i v m, text_eq_iff i k, text_eq_iff k i)

  pub erase-Distinct : (k : Text) (m : Dict V) → Distinct m → Distinct (erase k m)
  unfolding lookup erase
  erase-Distinct k [] d = tt
  erase-Distinct k ((i, w) ∷ m) d =
      ground (arith, erase-Distinct k m, lookup-erase k i m, text_eq_iff i k, text_eq_iff k i)

  pub length-insert : (k : Text) (v : V) (m : Dict V) → length (insert k v m) ≤ suc (length m)
  unfolding insert
  length-insert k v [] = omega arith
  length-insert k v ((i, w) ∷ m) = ground (arith, length-insert k v m)

  pub length-insert_known :
      (k : Text) (v w : V) (m : Dict V) → lookup k m ≡ some w → length (insert k v m) ≡ length m
  unfolding lookup insert
  length-insert_known k v w [] h = cc
  length-insert_known k v w ((i, x) ∷ m) h = ground (arith, length-insert_known k v w m)

  pub length-erase :
      (k : Text) (m : Dict V) (v : V) → lookup k m ≡ some v → suc (length (erase k m)) ≡ length m
  unfolding lookup erase
  length-erase k [] v h = cc
  length-erase k ((i, w) ∷ m) v h = ground (arith, length-erase k m v)

module _ {V : Type 0} where
  pub lookup_of_In :
      (k : Text) (v : V) (m : Dict V) → Distinct m → In (k, v) m → lookup k m ≡ some v
  unfolding lookup
  lookup_of_In k v [] d i = elim i [ ]
  lookup_of_In k v ((j, w) ∷ m) d i =
      ground (arith, text_eq_refl j, lookup_of_In k v m d.1, text_eq_iff j k)

  pub lookup-In : (k : Text) (v : V) (m : Dict V) → lookup k m ≡ some v → In (k, v) m
  unfolding lookup
  lookup-In k v [] h = cc
  lookup-In k v ((j, w) ∷ m) h = ground (arith, text_eq_iff j k, lookup-In k v m)

-- `for k, v := range src { dst[k] = v }`
module _ {ℓ} {V : Type ℓ} where
  unfoldable pub copy_all : Dict V → Dict V → Dict V
  copy_all [] dst = dst
  copy_all ((k, v) ∷ src) dst = copy_all src (insert k v dst)

  abbrev pub or_else : Option V → Option V → Option V
  or_else none d = d
  or_else (some v) d = some v

  pub lookup-copy_all :
      (j : Text) (src dst : Dict V)
      → Distinct src
      → lookup j (copy_all src dst) ≡ or_else (lookup j src) (lookup j dst)
  unfolding copy_all lookup
  lookup-copy_all j [] dst d = refl
  lookup-copy_all j ((k, v) ∷ src) dst d =
      ground (
        arith,
        lookup-copy_all j src (insert k v dst) d.1,
        lookup-insert k j v dst,
        text_eq_iff k j,
      )

  pub copy_all-Distinct : (src dst : Dict V) → Distinct dst → Distinct (copy_all src dst)
  unfolding copy_all
  copy_all-Distinct [] dst d = d
  copy_all-Distinct ((k, v) ∷ src) dst d =
      copy_all-Distinct src (insert k v dst) (insert-Distinct k v dst d)
