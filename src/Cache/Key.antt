-- ===== src/Cache/Key.antt =====
-- `CacheKey`: which queries share a key.
use mathlib.Core.List.{append_assoc}
use mathlib.Core.Path.{subst}
use tsdnsreflector.Prelude.{
  ℕ, Text, false, ◌≡◌, ◌≢◌, refl, sym, ◌∙◌, none, some, [], ◌∷◌, ◌++◌, arith, is_empty, All, ◌↔◌,
}
use tsdnsreflector.Message.{DnsLib}
use tsdnsreflector.Cache.{cache_key}

-- No `:` in a text.
abbrev pub HasNoColon : Text → Type 0
HasNoColon = All (λ c. c ≢ b':')

colon_inside : (q t : Text) → ¬ HasNoColon (q ++ b':' ∷ t)
colon_inside [] t h = h.0 refl
colon_inside (c ∷ q) t h = colon_inside q t h.1

tail_eq : {a b : ℕ} {s t : Text} → ◌≡◌ {A = Text} (a ∷ s) (b ∷ t) → s ≡ t
tail_eq e = ground arith

-- A text has one last `:`.
last_part :
    (p q s t : Text)
    → HasNoColon s
    → HasNoColon t
    → p ++ b':' ∷ s ≡ q ++ b':' ∷ t
    → (p ≡ q) × (s ≡ t)
last_part [] [] s t hs ht e = (refl, tail_eq e)
last_part [] (c ∷ q) s t hs ht e = absurd (colon_inside q t (subst HasNoColon (tail_eq e) hs))
last_part (c ∷ p) [] s t hs ht e = absurd (colon_inside p s (subst HasNoColon (sym (tail_eq e)) ht))
last_part (a ∷ p) (b ∷ q) s t hs ht e = ground (arith, last_part p q s t hs ht)

module _ (lib : DnsLib) where
  -- If no type's text has a `:`, two queries share a key without a client address exactly when
  -- their names are equal and their types have one text.
  pub cache_key_iff :
      (colon_free : (t : ℕ) → HasNoColon (lib.type_to_string t)) (name name' : Text) (t t' : ℕ)
      → (cache_key lib name t none ≡ cache_key lib name' t' none)
        ↔ ((name ≡ name') × (lib.type_to_string t ≡ lib.type_to_string t'))
  unfolding cache_key
  cache_key_iff colon_free name name' t t' = (
    last_part name name' (lib.type_to_string t) (lib.type_to_string t') (colon_free t)
        (colon_free t'),
    λ h. ground arith,
  )

  -- The key with a client address is another one than every key without, where neither the address
  -- nor a type's text has a `:` and the address is not the text of the other query's type.
  pub cache_key-client :
      (colon_free : (t : ℕ) → HasNoColon (lib.type_to_string t)) (name name' ip : Text) (t t' : ℕ)
      → HasNoColon ip
      → ip ≢ lib.type_to_string t'
      → cache_key lib name t (some ip) ≢ cache_key lib name' t' none
  unfolding cache_key
  cache_key-client colon_free name name' ip t t' free other e =
      other
        (last_part (name ++ b':' ∷ lib.type_to_string t) name' ip (lib.type_to_string t') free
          (colon_free t') (append_assoc name (b':' ∷ lib.type_to_string t) (b':' ∷ ip) ∙ e)).1

  pub is_empty-cache_key : (name : Text) (t : ℕ) → is_empty (cache_key lib name t none) ≡ false
  unfolding cache_key
  is_empty-cache_key [] t = refl
  is_empty-cache_key (c ∷ name) t = refl
