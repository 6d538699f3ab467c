-- ===== src/Prelude.antt =====
-- The names that the other modules share: the libraries', passed on, and those of the children.
-- Go's `string` is `Text`, the list of its bytes; a Go `map` is `Dict`, an association list whose
-- order is the order in which a `range` meets the keys.
mod Tests
mod Lists
pub mod Bytes
pub mod Maps
pub mod Word
pub mod Int
pub mod Result
pub mod Split
pub use Tests.*
pub use Lists.*
pub use Bytes.{Text, text_eq_iff, text_eq_refl, codes, is_empty}
unfoldable pub use Bytes.{text_eq, has_prefix, has_suffix, trim_prefix, trim_suffix}
pub use Maps.{Dict, Distinct}
unfoldable pub use Maps.{lookup, insert, erase}
pub use Prim.Native.Nat.{ℕ, zero, suc, ◌+◌, ◌-◌, ◌*◌, ◌/◌, ◌%◌, ◌^◌, ◌≤◌, ◌<◌}
pub use Prim.Native.String.{String}
pub use mathlib.Core.Path.{◌≡◌, refl, sym, ap, ◌∙◌}
pub use mathlib.Core.Logic.{◌≢◌, ◌↔◌, ◌⊎◌, inl, inr}
pub use mathlib.Core.Bool.{Bool, true, false, not, ◌&&◌, ◌||◌}
pub use mathlib.Core.Option.{Option, none, some}
pub use mathlib.Core.List.{List, [], ◌∷◌, ◌++◌, map}
pub use native.Mathlib.Omega.{arith}
