-- ===== src/Prelude.antt =====
-- Names that the other modules share: the libraries', passed on, Boolean tests on numbers, and
-- the lemmas on lists and texts of the children.
mod Tests
mod Lists
mod Texts
mod Sorted
mod Int
mod Dicts
pub use Tests.*
pub use Lists.*
unfoldable pub use Texts.*
unfoldable pub use Sorted.*
unfoldable pub use Dicts.*
pub use Int.*
pub use Prim.Native.Nat.{ℕ, zero, suc, ◌+◌, ◌-◌, ◌*◌, ◌/◌, ◌%◌, ◌≤◌, ◌<◌, min, max}
pub use Prim.Native.String.{String}
pub use mathlib.Core.Path.{◌≡◌, refl, sym, ap, ◌∙◌, subst}
pub use mathlib.Core.Logic.{◌≢◌, ◌↔◌, ◌⊎◌, inl, inr}
pub use mathlib.Core.Bool.{Bool, true, false, not, ◌&&◌, ◌||◌}
pub use mathlib.Core.Option.{Option, none, some}
pub use mathlib.Core.List.{List, [], ◌∷◌, ◌++◌, map}
pub use native.Mathlib.Omega.{arith}
