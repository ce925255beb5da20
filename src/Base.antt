-- ===== src/Base.antt =====
-- The names that the other modules share: the libraries', passed on, and those of the children.
-- Python's numbers are read as the native ℕ where the source keeps them non-negative, and as ℤ
-- (Base/Int) where it tests their sign; its strings are the native String, its dicts Base/Dict.
mod Tests
mod Text
mod Lists
mod Slices
pub mod Int
pub mod Dict
pub mod Table
pub mod Stateful
pub mod Outcome
pub use Tests.*
pub use Text.*
pub use Lists.*
pub use Slices.{split_dots-whole, split_dots-append, split_dots-first}
unfoldable pub use Slices.{take_chars, is_inside, split_dots, has_dot}
pub use Prim.Native.Nat.{ℕ, zero, suc, ◌+◌, ◌-◌, ◌*◌, ◌/◌, ◌%◌, ◌≤◌, ◌<◌, min, max}
pub use Prim.Native.String.{String}
pub use mathlib.Core.Path.{◌≡◌, refl, sym, ap, ◌∙◌}
pub use mathlib.Core.Logic.{◌≢◌, ◌↔◌, ◌⊎◌, inl, inr}
pub use mathlib.Core.Bool.{Bool, true, false, not, ◌&&◌, ◌||◌}
pub use mathlib.Core.Option.{Option, none, some}
pub use mathlib.Core.List.{List, [], ◌∷◌, ◌++◌, map}
pub use native.Mathlib.Omega.{arith}
