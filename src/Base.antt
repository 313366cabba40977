-- ===== src/Base.antt =====
-- The names that the other modules share: library names, Boolean tests, and lists of rows.
mod Tests
mod Lists
mod Rows
mod Sort
mod Counting
mod Everywhere
mod Selecting
pub use Tests.*
pub use Lists.*
unfoldable pub use Rows.*
unfoldable pub use Sort.*
pub use Counting.*
pub use Everywhere.*
pub use Selecting.*
pub use Prim.Native.Nat.{ℕ, zero, suc, ◌+◌, ◌-◌, ◌*◌, ◌/◌, ◌%◌, ◌^◌, ◌≤◌, ◌<◌, min, max}
pub use Prim.Native.String.{String}
pub use mathlib.Core.Path.{◌≡◌, refl, sym, ap, ◌∙◌}
pub use mathlib.Core.Logic.{◌≢◌, ◌↔◌, ◌⊎◌, inl, inr}
pub use mathlib.Core.Bool.{Bool, true, false, not, ◌&&◌, ◌||◌}
pub use mathlib.Core.Option.{Option, none, some}
pub use mathlib.Core.List.{List, [], ◌∷◌, ◌++◌, map, reverse}
pub use native.Mathlib.Omega.{arith}
