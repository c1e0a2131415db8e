-- ===== src/Base.antt =====
-- What the other modules share: library names passed on, Boolean tests and lists over the native
-- numbers, signed integers, texts as code points, sorting as Python sorts, and tables of rows with
-- the queries that the managers build from `filter`, `update`, `count` and `get`.
pub mod Int
pub mod Sort
pub mod Keys
pub mod Table
pub mod Enumerate
pub mod First
pub mod Text
pub mod Eq
pub mod Order
mod Tests
mod Lists
pub use Tests.*
pub use Lists.*
pub use Prim.Native.Nat.{ℕ, zero, suc, ◌+◌, ◌-◌, ◌*◌, ◌/◌, ◌%◌, ◌≤◌, ◌<◌}
pub use mathlib.Core.Path.{◌≡◌, refl, sym, ap, ◌∙◌}
pub use mathlib.Core.Logic.{◌≢◌, ◌↔◌, ◌⊎◌, inl, inr}
pub use mathlib.Core.Bool.{Bool, true, false, not, ◌&&◌, ◌||◌}
pub use mathlib.Core.Option.{Option, none, some}
pub use mathlib.Core.List.{List, [], ◌∷◌, ◌++◌, map}
pub use native.Mathlib.Omega.{arith}
