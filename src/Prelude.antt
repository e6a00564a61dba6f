-- ===== src/Prelude.antt =====
-- Names that the other modules share: those of the libraries, and the tests, lists, integers, bits
-- and results that the components have in common.
mod Tests
mod Lists
mod Sublists
mod Bytes
pub mod Map
pub mod Int
pub mod Float
pub mod Bits
pub mod Result
pub mod Decimal
pub use Tests.*
pub use Lists.*
pub use Sublists.*
pub use Bytes.*
pub use Prim.Native.Nat.{ℕ, zero, suc, ◌+◌, ◌-◌, ◌*◌, ◌/◌, ◌%◌, ◌^◌, ◌≤◌, ◌<◌}
pub use mathlib.Core.Path.{◌≡◌, refl, sym, ap, ◌∙◌}
pub use mathlib.Core.Logic.{◌≢◌, ◌↔◌, ◌⊎◌, inl, inr}
pub use mathlib.Core.Bool.{Bool, true, false, not, ◌&&◌, ◌||◌}
pub use mathlib.Core.Option.{Option, none, some}
pub use mathlib.Core.List.{List, [], ◌∷◌, ◌++◌, map, reverse}
pub use native.Mathlib.Omega.{arith}
