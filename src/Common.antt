-- ===== src/Common.antt =====
-- The names that the other modules share: the libraries', passed on, and those of the children.
mod Tests
mod Lists
mod Keys
mod Sets
mod Lookup
mod Order
mod Strings
mod Texts
pub use Tests.*
pub use Lists.*
pub use Keys.*
pub use Sets.*
pub use Lookup.*
pub use Order.{
  IsOrdered, order_by-Has, Has-order_by, order_by-IsOrdered, take-first, take-Has, take-IsOrdered,
  take-short, length-take-le, length-order_by, All-insert_by,
}
unfoldable pub use Order.{order_by, insert_by}
unfoldable pub use Strings.*
pub use Texts.*
pub use Prim.Native.Nat.{ℕ, zero, suc, ◌+◌, ◌-◌, ◌*◌, ◌^◌, ◌≤◌, ◌<◌, min}
pub use mathlib.Core.Path.{◌≡◌, refl, sym, ap, ◌∙◌}
pub use mathlib.Core.Logic.{◌≢◌, ◌↔◌, ◌⊎◌, inl, inr}
pub use mathlib.Core.Bool.{Bool, true, false, not, ◌&&◌, ◌||◌}
pub use mathlib.Core.Option.{Option, none, some}
pub use mathlib.Core.List.{List, [], ◌∷◌, ◌++◌, map}
pub use native.Mathlib.Omega.{arith}
