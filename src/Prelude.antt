-- ===== src/Prelude.antt =====
-- The names that the other modules share: the libraries', passed on, and those of the children.
mod Tests
mod Words
mod Partial
mod Maps
mod Sums
mod Sorting
pub use Tests.*
pub use Words.*
pub use Partial.*
pub use Maps.*
pub use Sums.*
pub use Sorting.*
unfoldable pub use Partial.{for_each}
unfoldable pub use Maps.{lookup, upsert, insert, delete}
unfoldable pub use Sums.{sum_by}
unfoldable pub use Sorting.{insert_sorted, sort_slice}
pub use Prim.Native.Nat.{ℕ, zero, suc, ◌+◌, ◌-◌, ◌*◌, ◌/◌, ◌%◌, ◌^◌, ◌≤◌, ◌<◌, min}
pub use Prim.Native.String.{String}
pub use mathlib.Core.Path.{◌≡◌, refl, sym, ap, ◌∙◌, subst}
pub use mathlib.Core.Logic.{◌≢◌, ◌↔◌, ◌⊎◌, inl, inr}
pub use mathlib.Core.Bool.{Bool, true, false, ◌&&◌, ◌||◌, not}
pub use mathlib.Core.Option.{Option, none, some}
pub use mathlib.Core.List.{List, [], ◌∷◌, ◌++◌, map}
pub use native.Mathlib.Omega.{arith}
