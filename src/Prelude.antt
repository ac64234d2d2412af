-- ===== src/Prelude.antt =====
-- The names that the other modules share: the libraries' names passed on, the Boolean tests on
-- numbers, the equality interface, lists measured by native numbers, and Go's maps.
mod Tests
mod Lists
mod Equality
pub mod Dict
pub mod Int
pub mod Bytes
pub use Tests.*
pub use Lists.*
pub use Equality.*
pub use Prim.Native.Nat.{ℕ, zero, suc, ◌+◌, ◌-◌, ◌*◌, ◌/◌, ◌%◌, ◌^◌, ◌≤◌, ◌<◌}
pub use Prim.Native.String.{String}
pub use mathlib.Core.Path.{◌≡◌, refl, sym, ap, ◌∙◌}
pub use mathlib.Core.Logic.{◌≢◌, ◌↔◌, ◌⊎◌, inl, inr}
pub use mathlib.Core.Bool.{Bool, true, false, not, ◌&&◌, ◌||◌}
pub use mathlib.Core.Option.{Option, none, some}
pub use mathlib.Core.List.{List, [], ◌∷◌, ◌++◌, map}
pub use native.Mathlib.Omega.{arith}
