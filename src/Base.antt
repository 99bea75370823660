-- ===== src/Base.antt =====
-- The names that the other modules share: the libraries', passed on, Boolean tests, families
-- indexed by a thread or a semaphore, lists measured by native numbers, and runs of C code.
mod Tests
mod Lists
mod Family
mod Small
pub mod Int
pub mod Run
pub mod Word
pub mod Long
pub mod Bytes
pub use Tests.*
pub use Lists.*
pub use Family.*
pub use Small.*
pub use Prim.Native.Nat.{ℕ, zero, suc, ◌+◌, ◌-◌, ◌*◌, ◌/◌, ◌%◌, ◌^◌, ◌≤◌, ◌<◌, max}
pub use mathlib.Core.Path.{◌≡◌, refl, sym, ap, ◌∙◌}
pub use mathlib.Core.Logic.{◌≢◌, ◌↔◌, ◌⊎◌, inl, inr}
pub use mathlib.Core.Bool.{Bool, true, false, not, ◌&&◌, ◌||◌}
pub use mathlib.Core.Option.{Option, none, some}
pub use mathlib.Core.List.{List, [], ◌∷◌, ◌++◌, map}
pub use native.Mathlib.Omega.{arith}
