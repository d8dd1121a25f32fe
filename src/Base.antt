-- ===== src/Base.antt =====
-- What every module shares: library names passed on, Boolean tests, lists measured by native
-- numbers, the outcome of code that can panic, machine words, and association lists.
mod Tests
mod Lists
mod Panics
mod Words
mod Maps
pub mod Slices
pub mod Texts
pub mod Bits
pub use Tests.*
pub use Lists.*
pub use Panics.*
pub use Words.*
unfoldable pub use Maps.{lookup, insert, erase}
pub use Maps.{Dict, lookup-insert, lookup-erase_ne}
pub use Prim.Native.Nat.{ℕ, zero, suc, ◌+◌, ◌-◌, ◌*◌, ◌/◌, ◌%◌, ◌^◌, ◌≤◌, ◌<◌}
pub use mathlib.Core.Path.{◌≡◌, refl, sym, ap, ◌∙◌}
pub use mathlib.Core.Logic.{◌≢◌, ◌↔◌, ◌⊎◌, inl, inr}
unfoldable pub use mathlib.Core.Logic.{ite}
pub use mathlib.Core.Logic.{if_pos, if_neg}
pub use mathlib.Core.Bool.{Bool, true, false, ◌&&◌, ◌||◌, not}
pub use mathlib.Core.Option.{Option, none, some}
pub use mathlib.Core.List.{List, [], ◌∷◌, ◌++◌, map}
pub use native.Mathlib.Omega.{arith}
unfoldable pub use native.Mathlib.Decide.{dec_lt, dec_le, ℕ_discrete}
