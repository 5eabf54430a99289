-- ===== src/Common.antt =====
-- What the other modules share: library names passed on, Boolean tests, lists over the native
-- numbers, machine words. It models no code of its own.
mod Tests
mod Lists
mod Words
mod Slots
pub use Tests.*
pub use Lists.*
pub use Words.*
pub use Slots.*
pub use Prim.Native.Nat.{ℕ, zero, suc, ◌+◌, ◌-◌, ◌*◌, ◌/◌, ◌%◌, ◌^◌, ◌≤◌, ◌<◌}
pub use mathlib.Core.Path.{◌≡◌, refl, sym, ap, ap₂, subst, ◌∙◌, fun_ext}
pub use mathlib.Core.Logic.{◌≢◌, ◌↔◌, ◌⊎◌, inl, inr}
pub use mathlib.Core.Bool.{Bool, true, false, not, ◌&&◌, ◌||◌}
pub use mathlib.Core.Option.{Option, none, some}
pub use mathlib.Core.List.{List, [], ◌∷◌, ◌++◌, map, tail, append-nil, append_assoc}
pub use native.Mathlib.Omega.{arith}
