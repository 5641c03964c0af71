-- ===== src/Base.antt =====
-- Names that every module shares: the libraries', passed on, and helpers on tests, byte strings,
-- lists and outcomes. It models no code of the repository but C++ language and library basics.
pub mod Tests
pub mod Lists
pub mod Outcomes
pub mod Xor
unfoldable pub use Tests.*
pub use Lists.*
pub use Xor.{bit_xor_twice}
pub use Outcomes.*
pub use Prim.Native.Nat.{ℕ, zero, suc, ◌+◌, ◌-◌, ◌*◌, ◌/◌, ◌%◌, ◌^◌, ◌≤◌, ◌<◌, min}
pub use mathlib.Core.Path.{◌≡◌, refl, sym, ap, subst, ◌∙◌}
pub use mathlib.Core.Logic.{◌≢◌, ◌↔◌, ◌⊎◌, inl, inr}
pub use mathlib.Core.Bool.{Bool, true, false, not, ◌&&◌, ◌||◌}
pub use mathlib.Core.Option.{Option, none, some}
pub use mathlib.Core.List.{List, [], ◌∷◌, ◌++◌, map, append-nil, append_assoc}
pub use Prim.Native.Nat.{bit_xor}
pub use native.Mathlib.Omega.{arith}
