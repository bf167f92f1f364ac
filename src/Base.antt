-- ===== src/Base.antt =====
-- The names that the other modules share: the library's, passed on, and those of two children.
mod Equality
mod Effects
mod Ensures
mod Framing
mod Cost
mod Panics
mod Progress
unfoldable pub use Equality.*
pub use Effects.*
pub use Ensures.*
pub use Framing.*
pub use Cost.*
pub use Panics.*
pub use Progress.*
pub use Prim.Native.Nat.{ℕ, zero, suc, ◌+◌, ◌≤◌}
pub use Prim.Native.String.{String, ◌++◌ as ◌<>◌}
pub use mathlib.Core.Path.{◌≡◌, refl, sym, ap, ap₂, subst, ◌∙◌}
pub use mathlib.Core.Logic.{◌≢◌, ◌↔◌, ◌⊎◌, inl, inr, ite}
pub use mathlib.Core.Bool.{Bool, true, false, not, ◌&&◌, ◌||◌}
pub use mathlib.Core.Option.{Option, none, some}
pub use mathlib.Core.List.{List, [], ◌∷◌, ◌++◌}
pub use native.Mathlib.Omega.{arith}
