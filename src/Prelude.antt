-- ===== src/Prelude.antt =====
-- The names that all modules share: the libraries', passed on, and those of the children
-- (conditionals and tests, signed numbers, lists, text maps, outcomes).
mod Tests
mod Int
mod Lists
mod Outcomes
mod Maps
pub use Tests.*
pub use Int.*
pub use Lists.*
pub use Outcomes.*
pub use Maps.*
unfoldable pub use Tests.{String_discrete}
unfoldable pub use Int.{ℤ_discrete}
pub use Prim.Native.Nat.{ℕ, zero, suc, ◌+◌, ◌-◌, ◌*◌, ◌/◌, ◌%◌, ◌^◌, ◌≤◌, ◌<◌}
pub use Prim.Native.String.{String, ◌++◌ as ◌<>◌}
pub use mathlib.Core.Path.{◌≡◌, refl, sym, ap, ◌∙◌, subst}
pub use mathlib.Core.Logic.{◌≢◌, ◌↔◌, ◌⊎◌, inl, inr}
pub use mathlib.Core.Bool.{Bool, true, false, not, ◌&&◌, ◌||◌, false≢true}
pub use mathlib.Core.Option.{Option, none, some}
pub use mathlib.Core.List.{List, [], ◌∷◌, ◌++◌, map}
pub use native.Mathlib.Omega.{arith}
pub use text.Mathlib.Text.{◌==◌}
pub use text.Mathlib.TextEquality.{eq_iff}
pub use text.Mathlib.TextPositions.{eq_refl}
