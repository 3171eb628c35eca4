-- ===== src/Base.antt =====
-- The names that the other modules share: library names, Boolean tests, lists, results, texts and
-- the tables that stand for the service's SQL tables.
mod Tests
mod Results
mod Lists
mod Texts
mod Tables
mod Counts
mod Rows
pub use Tests.*
pub use Results.*
pub use Lists.*
unfoldable pub use Texts.*
unfoldable pub use Tables.*
pub use Counts.*
pub use Rows.*
pub use Prim.Native.Nat.{ℕ, zero, suc, ◌+◌, ◌-◌, ◌*◌, ◌/◌, ◌%◌, ◌^◌, ◌≤◌, ◌<◌, min, max}
pub use mathlib.Core.Path.{◌≡◌, refl, sym, ap, ◌∙◌, subst}
pub use mathlib.Core.Logic.{◌≢◌, ◌↔◌, ◌⊎◌, inl, inr}
pub use mathlib.Core.Bool.{Bool, true, false, not, ◌&&◌, ◌||◌}
pub use mathlib.Core.Option.{Option, none, some}
pub use mathlib.Core.List.{List, [], ◌∷◌, ◌++◌, map}
pub use native.Mathlib.Omega.{arith}
