-- ===== src/Common.antt =====
-- The names that the other modules share: the libraries' names, tests, lists, byte strings, and
-- the parts of Go's standard library that the source calls.
mod Tests
mod Lists
pub mod Search
mod Int
mod Tabulate
mod Splice
pub use Splice.*
pub use Tabulate.*
pub use Int.*
mod Wire
pub use Wire.*
pub use Tests.*
pub use Lists.*
pub use Prim.Native.Nat.{ℕ, zero, suc, ◌+◌, ◌-◌, ◌*◌, ◌/◌, ◌%◌, ◌^◌, ◌≤◌, ◌<◌, min, max}
pub use Prim.Native.String.{String}
pub use mathlib.Core.Path.{◌≡◌, refl, sym, ap, ap₂, ◌∙◌, subst, fun_ext}
pub use mathlib.Core.Logic.{◌≢◌, ◌↔◌, ◌⊎◌, inl, inr}
pub use mathlib.Core.Bool.{Bool, true, false, ◌&&◌, ◌||◌, not}
pub use mathlib.Core.Option.{Option, none, some}
pub use mathlib.Core.List.{List, [], ◌∷◌, ◌++◌, map, append-nil, append_assoc}
pub use native.Mathlib.Omega.{arith}
pub use native.Mathlib.Nat.{zero-add, add-zero, sub-zero}
unfoldable pub use native.Mathlib.Decide.{dec_lt, ℕ_discrete}
