-- ===== src/Prelude.antt =====
-- The names that every module shares: the libraries' names, passed on, and those of the child
-- modules. `Result` is a JavaScript computation that may throw; `Number` is a JavaScript number as
-- the codecs inspect it.
mod Tests
mod Lists
mod Int
mod Throw
mod Strings
pub mod All
pub mod Doubles
pub mod Floats
pub mod Maps
pub mod Sorting
pub mod Groups
pub mod Ordered
pub use Tests.*
pub use Lists.*
unfoldable pub use Int.*
pub use Throw.*
unfoldable pub use Strings.*
pub use Prim.Native.Nat.{ℕ, zero, suc, ◌+◌, ◌-◌, ◌*◌, ◌/◌, ◌%◌, ◌^◌, ◌≤◌, ◌<◌, min, max}
pub use Prim.Native.String.{String}
pub use mathlib.Core.Path.{◌≡◌, refl, sym, ap, ◌∙◌, subst}
pub use mathlib.Core.Logic.{◌≢◌, ◌↔◌, ◌⊎◌, inl, inr}
pub use mathlib.Core.Bool.{Bool, true, false, not, ◌&&◌, ◌||◌}
pub use mathlib.Core.Option.{Option, none, some}
pub use mathlib.Core.List.{List, [], ◌∷◌, ◌++◌, reverse, map, append_assoc, append-nil}
pub use native.Mathlib.Omega.{arith}
