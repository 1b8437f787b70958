-- ===== src/Prelude.antt =====
-- Names that every module of the library shares: the libraries', passed on, and those of the
-- children (tests on numbers, lists, equality, dictionaries; integers and effects by their path).
mod Tests
mod Lists
mod Equality
pub mod Int
pub mod Dict
pub mod Effect
pub mod Triples
mod Strings
pub mod Bytes
pub mod Table
pub use Tests.*
pub use Lists.*
pub use Equality.*
pub use Strings.*
pub use Prim.Native.Nat.{ℕ, zero, suc, ◌+◌, ◌-◌, ◌*◌, ◌/◌, ◌%◌, ◌^◌, ◌≤◌, ◌<◌}
pub use Prim.Native.String.{String}
pub use mathlib.Core.Path.{◌≡◌, refl, sym, ap, ◌∙◌, subst}
pub use mathlib.Core.Logic.{◌≢◌, ◌↔◌, ◌⊎◌, inl, inr}
pub use mathlib.Core.Bool.{Bool, true, false, ◌&&◌, ◌||◌, not}
pub use mathlib.Core.Option.{Option, none, some}
pub use mathlib.Core.List.{List, [], ◌∷◌, ◌++◌, map}
pub use native.Mathlib.Omega.{arith}
