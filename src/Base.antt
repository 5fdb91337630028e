-- ===== src/Base.antt =====
-- Names that every module shares: the libraries', passed on, and those of the children.
mod Tests
mod Lists
mod Dict
mod Bits
mod Text
mod Decimal
mod Strings
mod Int
mod Split
mod Sort
mod Words
pub mod Result
mod Trim
pub use Tests.*
pub use Trim.*
pub use Lists.*
pub use Dict.*
unfoldable pub use Bits.*
unfoldable pub use Text.*
unfoldable pub use Decimal.*
unfoldable pub use Strings.*
unfoldable pub use Int.*
unfoldable pub use Words.*
unfoldable pub use Split.*
unfoldable pub use Sort.*
pub use Prim.Native.Nat.{ℕ, zero, suc, ◌+◌, ◌-◌, ◌*◌, ◌/◌, ◌%◌, ◌^◌, ◌≤◌, ◌<◌, bit_and, bit_or}
pub use Prim.Native.String.{String}
pub use mathlib.Core.Bool.{Bool, true, false, not, ◌&&◌, ◌||◌}
pub use mathlib.Core.List.{List, [], ◌∷◌, ◌++◌, map}
pub use mathlib.Core.Logic.{◌≢◌, ◌↔◌, ◌⊎◌, inl, inr}
pub use mathlib.Core.Option.{Option, none, some}
pub use mathlib.Core.Path.{◌≡◌, refl, sym, ap, subst, ◌∙◌}
pub use native.Mathlib.Omega.{arith}
