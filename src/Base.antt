-- ===== src/Base.antt =====
-- The names that the other modules share: the libraries', passed on, and those of the children.
mod Tests
mod Lists
mod Text
mod Fallible
mod Map
mod Sort
mod Duplicates
mod Dedup
mod Issues
mod Guards
mod Sums
mod Same
unfoldable pub use Dedup.*
pub use Issues.*
pub use Guards.*
pub use Sums.*
pub use Same.*
pub use Tests.*
pub use Lists.*
unfoldable pub use Text.*
pub use Fallible.*
unfoldable pub use Map.*
unfoldable pub use Sort.*
unfoldable pub use Duplicates.*
pub use Prim.Native.Nat.{ℕ, zero, suc, ◌+◌, ◌-◌, ◌≤◌, ◌<◌}
pub use mathlib.Core.Path.{◌≡◌, refl, sym, ap, ◌∙◌, subst}
pub use mathlib.Core.Logic.{◌≢◌, ◌↔◌, ◌⊎◌, inl, inr}
pub use mathlib.Core.Bool.{Bool, true, false, not, ◌&&◌, ◌||◌}
pub use mathlib.Core.Option.{Option, none, some}
pub use mathlib.Core.List.{List, [], ◌∷◌, ◌++◌, map, Memᴰ}
pub use native.Mathlib.Omega.{arith}
