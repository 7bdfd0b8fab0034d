-- ===== src/Base.antt =====
-- The names that the other modules share: the libraries', passed on, and those of ten children.
mod Tests
mod Lists
mod Search
mod Keys
mod Sort
mod Texts
mod Maps
mod Rows
mod Trim
mod Kept
pub use Tests.*
unfoldable pub use Sort.*
pub use Lists.*
pub use Search.*
pub use Keys.*
unfoldable pub use Texts.*
unfoldable pub use Maps.*
pub use Rows.*
pub use Trim.*
pub use Kept.*
pub use Prim.Native.Nat.{ℕ, zero, suc, ◌+◌, ◌-◌, ◌*◌, ◌/◌, ◌%◌, ◌^◌, ◌≤◌, ◌<◌}
pub use Prim.Native.String.{String}
pub use mathlib.Core.Path.{◌≡◌, refl, sym, ap, ap₂, subst, ◌∙◌, ◌≡⟨◌⟩◌, ◌∎}
pub use mathlib.Core.Logic.{◌≢◌, ◌↔◌, ◌⊎◌, inl, inr}
pub use mathlib.Core.Bool.{Bool, true, false, not, ◌&&◌, ◌||◌}
pub use mathlib.Core.Option.{Option, none, some}
pub use mathlib.Core.List.{List, [], ◌∷◌, ◌++◌, map, append-nil, append_assoc, map-append}
pub use native.Mathlib.Omega.{arith}
