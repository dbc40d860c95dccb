-- ===== src/Base.antt =====
-- What the modules share: library names passed on, tests, lists over the native numbers, and the
-- JavaScript conventions (absent values, truthiness, ordered maps) that the frontend relies on.
pub mod Tests
pub mod Lists
pub mod Strings
pub mod Decimal
pub mod Split
pub mod Js
pub use Tests.*
unfoldable pub use Decimal.{decimal}
pub use Decimal.{decimal-injective}
pub use Split.{join-split, split-join, split-append}
unfoldable pub use Strings.*
pub use Lists.*
pub use Js.*
pub use Prim.Native.Nat.{ℕ, zero, suc, ◌+◌, ◌-◌, ◌*◌, ◌^◌, ◌≤◌, ◌<◌, min, max}
pub use Prim.Native.String.{String}
pub use mathlib.Core.Path.{◌≡◌, refl, sym, ap, subst, ◌∙◌}
pub use mathlib.Core.Logic.{◌≢◌, ◌↔◌, ◌⊎◌, inl, inr}
pub use mathlib.Core.Bool.{Bool, true, false, not, ◌&&◌, ◌||◌}
pub use mathlib.Core.Option.{Option, none, some}
pub use mathlib.Core.List.{List, [], ◌∷◌, ◌++◌, map, append_assoc, append-nil}
pub use native.Mathlib.Omega.{arith}
