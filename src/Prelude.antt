-- ===== src/Prelude.antt =====
-- The names that the other modules share: the library's, passed on, and the helpers of the
-- children, which no code of the repository stands behind but Python's and SQL's own operations.
mod Tests
mod Lists
mod Text
mod Raise
mod Digits
pub use Tests.*
pub use Lists.*
unfoldable pub use Text.{strip_prefix, has_prefix, split_dots, lower, upper, trim}
pub use Text.{strip_prefix-append, strip_prefix-none}
pub use Raise.*
unfoldable pub use Digits.{digit, digits, str_of}
pub use Digits.{code-digit}
pub use Prim.Native.Nat.{ℕ, zero, suc, ◌+◌, ◌-◌, ◌*◌, ◌/◌, ◌%◌, ◌≤◌, ◌<◌}
pub use Prim.Native.String.{String}
pub use mathlib.Core.Path.{◌≡◌, refl, sym, ap, ap₂, ◌∙◌}
pub use mathlib.Core.Logic.{◌≢◌, ◌↔◌, ◌⊎◌, inl, inr}
pub use mathlib.Core.Bool.{Bool, true, false, not, ◌&&◌, ◌||◌}
pub use mathlib.Core.Option.{Option, none, some}
pub use mathlib.Core.List.{List, [], ◌∷◌, ◌++◌, map}
pub use native.Mathlib.Omega.{arith}
pub use text.Mathlib.Text.{◌==◌ as eq_text}
pub use text.Mathlib.TextEquality.{eq_iff}
pub use text.Mathlib.TextPositions.{eq_refl}
