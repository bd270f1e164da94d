-- ===== src/Base.antt =====
-- The names that the other modules share: the libraries', passed on, and those of the children.
mod Tests
mod Lists
pub mod Text
pub mod Mapping
pub mod Words
mod Errors
mod Float
mod Int
pub use Tests.*
pub use Lists.*
pub use Errors.*
pub use Int.*
pub use Float.*
unfoldable pub use Text.{◌==◌, strip, lower, has_substring}
pub use Text.{
  eq_iff, eq_refl, contains, contains-Elem, Elem-contains, contains-false, contains-append,
  is_empty,
}
unfoldable pub use Mapping.{lookup, insert, set_default}
pub use Mapping.{
  Dict, has_key-insert, has_key-set_default, has_key, lookup-nil, lookup-cons, lookup-insert,
  lookup-set_default, dict_laws,
}
unfoldable pub use Words.{concat, text_length, text_take, join, split, str}
pub use Words.{text_length-concat, text_length-text_take}
pub use Prim.Native.Nat.{ℕ, zero, suc, ◌+◌, ◌-◌, ◌*◌, ◌≤◌, ◌<◌, min}
pub use Prim.Native.String.{String}
pub use mathlib.Core.Path.{◌≡◌, refl, sym, ap, subst, ◌∙◌}
pub use mathlib.Core.Logic.{◌≢◌, ◌↔◌, ◌⊎◌, inl, inr}
pub use mathlib.Core.Bool.{Bool, true, false, not, ◌&&◌, ◌||◌}
pub use mathlib.Core.Option.{Option, none, some}
pub use mathlib.Core.List.{List, [], ◌∷◌, ◌++◌, map}
pub use native.Mathlib.Omega.{arith}
