-- ===== src/Prelude.antt =====
-- The names that the other modules share: the libraries', passed on, and those of the children.
mod Tests
mod Lists
mod Throws
mod Text
mod Maps
pub use Tests.*
pub use Lists.*
pub use Throws.*
pub use Maps.{Assoc, lookup-insert, lookup-remove, has-insert, has-lookup, map_laws}
unfoldable pub use Maps.{lookup, has, insert, remove, keys, values}
unfoldable pub use Text.{
  strip_prefix, split, is_blank, each_char, matches_class, text_length, ends_with, append,
}
pub use Text.{push_first, same_char, is_letter, is_digit_code}
pub use Prim.Native.Nat.{ℕ, zero, suc, ◌+◌, ◌-◌, ◌*◌, ◌/◌, ◌%◌, ◌^◌, ◌≤◌, ◌<◌}
pub use Prim.Native.String.{String}
pub use Prim.Native.Char.{Char, code}
pub use mathlib.Core.Path.{◌≡◌, refl, sym, ap, ◌∙◌}
pub use mathlib.Core.Logic.{◌≢◌, ◌↔◌, ◌⊎◌, inl, inr}
pub use mathlib.Core.Bool.{Bool, true, false, not, ◌&&◌, ◌||◌}
pub use mathlib.Core.Option.{Option, none, some}
pub use mathlib.Core.List.{List, [], ◌∷◌, ◌++◌, map}
pub use native.Mathlib.Omega.{arith}
pub use text.Mathlib.Text.{◌==◌}
pub use text.Mathlib.TextEquality.{eq_iff}
