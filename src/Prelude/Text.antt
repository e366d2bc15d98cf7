-- ===== src/Prelude/Text.antt =====
-- Texts taken apart by characters: `startsWith` with the `slice` that follows it, and `split`.
use Prim.Native.Nat.{ℕ, suc, compare, Ordering}
use Prim.Native.Char.{Char, code}
use Prim.Native.String.{String}
use mathlib.Core.Bool.{Bool, true, false, ◌||◌, ◌&&◌}
use text.Mathlib.Text.{◌==◌}
use pi_workflows.Prelude.Tests.{leb, eqb}
use mathlib.Core.Option.{Option, none, some}
use mathlib.Core.List.{List, [], ◌∷◌}

abbrev pub same_char : Char → Char → Bool
same_char a b = elim (compare (code a) (code b)) [ Ordering.eq ↦ true | _ ↦ false ]

-- `s.startsWith(p)`, and then `s.slice(p.length)`.
unfoldable pub strip_prefix : String → String → Option String
strip_prefix String.[] s = some s
strip_prefix (String.◌∷◌ c p) String.[] = none
strip_prefix (String.◌∷◌ c p) (String.◌∷◌ d s) = elim (same_char c d) [
  | true ↦ strip_prefix p s
  | false ↦ none
]

abbrev pub push_first : Char → List String → List String
push_first c [] = (String.◌∷◌ c String.[]) ∷ []
push_first c (s ∷ ss) = (String.◌∷◌ c s) ∷ ss

abbrev next_part : Bool → Char → List String → List String
next_part true c parts = String.[] ∷ parts
next_part false c parts = push_first c parts

-- `s.split(separator)` for a separator of one character.
unfoldable pub split : Char → String → List String
split sep String.[] = String.[] ∷ []
split sep (String.◌∷◌ c s) = next_part (same_char c sep) c (split sep s)

-- The characters that `trim` removes.
abbrev is_space : ℕ → Bool
is_space c =
    (leb 9 c && leb c 13)
    || eqb c 32
    || eqb c 160
    || eqb c 5760
    || (leb 8192 c && leb c 8202)
    || eqb c 8232
    || eqb c 8233
    || eqb c 8239
    || eqb c 8287
    || eqb c 12288
    || eqb c 65279

-- `s.trim().length === 0`
unfoldable pub is_blank : String → Bool
is_blank String.[] = true
is_blank (String.◌∷◌ c s) = is_space (code c) && is_blank s

-- A regular expression that starts with one class of characters and goes on with another.
unfoldable pub each_char : (ℕ → Bool) → String → Bool
each_char p String.[] = true
each_char p (String.◌∷◌ c s) = p (code c) && each_char p s

unfoldable pub matches_class : (first rest : ℕ → Bool) → String → Bool
unfolding each_char
matches_class first rest String.[] = false
matches_class first rest (String.◌∷◌ c s) = first (code c) && each_char rest s

unfoldable pub text_length : String → ℕ
text_length String.[] = 0
text_length (String.◌∷◌ c s) = suc (text_length s)

unfoldable pub ends_with : String → String → Bool
ends_with String.[] p = p == ""
ends_with (String.◌∷◌ c s) p = (String.◌∷◌ c s) == p || ends_with s p

abbrev pub is_letter : ℕ → Bool
is_letter c = (leb 65 c && leb c 90) || (leb 97 c && leb c 122)

abbrev pub is_digit_code : ℕ → Bool
is_digit_code c = leb 48 c && leb c 57

-- The texts one after the other.
unfoldable pub append : String → String → String
append String.[] t = t
append (String.◌∷◌ c s) t = String.◌∷◌ c (append s t)
