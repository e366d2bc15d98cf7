-- ===== src/Json/Number.antt =====
-- Doubles by their bits: the test for a finite one, and the double of a small natural number.
-- Array indices as texts: the pattern /^(0|[1-9][0-9]*)$/ and the number that it stands for.

use pi_workflows.Prelude.{
  ℕ, zero, suc, ◌+◌, ◌-◌, ◌*◌, ◌/◌, ◌%◌, ◌^◌, String, code, Option, none, some, Bool, not, ◌&&◌,
  if◌then◌else◌, leb, eqb, ◌==◌, ◌≡◌, refl,
}

-- `Number.isFinite`: the exponent's eleven bits are not all set.
unfoldable pub is_finite : ℕ → Bool
is_finite n = not (eqb (n / 2 ^ 52 % 2048) 2047)

-- The double of `n < 2 ^ 53`: `e` is the largest exponent, at most `fuel`, with `2 ^ e ≤ n`.
double_from : ℕ → ℕ → ℕ
double_from zero n = 1023 * 2 ^ 52
double_from (suc e) n =
    let rest = double_from e n in
    if leb (2 ^ suc e) n then (1023 + suc e) * 2 ^ 52 + (n - 2 ^ suc e) * 2 ^ (52 - suc e) else rest

unfoldable pub double_of : ℕ → ℕ
unfolding double_from
double_of n = if eqb n 0 then 0 else double_from 52 n

abbrev is_digit : ℕ → Bool
is_digit c = leb 48 c && leb c 57

digits : ℕ → String → Option ℕ
digits n String.[] = some n
digits n (String.◌∷◌ c s) =
    let rest = digits (n * 10 + (code c - 48)) s in if is_digit (code c) then rest else none

unfoldable pub parse_index : String → Option ℕ
unfolding digits
parse_index String.[] = none
parse_index (String.◌∷◌ c s) =
    if eqb (code c) 48
    then (if s == "" then some 0 else none)
    else (if is_digit (code c) then digits (code c - 48) s else none)

-- The value of a double that is a whole number from 0 to 2 ^ 53 - 1: the test
-- `Number.isSafeInteger(value) && value >= 0`. Below, `mantissa` has its leading bit.
abbrev whole_part : ℕ → ℕ → Option ℕ
whole_part exponent mantissa =
    if eqb (mantissa % 2 ^ (1075 - exponent)) 0
    then some (mantissa / 2 ^ (1075 - exponent))
    else none

unfoldable pub safe_natural : ℕ → Option ℕ
safe_natural n =
    if eqb (n % 2 ^ 63) 0
    then some 0
    else if leb 1023 (n / 2 ^ 52) && leb (n / 2 ^ 52) 1075
    then whole_part (n / 2 ^ 52) (2 ^ 52 + n % 2 ^ 52)
    else none

safe_42 : safe_natural (double_of 42) ≡ some 42
unfolding safe_natural double_of
safe_42 = refl

unsafe_half : safe_natural 0x3fe0000000000000 ≡ none
unfolding safe_natural
unsafe_half = refl

one_is : double_of 1 ≡ 0x3ff0000000000000
unfolding double_of
one_is = refl

five_is : double_of 5 ≡ 0x4014000000000000
unfolding double_of
five_is = refl

index_42 : parse_index "42" ≡ some 42
unfolding parse_index
index_42 = refl

index_padded : parse_index "007" ≡ none
unfolding parse_index
index_padded = refl
