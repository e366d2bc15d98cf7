-- ===== src/Json.antt =====
-- JSON values, the data that flows between the nodes of a workflow (src/state/json.ts, JsonValue),
-- and how JavaScript reads a member of one. A missing property, `undefined`, is `none`.
-- A number is the bit pattern of its IEEE 754 double.
mod Number
pub mod Canonical
pub mod Equality
unfoldable pub use Number.{is_finite, double_of, parse_index, safe_natural}
use pi_workflows.Prelude.{
  ℕ, zero, suc, String, Option, none, some, Bool, List, [], ◌∷◌, if◌then◌else◌, ◌==◌, Assoc, length,
}

mutual
  pub data Json : Type 0 where
    null : Json
    bool : Bool → Json
    num : ℕ → Json
    str : String → Json
    arr : Items → Json
    obj : Fields → Json

  pub data Items : Type 0 where
    nil : Items
    cons : Json → Items → Items

  pub data Fields : Type 0 where
    end : Fields
    field : String → Json → Fields → Fields

unfoldable pub items : Items → List Json
items nil = []
items (cons v vs) = v ∷ items vs

unfoldable pub get_field : String → Fields → Option Json
get_field k end = none
get_field k (field j v fs) = if j == k then some v else get_field k fs

abbrev item_at : Items → ℕ → Option Json
item_at nil i = none
item_at (cons v vs) zero = some v
item_at (cons v vs) (suc i) = item_at vs i

abbrev item_at? : Items → Option ℕ → Option Json
item_at? vs none = none
item_at? vs (some i) = item_at vs i

-- `(current as Record<string, unknown>)[key]`, with `undefined` where `current` is no object.
-- The members that a value inherits from its prototype are left out: on an object none of them is
-- a scalar, so a switch refuses them as it refuses `undefined`.
unfoldable pub get_member : Option Json → String → Option Json
unfolding items double_of parse_index get_field
get_member (some (arr vs)) key =
    if key == "length"
    then some (num (double_of (length (items vs))))
    else item_at? vs (parse_index key)
get_member (some (obj fs)) key = get_field key fs
get_member _ key = none

-- `value[key]` where the test `typeof … === "string"` follows.
abbrev pub as_text : Option Json → Option String
as_text (some (str s)) = some s
as_text _ = none

abbrev pub as_number : Option Json → Option ℕ
as_number (some (num n)) = some n
as_number _ = none
