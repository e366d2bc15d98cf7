-- ===== src/JsonPatch.antt =====
-- Patches of src/workflows/json-patch.ts: the operations, JSON pointers and their escapes, and the
-- copy of a value. An Error is named by what its message says.
pub mod Apply
pub mod Validate
pub mod Undo
pub mod Inverse
pub mod Target
pub mod Pointer
mod Tests
use pi_workflows.Json.{
  end, nil, null, field, cons, obj, arr, str, num, bool, is_finite, Json, Items, Fields,
}
use pi_workflows.Prelude.{
  ◌==◌, ◌>>◌, ◌>>=◌, ◌>>=◌, ◌^◌, ◌||◌, eqb, ◌+◌, ◌&&◌, not, ltb, [], ◌∷◌, true, throw, ok,
  if◌then◌else◌, false, code, ℕ, throw_if, split, same_char, String, Outcome, List, Char, Bool,
}

pub data PatchOperation : Type 0 where
  add replace test : (path : String) → Json → PatchOperation
  remove : (path : String) → PatchOperation
  move copy : (path from : String) → PatchOperation

pub data PatchError : Type 0 where
  not_finite not_an_array too_many_operations patch_too_large result_too_large : PatchError
  pointer_too_long bad_pointer bad_escape remove_root move_root move_inside test_failed : PatchError
  bad_index : String → PatchError
  missing_path : List String → PatchError
  bad_operation bad_value missing_value no_from : ℕ → PatchError
  unknown_field : ℕ → String → PatchError
  unknown_operation : String → PatchError

abbrev pub max_pointer_bytes : ℕ
max_pointer_bytes = 1024

abbrev char_bytes : ℕ → ℕ
char_bytes c = if ltb c 128 then 1 else if ltb c 2048 then 2 else if ltb c 65536 then 3 else 4

-- `Buffer.byteLength(text, "utf8")`
unfoldable pub byte_length : String → ℕ
byte_length String.[] = 0
byte_length (String.◌∷◌ c s) = char_bytes (code c) + byte_length s

abbrev pub tilde : Char
tilde = "~"

abbrev pub slash : Char
slash = "/"

-- /~(?![01])/ finds nothing.
abbrev is_escaped : String → Bool
is_escaped String.[] = false
is_escaped (String.◌∷◌ d s) = same_char d "0" || same_char d "1"

unfoldable pub has_good_escapes : String → Bool
has_good_escapes String.[] = true
has_good_escapes (String.◌∷◌ c s) = (not (same_char c tilde) || is_escaped s) && has_good_escapes s

-- `segment.replaceAll("~d", r)` for the digit `d`: after a match the search goes on behind it.
unfoldable pub replace_escape : (d r : Char) → String → String
replace_escape d r String.[] = String.[]
replace_escape d r (String.◌∷◌ c String.[]) = String.◌∷◌ c String.[]
replace_escape d r (String.◌∷◌ c (String.◌∷◌ e s)) =
    let behind = replace_escape d r s in
    let on = replace_escape d r (String.◌∷◌ e s) in
    if same_char c tilde && same_char e d then String.◌∷◌ r behind else String.◌∷◌ c on

-- `segment.replaceAll(c, "~d")`
unfoldable pub escape_char : (c d : Char) → String → String
escape_char c d String.[] = String.[]
escape_char c d (String.◌∷◌ e s) =
    let rest = escape_char c d s in
    if same_char e c then String.◌∷◌ tilde (String.◌∷◌ d rest) else String.◌∷◌ e rest

unfoldable pub unescape_segment : String → Outcome PatchError String
unfolding has_good_escapes replace_escape
unescape_segment s =
    if has_good_escapes s
    then ok (replace_escape "0" tilde (replace_escape "1" slash s))
    else throw bad_escape

unfoldable pub unescape_segments : List String → Outcome PatchError (List String)
unfolding unescape_segment
unescape_segments [] = ok []
unescape_segments (s ∷ ss) = do
  first ← unescape_segment s
  rest ← unescape_segments ss
  ok (first ∷ rest)

abbrev pub after_slash : String → Outcome PatchError String
after_slash String.[] = throw bad_pointer
after_slash (String.◌∷◌ c s) = if same_char c slash then ok s else throw bad_pointer

unfoldable pub parse_json_pointer : String → Outcome PatchError (List String)
unfolding byte_length unescape_segments split
parse_json_pointer pointer = do
  throw_if (ltb max_pointer_bytes (byte_length pointer)) pointer_too_long
  segments ←
      (if pointer == ""
        then ok []
        else (after_slash pointer >>= λ s. unescape_segments (split slash s)))
  ok segments

unfoldable pub escape_segment : String → String
unfolding escape_char
escape_segment s = escape_char slash "1" (escape_char tilde "0" s)

abbrev pub join_text : String → String → String
join_text String.[] t = t
join_text (String.◌∷◌ c s) t = String.◌∷◌ c (join_text s t)

-- The segments, each behind a `/`: "/" + join("/").
unfoldable pub encode_json_pointer : List String → String
unfolding escape_segment
encode_json_pointer [] = String.[]
encode_json_pointer (s ∷ ss) =
    String.◌∷◌ slash (join_text (escape_segment s) (encode_json_pointer ss))

-- A double with the sign bit alone is -0.
abbrev clone_number : ℕ → Outcome PatchError Json
clone_number n =
    if is_finite n then ok (num (if eqb n (2 ^ 63) then 0 else n)) else throw not_finite

unfoldable mutual
  pub clone_json : Json → Outcome PatchError Json
  clone_json null = ok null
  clone_json (bool b) = ok (bool b)
  clone_json (str s) = ok (str s)
  clone_json (num n) = clone_number n
  clone_json (arr vs) = clone_items vs >>= λ copies. ok (arr copies)
  clone_json (obj fs) = clone_fields fs >>= λ copies. ok (obj copies)

  pub clone_items : Items → Outcome PatchError Items
  clone_items nil = ok nil
  clone_items (cons v vs) =
      clone_json v >>= λ first. clone_items vs >>= λ rest. ok (cons first rest)

  pub clone_fields : Fields → Outcome PatchError Fields
  clone_fields end = ok end
  clone_fields (field k v fs) =
      clone_json v >>= λ first. clone_fields fs >>= λ rest. ok (field k first rest)
