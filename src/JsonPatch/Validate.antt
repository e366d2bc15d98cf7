-- ===== src/JsonPatch/Validate.antt =====
-- The validation of an unchecked patch and its application, from src/workflows/json-patch.ts.
-- `canonical_bytes` is the length in bytes of the text that JSON.stringify makes of a value.
use pi_workflows.Prelude.{
  suc, elem, ◌==◌, throw, [], ◌∷◌, some, ok, none, ltb, if◌then◌else◌, ℕ, throw_if, or_throw,
  String, Outcome, Option, List, ◌>>◌, ◌>>=◌,
}
use pi_workflows.JsonPatch.{
  remove, move, copy, test, replace, add, unknown_operation, unknown_field, too_many_operations,
  result_too_large, patch_too_large, not_an_array, no_from, missing_value, bad_value, bad_operation,
  PatchOperation, PatchError, parse_json_pointer, clone_json,
}
use pi_workflows.Json.{
  end, str, field, cons, arr, obj, nil, get_field, as_text, Json, Items, Fields,
}
use pi_workflows.JsonPatch.Apply.{size, apply_json_patch_operation}

abbrev pub max_operations : ℕ
max_operations = 256

abbrev pub max_patch_bytes : ℕ
max_patch_bytes = 65536

abbrev pub max_settings_bytes : ℕ
max_settings_bytes = 262144

unfoldable pub find_unknown : List String → Fields → Option String
find_unknown allowed end = none
find_unknown allowed (field k v fs) =
    let rest = find_unknown allowed fs in if elem k allowed then rest else some k

unfoldable pub assert_exact_fields : Fields → List String → ℕ → Outcome PatchError (Unit {0})
unfolding find_unknown
assert_exact_fields value allowed index = elim (find_unknown allowed value) [
  | none ↦ ok tt
  | some key ↦ throw (unknown_field index key)
]

-- cloneJsonValue: whatever the copy throws becomes one message.
abbrev pub clone_json_value : Json → ℕ → Outcome PatchError Json
clone_json_value v index = elim (clone_json v) [ ok w ↦ ok w | throw e ↦ throw (bad_value index) ]

unfoldable pub validate_value : Fields → ℕ → Outcome PatchError Json
unfolding assert_exact_fields clone_json get_field
validate_value value index = do
  assert_exact_fields value ("op" ∷ "path" ∷ "value" ∷ []) index
  given ← or_throw (missing_value index) (get_field "value" value)
  clone_json_value given index

unfoldable pub validate_from : Fields → ℕ → Outcome PatchError String
unfolding assert_exact_fields parse_json_pointer get_field
validate_from value index = do
  assert_exact_fields value ("op" ∷ "path" ∷ "from" ∷ []) index
  from ← or_throw (no_from index) (as_text (get_field "from" value))
  segments ← parse_json_pointer from
  ok from

-- The `switch` on the name of the operation.
unfoldable pub validate_named : String → String → Fields → ℕ → Outcome PatchError PatchOperation
unfolding assert_exact_fields validate_value validate_from
validate_named op path value index =
    let with_value = validate_value value index in
    let with_from = validate_from value index in
    if op == "add"
    then (with_value >>= λ v. ok (add path v))
    else if op == "replace"
    then (with_value >>= λ v. ok (replace path v))
    else if op == "test"
    then (with_value >>= λ v. ok (test path v))
    else if op == "remove"
    then (assert_exact_fields value ("op" ∷ "path" ∷ []) index >> ok (remove path))
    else if op == "copy"
    then (with_from >>= λ from. ok (copy path from))
    else if op == "move"
    then (with_from >>= λ from. ok (move path from))
    else throw (unknown_operation op)

unfoldable pub validate_operation : Json → ℕ → Outcome PatchError PatchOperation
unfolding validate_named parse_json_pointer get_field
validate_operation (obj value) index = do
  op ← or_throw (bad_operation index) (as_text (get_field "op" value))
  path ← or_throw (bad_operation index) (as_text (get_field "path" value))
  segments ← parse_json_pointer path
  validate_named op path value index
validate_operation _ index = throw (bad_operation index)

unfoldable pub validate_operations : ℕ → Items → Outcome PatchError (List PatchOperation)
unfolding validate_operation
validate_operations index nil = ok []
validate_operations index (cons v vs) = do
  first ← validate_operation v index
  rest ← validate_operations (suc index) vs
  ok (first ∷ rest)

abbrev value_operation : String → String → Json → Json
value_operation op path v =
    obj (field "op" (str op) (field "path" (str path) (field "value" v end)))

abbrev from_operation : String → String → String → Json
from_operation op path from =
    obj (field "op" (str op) (field "path" (str path) (field "from" (str from) end)))

unfoldable pub operation_json : PatchOperation → Json
operation_json (add path v) = value_operation "add" path v
operation_json (replace path v) = value_operation "replace" path v
operation_json (test path v) = value_operation "test" path v
operation_json (remove path) = obj (field "op" (str "remove") (field "path" (str path) end))
operation_json (copy path from) = from_operation "copy" path from
operation_json (move path from) = from_operation "move" path from

unfoldable pub patch_items : List PatchOperation → Items
unfolding operation_json
patch_items [] = nil
patch_items (op ∷ ops) = cons (operation_json op) (patch_items ops)

unfoldable pub apply_operations : List PatchOperation → Json → Outcome PatchError Json
unfolding apply_json_patch_operation
apply_operations [] document = ok document
apply_operations (op ∷ ops) document =
    apply_json_patch_operation document op >>= λ changed. apply_operations ops changed

module _ (canonical_bytes : Json → ℕ) where
  unfoldable pub validate_json_patch : Option Json → Outcome PatchError (List PatchOperation)
  unfolding validate_operations patch_items
  validate_json_patch (some (arr vs)) = do
    throw_if (ltb max_operations (size vs)) too_many_operations
    patch ← validate_operations 1 vs
    throw_if (ltb max_patch_bytes (canonical_bytes (arr (patch_items patch)))) patch_too_large
    ok patch
  validate_json_patch _ = throw not_an_array

  unfoldable pub apply_json_patch : Json → Option Json → Outcome PatchError Json
  unfolding validate_json_patch clone_json apply_operations
  apply_json_patch document value = do
    patch ← validate_json_patch value
    start ← clone_json document
    result ← apply_operations patch start
    throw_if (ltb max_settings_bytes (canonical_bytes result)) result_too_large
    ok result
