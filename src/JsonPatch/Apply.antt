-- ===== src/JsonPatch/Apply.antt =====
-- The effect of a patch operation, from src/workflows/json-patch.ts. The code walks to the parent
-- of the target and changes it in place; a document is a tree that nothing else holds, so here
-- the changed parent is put back on the way.
use pi_workflows.Prelude.{
  ◌+◌, eqb, ◌||◌, ◌^◌, zero, ◌==◌, ◌&&◌, suc, some, not, ltb, leb, [], ◌∷◌, true, throw, ok, none,
  if◌then◌else◌, false, ℕ, throw_if, or_throw, is_some, String, Outcome, Option, List, Bool, ◌>>◌,
  ◌>>=◌,
}
use pi_workflows.JsonPatch.{
  PatchOperation, PatchError, parse_json_pointer, clone_json, add, replace, test, remove, move,
  copy, bad_index, missing_path, remove_root, move_root, move_inside, test_failed,
}
use pi_workflows.Json.{nil, end, obj, field, cons, arr, parse_index, get_field, Json, Items, Fields}
use pi_workflows.Json.Equality.{deep_equal}

-- parseArrayIndex: an index that is out of range gives `size + 1`.
abbrev pub index_within : ℕ → Bool → ℕ → ℕ
index_within size allow_end n =
    if ltb n (2 ^ 53) && leb n size && (allow_end || not (eqb n size)) then n else size + 1

unfoldable pub parse_array_index : String → ℕ → Bool → Outcome PatchError ℕ
unfolding parse_index
parse_array_index segment size allow_end =
    if allow_end && segment == "-" then ok size else elim (parse_index segment) [
      | none ↦ throw (bad_index segment)
      | some n ↦ ok (index_within size allow_end n)
    ]

abbrev pub size : Items → ℕ
size nil = 0
size (cons v vs) = suc (size vs)

abbrev pub item : Items → ℕ → Option Json
item nil i = none
item (cons v vs) zero = some v
item (cons v vs) (suc i) = item vs i

-- `array[i] = v`
abbrev pub set_item : Items → ℕ → Json → Items
set_item nil i w = nil
set_item (cons v vs) zero w = cons w vs
set_item (cons v vs) (suc i) w = cons v (set_item vs i w)

-- `array.splice(i, 0, v)`
abbrev pub insert_item : Items → ℕ → Json → Items
insert_item vs zero w = cons w vs
insert_item nil (suc i) w = cons w nil
insert_item (cons v vs) (suc i) w = cons v (insert_item vs i w)

-- `array.splice(i, 1)`
abbrev pub drop_item : Items → ℕ → Items
drop_item nil i = nil
drop_item (cons v vs) zero = vs
drop_item (cons v vs) (suc i) = cons v (drop_item vs i)

-- defineJsonProperty: an old key keeps its place.
unfoldable pub set_field : String → Json → Fields → Fields
set_field k w end = field k w end
set_field k w (field j v fs) =
    let rest = set_field k w fs in if j == k then field j w fs else field j v rest

unfoldable pub drop_field : String → Fields → Fields
drop_field k end = end
drop_field k (field j v fs) = let rest = drop_field k fs in if j == k then fs else field j v rest

abbrev pub is_field : String → Fields → Bool
is_field k fs = is_some (get_field k fs)

-- One step of resolveParent; `path` is the whole path, for the message.
unfoldable pub child : List String → String → Json → Outcome PatchError Json
unfolding parse_array_index get_field
child path segment (arr vs) = do
  index ← parse_array_index segment (size vs) false
  or_throw (missing_path path) (item vs index)
child path segment (obj fs) = or_throw (missing_path path) (get_field segment fs)
child path segment _ = throw (missing_path path)

unfoldable pub put_child : String → Json → Json → Json
unfolding set_field parse_index
put_child segment w (arr vs) = elim (parse_index segment) [
  | none ↦ arr vs
  | some i ↦ arr (set_item vs i w)
]
put_child segment w (obj fs) = obj (set_field segment w fs)
put_child segment w v = v

-- What an edit of the parent at a key leaves, with what it takes out.
abbrev pub Edit : Type 0
Edit = String → Json → Outcome PatchError (Json × Json)

-- The edit at the end of the path, with the parents put back.
unfoldable pub edit_parent :
    List String → Edit → String → List String → Json → Outcome PatchError (Json × Json)
unfolding child put_child
edit_parent path edit key [] v = edit key v
edit_parent path edit key (next ∷ rest) v = do
  inner ← child path key v
  changed ← edit_parent path edit next rest inner
  ok (put_child key (changed.0) v, changed.1)

-- addValue at the parent.
unfoldable pub add_at : List String → Bool → Json → Edit
unfolding parse_array_index set_field get_field
add_at path true w key (arr vs) = do
  index ← parse_array_index key (size vs) false
  throw_if (leb (size vs) index) (missing_path path)
  ok (arr (set_item vs index w), w)
add_at path false w key (arr vs) = do
  index ← parse_array_index key (size vs) true
  throw_if (ltb (size vs) index) (missing_path path)
  ok (arr (insert_item vs index w), w)
add_at path replace_only w key (obj fs) = do
  throw_if (replace_only && not (is_field key fs)) (missing_path path)
  ok (obj (set_field key w fs), w)
add_at path _ w key _ = throw (missing_path path)

-- removeValue at the parent.
unfoldable pub remove_at : List String → Edit
unfolding parse_array_index drop_field get_field
remove_at path key (arr vs) = do
  index ← parse_array_index key (size vs) false
  value ← or_throw (missing_path path) (item vs index)
  ok (arr (drop_item vs index), value)
remove_at path key (obj fs) = do
  value ← or_throw (missing_path path) (get_field key fs)
  ok (obj (drop_field key fs), value)
remove_at path key _ = throw (missing_path path)

unfoldable pub add_value : Json → List String → Json → Bool → Outcome PatchError Json
unfolding edit_parent add_at
add_value document [] w replace_only = ok w
add_value document (key ∷ rest) w replace_only =
    edit_parent (key ∷ rest) (add_at (key ∷ rest) replace_only w) key rest document >>= λ changed.
    ok (changed.0)

unfoldable pub remove_value : Json → List String → Outcome PatchError (Json × Json)
unfolding edit_parent remove_at
remove_value document [] = throw remove_root
remove_value document (key ∷ rest) =
    edit_parent (key ∷ rest) (remove_at (key ∷ rest)) key rest document

-- requireTarget walks as resolveParent does and reads the last step too.
unfoldable pub target_from : List String → List String → Json → Outcome PatchError Json
unfolding child
target_from path [] v = ok v
target_from path (key ∷ rest) v = child path key v >>= λ inner. target_from path rest inner

abbrev pub require_target : Json → List String → Outcome PatchError Json
require_target document path = target_from path path document

unfoldable pub same_segments : List String → List String → Bool
same_segments [] [] = true
same_segments (x ∷ xs) (y ∷ ys) = x == y && same_segments xs ys
same_segments [] (y ∷ ys) = false
same_segments (x ∷ xs) [] = false

unfoldable pub is_prefix : List String → List String → Bool
is_prefix [] [] = false
is_prefix [] (y ∷ ys) = true
is_prefix (x ∷ xs) [] = false
is_prefix (x ∷ xs) (y ∷ ys) = y == x && is_prefix xs ys

-- `canonicalJson(v) === canonicalJson(w)`: equal texts are equal values, the order of keys and
-- the sign of a zero left aside.
unfoldable pub same_canonical : Json → Json → Outcome PatchError Bool
unfolding clone_json deep_equal
same_canonical v w = do left ← clone_json v; right ← clone_json w; ok (deep_equal left right)

abbrev replace_value : Json → List String → Json → Outcome PatchError Json
replace_value document [] w = clone_json w
replace_value document path w = do
  found ← require_target document path
  copied ← clone_json w
  add_value document path copied true

unfoldable pub move_value : Json → List String → List String → Outcome PatchError Json
unfolding same_segments is_prefix remove_value add_value
move_value document source path =
    let moved =
      remove_value document source >>= λ removed. add_value (removed.0) path (removed.1) false in
    if same_segments source path
    then ok document
    else if same_segments source []
    then throw move_root
    else if is_prefix source path
    then throw move_inside
    else moved

unfoldable pub apply_json_patch_operation : Json → PatchOperation → Outcome PatchError Json
unfolding parse_json_pointer clone_json add_value remove_value target_from move_value same_canonical
apply_json_patch_operation document (add pointer w) = do
  path ← parse_json_pointer pointer
  copied ← clone_json w
  add_value document path copied false
apply_json_patch_operation document (remove pointer) = do
  path ← parse_json_pointer pointer
  removed ← remove_value document path
  ok (removed.0)
apply_json_patch_operation document (replace pointer w) =
    parse_json_pointer pointer >>= λ path. replace_value document path w
apply_json_patch_operation document (copy pointer from) = do
  path ← parse_json_pointer pointer
  source ← parse_json_pointer from
  value ← require_target document source
  copied ← clone_json value
  add_value document path copied false
apply_json_patch_operation document (move pointer from) = do
  path ← parse_json_pointer pointer
  source ← parse_json_pointer from
  move_value document source path
apply_json_patch_operation document (test pointer w) = do
  path ← parse_json_pointer pointer
  value ← require_target document path
  same ← same_canonical value w
  throw_if (not same) test_failed
  ok document

-- The loop of jsonPointerTarget: a missing target is no error, but a malformed index is.
unfoldable pub pointer_target_from : List String → Json → Outcome PatchError (Option Json)
unfolding parse_array_index get_field
pointer_target_from [] v = ok (some v)
pointer_target_from (segment ∷ rest) (arr vs) = do
  index ← parse_array_index segment (size vs) false
  elim (item vs index) [ none ↦ ok none | some v ↦ pointer_target_from rest v ]
pointer_target_from (segment ∷ rest) (obj fs) = elim (get_field segment fs) [
  | none ↦ ok none
  | some v ↦ pointer_target_from rest v
]
pointer_target_from (segment ∷ rest) _ = ok none

unfoldable pub json_pointer_target : Json → String → Outcome PatchError (Option Json)
unfolding parse_json_pointer pointer_target_from
json_pointer_target document pointer =
    parse_json_pointer pointer >>= λ segments. pointer_target_from segments document
