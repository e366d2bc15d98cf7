-- ===== src/JsonPatch/Tests.antt =====
-- A document, and the theorems on src/workflows/json-patch.ts at it.
use pi_workflows.JsonPatch.Inverse.{inserts, remove_value-add_value}
use pi_workflows.Json.{end, nil, cons, str, arr, field, obj, parse_index, get_field, Json}
use pi_workflows.JsonPatch.{byte_length, parse_json_pointer, encode_json_pointer, bad_escape}
use pi_workflows.JsonPatch.Apply.{
  require_target, pointer_target_from, set_field, remove_value, put_child, parse_array_index,
  add_value, add_at,
}
use pi_workflows.Prelude.{arith, ◌↔◌, some, refl, false, true, throw, ok, ◌≡◌, [], ◌∷◌, split}
use pi_workflows.JsonPatch.Target.{pointer_target_iff}
use pi_workflows.JsonPatch.Pointer.{parse_json_pointer-encode_json_pointer}

abbrev settings : Json
settings = obj (field "list" (arr (cons (str "a") (cons (str "c") nil))) end)

abbrev longer : Json
longer = obj (field "list" (arr (cons (str "a") (cons (str "b") (cons (str "c") nil)))) end)

settings_insert : inserts ("list" ∷ "1" ∷ []) "list" ("1" ∷ []) settings ≡ true
unfolding inserts get_field
settings_insert = refl

settings_added : add_value settings ("list" ∷ "1" ∷ []) (str "b") false ≡ ok longer
unfolding add_value add_at put_child set_field parse_array_index parse_index get_field
settings_added = refl

remove_value-add_value_example : remove_value longer ("list" ∷ "1" ∷ []) ≡ ok (settings, str "b")
remove_value-add_value_example =
    remove_value-add_value "list" ("1" ∷ []) settings longer (str "b") settings_insert
      settings_added

bad_escape_refused : parse_json_pointer "/a~2" ≡ throw bad_escape
unfolding parse_json_pointer split
bad_escape_refused = refl

pointer_target_iff_example :
    (pointer_target_from ("list" ∷ "0" ∷ []) settings ≡ ok (some (str "a")))
    ↔ (require_target settings ("list" ∷ "0" ∷ []) ≡ ok (str "a"))
pointer_target_iff_example = pointer_target_iff settings (str "a") ("list" ∷ "0" ∷ [])

parse_json_pointer-encode_json_pointer_example :
    parse_json_pointer (encode_json_pointer ("a/b" ∷ "~1" ∷ "" ∷ [])) ≡ ok ("a/b" ∷ "~1" ∷ "" ∷ [])
unfolding encode_json_pointer byte_length
parse_json_pointer-encode_json_pointer_example =
    parse_json_pointer-encode_json_pointer ("a/b" ∷ "~1" ∷ "" ∷ []) (omega arith)
