-- ===== src/CommandBatch.antt =====
-- The data of src/workflows/command-batch.ts and the validation of a request. A number of the
-- unchecked request is a double; a validated one is a natural number.
use pi_workflows.Prelude.{
  suc, ◌>>=◌, ◌>>◌, not, ltb, length, elem, leb, if◌then◌else◌, eqb, [], ◌∷◌, ◌||◌, ◌&&◌, throw,
  some, ok, none, throw_if, text_length, or_throw, matches_class, is_letter, is_digit_code,
  is_blank, String, Outcome, Option, List, Bool, ℕ,
}
use pi_workflows.Json.{
  items as item_values, nil, end, cons, str, obj, num, field, arr, safe_natural, get_field, Items,
  Fields, Json,
}
pub mod Run
pub mod Once
pub mod Finish
pub mod Ends
pub mod Bounds
mod Tests

pub record CommandBatchItem : Type 0 where
  pub id : String
  pub command : String
  pub args : List String
  pub cwd : String
  pub timeout_ms : ℕ
  pub max_output_chars : ℕ

pub record CommandBatchRequest : Type 0 where
  pub items : List CommandBatchItem
  pub max_concurrency : ℕ

pub data BatchError : Type 0 where
  not_an_object items_not_an_array too_many_items bad_concurrency : BatchError
  unsupported_field : String → BatchError
  duplicated_id : String → BatchError
  item_not_an_object bad_id bad_command bad_args bad_cwd bad_timeout bad_output_limit :
      ℕ → BatchError
  unsupported_item_field : ℕ → String → BatchError

abbrev pub max_items : ℕ
max_items = 64

abbrev pub concurrency_limit : ℕ
concurrency_limit = 8

abbrev pub timeout_limit : ℕ
timeout_limit = 3600000

abbrev pub output_limit : ℕ
output_limit = 1000000

unfoldable pub require_record : BatchError → Option Json → Outcome BatchError Fields
require_record e (some (obj fs)) = ok fs
require_record e _ = throw e

-- `typeof value !== "string" || value.trim().length === 0`
unfoldable pub require_string : BatchError → Option Json → Outcome BatchError String
unfolding is_blank
require_string e (some (str s)) = if is_blank s then throw e else ok s
require_string e _ = throw e

-- `Number.isSafeInteger(value) && 1 <= value && value <= maximum`
abbrev in_range : BatchError → ℕ → Option ℕ → Outcome BatchError ℕ
in_range e maximum none = throw e
in_range e maximum (some n) = if leb 1 n && leb n maximum then ok n else throw e

unfoldable pub positive_integer : BatchError → ℕ → Option Json → Outcome BatchError ℕ
unfolding safe_natural
positive_integer e maximum (some (num bits)) = in_range e maximum (safe_natural bits)
positive_integer e maximum _ = throw e

-- The first key that is not allowed.
unfoldable pub find_unsupported : List String → Fields → Option String
find_unsupported allowed end = none
find_unsupported allowed (field k v fs) =
    let rest = find_unsupported allowed fs in if elem k allowed then rest else some k

unfoldable pub string_items : Items → Option (List String)
string_items nil = some []
string_items (cons (str s) vs) = elim (string_items vs) [ none ↦ none | some ss ↦ some (s ∷ ss) ]
string_items (cons _ vs) = none

abbrev pub require_args : BatchError → Option Json → Outcome BatchError (List String)
require_args e (some (arr vs)) = or_throw e (string_items vs)
require_args e _ = throw e

abbrev pub no_field : Option String → (String → BatchError) → Outcome BatchError (Unit {0})
no_field none e = ok tt
no_field (some k) e = throw (e k)

-- /^[A-Za-z0-9][A-Za-z0-9._:-]{0,63}$/
abbrev starts_id : ℕ → Bool
starts_id c = is_letter c || is_digit_code c

abbrev continues_id : ℕ → Bool
continues_id c = starts_id c || eqb c 46 || eqb c 95 || eqb c 58 || eqb c 45

unfoldable pub is_item_id : String → Bool
unfolding matches_class text_length
is_item_id s = matches_class starts_id continues_id s && leb (text_length s) 64

abbrev pub item_fields : List String
item_fields = "id" ∷ "command" ∷ "args" ∷ "cwd" ∷ "timeoutMs" ∷ "maxOutputChars" ∷ []

-- `is_absolute` is `path.isAbsolute` of Node.js.
module _ (is_absolute : String → Bool) where
  unfoldable pub validate_item : Option Json → ℕ → Outcome BatchError CommandBatchItem
  unfolding require_record find_unsupported require_string is_item_id positive_integer string_items
  validate_item value index = do
    item ← require_record (item_not_an_object index) value
    no_field (find_unsupported item_fields item) (unsupported_item_field index)
    id ← require_string (bad_id index) (get_field "id" item)
    throw_if (not (is_item_id id)) (bad_id index)
    command ← require_string (bad_command index) (get_field "command" item)
    args ← require_args (bad_args index) (get_field "args" item)
    cwd ← require_string (bad_cwd index) (get_field "cwd" item)
    throw_if (not (is_absolute cwd)) (bad_cwd index)
    timeout ← positive_integer (bad_timeout index) timeout_limit (get_field "timeoutMs" item)
    chars ← positive_integer (bad_output_limit index) output_limit (get_field "maxOutputChars" item)
    ok (record {
      id = id;
      command = command;
      args = args;
      cwd = cwd;
      timeout_ms = timeout;
      max_output_chars = chars;
    })

  -- The `map` over the items; `ids` are the ids seen so far.
  unfoldable pub validate_items :
      List String → ℕ → List Json → Outcome BatchError (List CommandBatchItem)
  unfolding validate_item
  validate_items ids index [] = ok []
  validate_items ids index (v ∷ vs) = do
    item ← validate_item (some v) index
    throw_if (elem item.id ids) (duplicated_id item.id)
    others ← validate_items (item.id ∷ ids) (suc index) vs
    ok (item ∷ others)

  abbrev pub require_items : Option Json → Outcome BatchError (List Json)
  require_items (some (arr vs)) = ok (item_values vs)
  require_items _ = throw items_not_an_array

  unfoldable pub validate_command_batch_request :
      Option Json → Outcome BatchError CommandBatchRequest
  unfolding require_record find_unsupported validate_items positive_integer item_values
  validate_command_batch_request value = do
    request ← require_record not_an_object value
    no_field (find_unsupported ("items" ∷ "maxConcurrency" ∷ []) request) unsupported_field
    values ← require_items (get_field "items" request)
    throw_if (ltb max_items (length values)) too_many_items
    items ← validate_items [] 0 values
    concurrency ←
        positive_integer bad_concurrency concurrency_limit (get_field "maxConcurrency" request)
    ok (record { items = items; max_concurrency = concurrency })
