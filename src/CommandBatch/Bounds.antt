-- ===== src/CommandBatch/Bounds.antt =====
-- What a validated batch request keeps to.
use pi_workflows.CommandBatch.{
  validate_command_batch_request, too_many_items, require_items, not_an_object, max_items,
  duplicated_id, concurrency_limit, bad_concurrency, require_record, require_args, no_field,
  item_fields, find_unsupported, bad_timeout, bad_output_limit, bad_id, bad_cwd, bad_command,
  validate_items, validate_item, timeout_limit, require_string, positive_integer, output_limit,
  is_item_id, BatchError, CommandBatchItem, CommandBatchRequest,
}
use pi_workflows.Json.{get_field, null, obj, arr, str, num, bool, safe_natural, Json}
use pi_workflows.Prelude.{
  AreNew, ap, suc, ltb, [], not, none, inr, inl, ◌∷◌, some, refl, length, elem, arith, ◌≤◌, map,
  false, true, ok, ◌≡◌, ℕ, throw_if, is_blank, String, Option-cases, Option, List, Bool-cases, Bool,
  All, >>=-eq-ok, >>-eq-ok,
}
use mathlib.Core.Path.{subst}

pub record IsBoundedItem (is_absolute : String → Bool) (item : CommandBatchItem) : Type 0 where
  pub named : is_item_id item.id ≡ true
  pub command : is_blank item.command ≡ false
  pub absolute : is_absolute item.cwd ≡ true
  pub timeout : (1 ≤ item.timeout_ms) × (item.timeout_ms ≤ timeout_limit)
  pub output : (1 ≤ item.max_output_chars) × (item.max_output_chars ≤ output_limit)

positive_integer-ok :
    (e : BatchError) (maximum n : ℕ) (v : Option Json)
    → positive_integer e maximum v ≡ ok n
    → (1 ≤ n) × (n ≤ maximum)
unfolding positive_integer
positive_integer-ok e maximum n none h = absurd (ground arith)
positive_integer-ok e maximum n (some null) h = absurd (ground arith)
positive_integer-ok e maximum n (some (bool b)) h = absurd (ground arith)
positive_integer-ok e maximum n (some (str s)) h = absurd (ground arith)
positive_integer-ok e maximum n (some (arr vs)) h = absurd (ground arith)
positive_integer-ok e maximum n (some (obj fs)) h = absurd (ground arith)
positive_integer-ok e maximum n (some (num bits)) h = elim (Option-cases (safe_natural bits)) [
  | inl missing ↦ absurd (ground arith)
  | inr (m, found) ↦ ground arith
]

require_string-ok :
    (e : BatchError) (s : String) (v : Option Json) → require_string e v ≡ ok s → is_blank s ≡ false
unfolding require_string
require_string-ok e s none h = absurd (ground arith)
require_string-ok e s (some null) h = absurd (ground arith)
require_string-ok e s (some (bool b)) h = absurd (ground arith)
require_string-ok e s (some (num n)) h = absurd (ground arith)
require_string-ok e s (some (arr vs)) h = absurd (ground arith)
require_string-ok e s (some (obj fs)) h = absurd (ground arith)
require_string-ok e s (some (str t)) h = elim (Bool-cases (is_blank t)) [
  | inl blank ↦ absurd (ground arith)
  | inr full ↦ ground arith
]

throw_if-ok : {E : Type 0} (b : Bool) (e : E) → throw_if b e ≡ ok tt → b ≡ false
throw_if-ok true e h = absurd (ground arith)
throw_if-ok false e h = refl

abbrev item_of : String → String → List String → String → ℕ → ℕ → CommandBatchItem
item_of id command args cwd timeout chars = record {
  id = id;
  command = command;
  args = args;
  cwd = cwd;
  timeout_ms = timeout;
  max_output_chars = chars;
}

abbrev request_of : List CommandBatchItem → ℕ → CommandBatchRequest
request_of items n = record { items = items; max_concurrency = n }

module _ (is_absolute : String → Bool) where
  validate_item-IsBounded :
      (v : Option Json) (index : ℕ) (item : CommandBatchItem)
      → validate_item is_absolute v index ≡ ok item
      → IsBoundedItem is_absolute item
  unfolding validate_item
  validate_item-IsBounded v index item h =
      let (fs, _, h1) = >>=-eq-ok (require_record _ v) _ h in
      let (_, h2) = >>-eq-ok (no_field (find_unsupported item_fields fs) _) _ h1 in
      let (id, _, h3) = >>=-eq-ok (require_string _ (get_field "id" fs)) _ h2 in
      let (named, h4) = >>-eq-ok (throw_if (not (is_item_id id)) (bad_id index)) _ h3 in
      let (command, c, h5) =
        >>=-eq-ok (require_string (bad_command index) (get_field "command" fs)) _ h4 in
      let (args, _, h6) = >>=-eq-ok (require_args _ (get_field "args" fs)) _ h5 in
      let (cwd, _, h7) = >>=-eq-ok (require_string _ (get_field "cwd" fs)) _ h6 in
      let (absolute, h8) = >>-eq-ok (throw_if (not (is_absolute cwd)) (bad_cwd index)) _ h7 in
      let (timeout, t, h9) =
        >>=-eq-ok (positive_integer (bad_timeout index) timeout_limit (get_field "timeoutMs" fs)) _
          h8 in
      let (chars, o, h10) =
        >>=-eq-ok
          (positive_integer (bad_output_limit index) output_limit (get_field "maxOutputChars" fs)) _
          h9 in
      let is : item_of id command args cwd timeout chars ≡ item = ground arith in
      subst (IsBoundedItem is_absolute) is (record {
        named = ground (arith, throw_if-ok _ _ named);
        command = require_string-ok (bad_command index) command (get_field "command" fs) c;
        absolute = ground (arith, throw_if-ok _ _ absolute);
        timeout =
            positive_integer-ok (bad_timeout index) timeout_limit timeout (get_field "timeoutMs" fs)
              t;
        output =
            positive_integer-ok (bad_output_limit index) output_limit chars
              (get_field "maxOutputChars" fs) o;
      })

  validate_items-IsBounded :
      (ids : List String) (index : ℕ) (vs : List Json) (items : List CommandBatchItem)
      → validate_items is_absolute ids index vs ≡ ok items
      → All (IsBoundedItem is_absolute) items
        × AreNew ids (map CommandBatchItem.id items)
        × (length items ≡ length vs)
  unfolding validate_items
  validate_items-IsBounded ids index [] [] h = (tt, tt, refl)
  validate_items-IsBounded ids index [] (x ∷ xs) h = absurd (ground arith)
  validate_items-IsBounded ids index (v ∷ vs) items h =
      let (item, valid, h1) = >>=-eq-ok (validate_item is_absolute (some v) index) _ h in
      let (new, h2) = >>-eq-ok (throw_if (elem item.id ids) (duplicated_id item.id)) _ h1 in
      let (others, rest, h3) =
        >>=-eq-ok (validate_items is_absolute (item.id ∷ ids) (suc index) vs) _ h2 in
      let (bounded, distinct, count) =
        validate_items-IsBounded (item.id ∷ ids) (suc index) vs others rest in
      let is : (item ∷ others) ≡ items = ground arith in
      subst
        (λ is.
          All (IsBoundedItem is_absolute) is
          × AreNew ids (map CommandBatchItem.id is)
          × (length is ≡ suc (length vs)))
        is
        (
          (validate_item-IsBounded (some v) index item valid, bounded),
          (throw_if-ok (elem item.id ids) _ new, distinct),
          ap suc count,
        )

  -- A validated request has at most 64 items with pairwise different ids, each within its limits,
  -- and from one to eight slots.
  pub validate_command_batch_request-IsBounded :
      (value : Option Json) (r : CommandBatchRequest)
      → validate_command_batch_request is_absolute value ≡ ok r
      → All (IsBoundedItem is_absolute) r.items
        × AreNew [] (map CommandBatchItem.id r.items)
        × (length r.items ≤ max_items)
        × (1 ≤ r.max_concurrency)
        × (r.max_concurrency ≤ concurrency_limit)
  unfolding validate_command_batch_request
  validate_command_batch_request-IsBounded value r h =
      let (fs, _, h1) = >>=-eq-ok (require_record not_an_object value) _ h in
      let (_, h2) =
        >>-eq-ok (no_field (find_unsupported ("items" ∷ "maxConcurrency" ∷ []) fs) _) _ h1 in
      let (values, _, h3) = >>=-eq-ok (require_items is_absolute (get_field "items" fs)) _ h2 in
      let (few, h4) = >>-eq-ok (throw_if (ltb max_items (length values)) too_many_items) _ h3 in
      let (items, valid, h5) = >>=-eq-ok (validate_items is_absolute [] 0 values) _ h4 in
      let (n, positive, h6) =
        >>=-eq-ok
          (positive_integer bad_concurrency concurrency_limit (get_field "maxConcurrency" fs)) _
          h5 in
      let (bounded, distinct, count) = validate_items-IsBounded [] 0 values items valid in
      let (low, high) =
        positive_integer-ok bad_concurrency concurrency_limit n (get_field "maxConcurrency" fs)
          positive in
      let is : request_of items n ≡ r = ground arith in
      subst
        (λ q.
          All (IsBoundedItem is_absolute) q.items
          × AreNew [] (map CommandBatchItem.id q.items)
          × (length q.items ≤ max_items)
          × (1 ≤ q.max_concurrency)
          × (q.max_concurrency ≤ concurrency_limit))
        is (bounded, distinct, ground (arith, count, throw_if-ok _ _ few), low, high)
