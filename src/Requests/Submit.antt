-- ===== src/Requests/Submit.antt =====
-- recordWorkflowSubmission and acceptedRequestOutput of src/workflows/requests.ts.
use pi_workflows.Requests.{
  kind_number, is_validating, is_settled, is_pending, is_accepted_outcome, ensure_request,
  canonical_receipt, canonical, SubmissionOutcome, Submission, Resolution, RequestStore,
  RequestOptions, RequestError, Request, MessageCall, decision, settled, request_missing,
  key_conflicts, revision_conflict, validation_active, only_accepted_settles, unverified_decision,
  no_accepted_output, response_missing, row_conflict,
}
use pi_workflows.Json.{Json, str, obj, field, end}
use pi_workflows.Json.Equality.{deep_equal}
use pi_workflows.Prelude.{
  ◌>>◌, ◌>>=◌, [], ◌∷◌, any, ◌||◌, ◌>>◌, ◌+◌, ◌&&◌, not, if◌then◌else◌, [], ◌≡◌, ◌∷◌, ◌>>=◌, ◌==◌,
  ◌++◌, true, some, ok, none, false, eqb, ℕ, throw_if, or_throw, or_else, lookup, insert,
  find_first, String, Outcome, Option, List, Bool, Assoc,
}

pub record SubmissionOptions : Type 0 where
  pub request_id : String
  pub submission_id : String
  pub idempotency_key : String
  pub expected_revision : ℕ
  pub payload : Json
  pub outcome : SubmissionOutcome
  pub settle : Bool
  pub receipt : Option Json

pub record SubmissionResult : Type 0 where
  pub interaction : Request
  pub submission_id : String
  pub is_adopted : Bool
  pub receipt : Json

-- The submission with this key, which the unique index of the table makes the only one.
abbrev pub has_key : String → String → Submission → Bool
has_key request_id key b = b.request_id == request_id && b.idempotency_key == key

unfoldable pub find_submission : String → String → List Submission → Option Submission
find_submission request_id key [] = none
find_submission request_id key (b ∷ bs) =
    let later = find_submission request_id key bs in
    if has_key request_id key b then some b else later

abbrev pub plain_receipt : String → String → Json
plain_receipt request_id submission_id =
    obj (field "requestId" (str request_id) (field "submissionId" (str submission_id) end))

-- The same key again: the first submission stands.
abbrev pub adopt :
    Json
    → Request
    → Submission
    → RequestStore
    → Outcome RequestError (SubmissionResult × RequestStore)
adopt payload r b s =
    let found : SubmissionResult = record {
      interaction = r;
      submission_id = b.submission_id;
      is_adopted = true;
      receipt = or_else b.receipt (plain_receipt r.request_id b.submission_id);
    } in
    throw_if (not (deep_equal b.payload payload)) key_conflicts >> ok (found, s)

abbrev pub is_validation_of : String → Submission → Bool
is_validation_of request_id b = b.request_id == request_id && is_validating b.outcome

abbrev pub is_verified_by : Request → Resolution → Bool
is_verified_by r d =
    d.decision_id == r.request_id
    && d.run_id == r.run_id
    && d.attempt_id == r.attempt_id
    && d.is_accepted

abbrev pub same_response : Json → Option Json → Outcome RequestError Bool
same_response payload none = ok false
same_response payload (some v) = canonical v >>= λ w. ok (deep_equal w payload)

-- The response of a resolution is the payload.
abbrev pub response_is : Json → Option Resolution → Outcome RequestError Bool
response_is payload none = ok false
response_is payload (some d) = same_response payload d.response

abbrev pub needs_decision : Request → Bool → Bool
needs_decision r settle = eqb (kind_number r.kind) (kind_number decision) && settle

unfoldable pub check_decision : Request → Json → List Resolution → Outcome RequestError (Unit {0})
unfolding canonical
check_decision r payload ds = response_is payload (find_first (is_verified_by r) ds) >>= λ same.
    throw_if (not same) unverified_decision

abbrev pub new_submission : SubmissionOptions → Json → Option Json → ℕ → Submission
new_submission o payload receipt now = record {
  submission_id = o.submission_id;
  request_id = o.request_id;
  idempotency_key = o.idempotency_key;
  request_revision = o.expected_revision;
  payload = payload;
  outcome = o.outcome;
  receipt = receipt;
  submitted_at = now;
}

-- UPDATE interactive_requests, whose revision and status have been checked.
abbrev pub settle_request : String → ℕ → Request → Request
settle_request submission_id now r = record r {
  status = settled;
  accepted_submission_id = some submission_id;
  revision = r.revision + 1;
  updated_at = now;
  settled_at = some now;
}

abbrev pub cancel_messages : String → ℕ → List MessageCall
cancel_messages source now =
    record { source_id = source; message_kind = "step"; at = now }
    ∷ record { source_id = source; message_kind = "decision"; at = now }
    ∷ []

abbrev pub settled_store : SubmissionOptions → ℕ → Request → RequestStore → RequestStore
settled_store o now r s = record s {
  requests = insert o.request_id (settle_request o.submission_id now r) s.requests;
  message_calls = s.message_calls ++ cancel_messages o.request_id now;
}

abbrev pub submitted_result : SubmissionOptions → Request → SubmissionResult
submitted_result o r = record {
  interaction = r;
  submission_id = o.submission_id;
  is_adopted = false;
  receipt = or_else o.receipt (plain_receipt r.request_id o.submission_id);
}

abbrev pub settled_if :
    Bool → SubmissionOptions → ℕ → Request → RequestStore → SubmissionResult × RequestStore
settled_if true o now r s =
    (submitted_result o (settle_request o.submission_id now r), settled_store o now r s)
settled_if false o now r s = (submitted_result o r, s)

unfoldable pub add_submission :
    SubmissionOptions
    → Request
    → Json
    → ℕ
    → RequestStore
    → Outcome RequestError (SubmissionResult × RequestStore)
unfolding check_decision insert canonical
add_submission o r payload now s = do
  throw_if (not (eqb r.revision o.expected_revision) || not (is_pending r.status)) revision_conflict
  throw_if (is_validating o.outcome && any (is_validation_of o.request_id) s.submissions)
      validation_active
  throw_if (o.settle && not (is_accepted_outcome o.outcome)) only_accepted_settles
  (if needs_decision r o.settle then check_decision r payload s.resolutions else ok tt)
  receipt ← canonical_receipt o.receipt
  throw_if (any (λ (b : Submission). b.submission_id == o.submission_id) s.submissions) row_conflict
  ok (
      settled_if o.settle o now r
        (record s { submissions = s.submissions ++ new_submission o payload receipt now ∷ [] }))

abbrev pub add_or_adopt :
    SubmissionOptions
    → Request
    → Json
    → ℕ
    → RequestStore
    → Option Submission
    → Outcome RequestError (SubmissionResult × RequestStore)
add_or_adopt o r payload now s none = add_submission o r payload now s
add_or_adopt o r payload now s (some b) = adopt payload r b s

unfoldable pub record_submission :
    SubmissionOptions → ℕ → RequestStore → Outcome RequestError (SubmissionResult × RequestStore)
unfolding lookup canonical find_submission add_submission
record_submission o now s = do
  r ← or_throw request_missing (lookup o.request_id s.requests)
  payload ← canonical o.payload
  add_or_adopt o r payload now s (find_submission o.request_id o.idempotency_key s.submissions)

-- acceptedRequestOutput
abbrev pub is_accepted_submission : String → String → Submission → Bool
is_accepted_submission request_id id b =
    b.request_id == request_id && b.submission_id == id && is_accepted_outcome b.outcome

unfoldable pub accepted_request_output : Request → RequestStore → Outcome RequestError Json
accepted_request_output r s = do
  throw_if (not (is_settled r.status)) no_accepted_output
  id ← or_throw no_accepted_output r.accepted_submission_id
  found ←
      or_throw response_missing (find_first (is_accepted_submission r.request_id id) s.submissions)
  ok found.payload

-- The stores that requests and submissions lead to, with other code that resolves decisions.
pub data RequestsReach (s : RequestStore) : RequestStore → Type 0 where
  unchanged : RequestsReach s s
  ensured :
      {u v : RequestStore} {r : Request} (o : RequestOptions) (now : ℕ)
      → RequestsReach s u
      → ensure_request o now u ≡ ok (r, v)
      → RequestsReach s v
  submitted :
      {u v : RequestStore} {r : SubmissionResult} (o : SubmissionOptions) (now : ℕ)
      → RequestsReach s u
      → record_submission o now u ≡ ok (r, v)
      → RequestsReach s v
  resolved :
      {u : RequestStore} (resolutions : List Resolution) (attempts : Assoc String)
      → RequestsReach s u
      → RequestsReach s (record u { resolutions = resolutions; attempts = attempts })
