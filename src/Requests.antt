-- ===== src/Requests.antt =====
-- The interactive requests of src/workflows/requests.ts and the submissions that answer them. What
-- the database keeps by its hash stands in the row itself, in its normal form. A throw undoes the
-- transaction.
pub mod Submit
pub mod Retry
pub mod Settled
pub mod Output
pub mod Tests
use pi_workflows.Json.{Json, str, field, end, obj}
use pi_workflows.Prelude.{
  ◌||◌, not, ◌>>◌, ◌>>=◌, [], ◌∷◌, eqb, ◌&&◌, ◌>>=◌, ◌==◌, true, throw, some, none, insert, false,
  ℕ, throw_if, or_throw, lookup, String, Outcome, Option, List, Bool, Assoc, ok,
}
use pi_workflows.Json.Canonical.{normalize_json, JsonError}
use pi_workflows.Json.Equality.{deep_equal}

pub data RequestKind : Type 0 where
  agent assistant checkpoint decision : RequestKind

pub data RequestStatus : Type 0 where
  pending settled cancelled : RequestStatus

pub record Request : Type 0 where
  pub request_id : String
  pub run_id : String
  pub attempt_id : String
  pub target_session_id : String
  pub kind : RequestKind
  pub contract : Json
  pub revision : ℕ
  pub status : RequestStatus
  pub accepted_submission_id : Option String
  pub created_at : ℕ
  pub updated_at : ℕ
  pub settled_at : Option ℕ
  pub consumed_at : Option ℕ

pub data SubmissionOutcome : Type 0 where
  validating accepted rejected adopted : SubmissionOutcome

pub record Submission : Type 0 where
  pub submission_id : String
  pub request_id : String
  pub idempotency_key : String
  pub request_revision : ℕ
  pub payload : Json
  pub outcome : SubmissionOutcome
  pub receipt : Option Json
  pub submitted_at : ℕ

-- A resolution of a human decision, with the run and attempt of the decision and the member response of
-- the stored response.
pub record Resolution : Type 0 where
  pub decision_id : String
  pub run_id : String
  pub attempt_id : String
  pub is_accepted : Bool
  pub response : Option Json

-- A call of cancelPendingForSource of the message store.
pub record MessageCall : Type 0 where
  pub source_id : String
  pub message_kind : String
  pub at : ℕ

pub record RequestStore : Type 0 where
  pub requests : Assoc Request
  pub submissions : List Submission
  pub attempts : Assoc String
  pub resolutions : List Resolution
  pub message_calls : List MessageCall

pub data RequestError : Type 0 where
  request_conflicts attempt_mismatch request_missing key_conflicts revision_conflict
        validation_active only_accepted_settles unverified_decision no_accepted_output
        response_missing row_conflict not_canonical :
      RequestError

abbrev pub kind_number : RequestKind → ℕ
kind_number agent = 0
kind_number assistant = 1
kind_number checkpoint = 2
kind_number decision = 3

abbrev pub is_pending : RequestStatus → Bool
is_pending pending = true
is_pending _ = false

abbrev pub is_settled : RequestStatus → Bool
is_settled settled = true
is_settled _ = false

abbrev pub is_validating : SubmissionOutcome → Bool
is_validating validating = true
is_validating _ = false

abbrev pub is_accepted_outcome : SubmissionOutcome → Bool
is_accepted_outcome accepted = true
is_accepted_outcome _ = false

abbrev or_not_canonical : Outcome JsonError Json → Outcome RequestError Json
or_not_canonical (ok v) = ok v
or_not_canonical (throw e) = throw not_canonical

-- The value that canonicalJson writes.
unfoldable pub canonical : Json → Outcome RequestError Json
unfolding normalize_json
canonical v = or_not_canonical (normalize_json v)

-- `canonicalJson(a) === canonicalJson(b)`, with the first one stored.
abbrev pub same_canonical : Json → Json → Outcome RequestError Bool
same_canonical stored v = canonical v >>= λ w. ok (deep_equal stored w)

abbrev pub canonical_receipt : Option Json → Outcome RequestError (Option Json)
canonical_receipt none = ok none
canonical_receipt (some v) = canonical v >>= λ w. ok (some w)

pub record RequestOptions : Type 0 where
  pub request_id : String
  pub run_id : String
  pub attempt_id : String
  pub target_session_id : String
  pub kind : RequestKind
  pub contract : Json

abbrev pub same_identity : Request → RequestOptions → Bool
same_identity r o =
    r.run_id == o.run_id
    && r.attempt_id == o.attempt_id
    && r.target_session_id == o.target_session_id
    && eqb (kind_number r.kind) (kind_number o.kind)

-- The unique indexes of the table: one request for an attempt, one pending request for a run.
unfoldable pub conflicts_with_row : RequestOptions → Assoc Request → Bool
conflicts_with_row o [] = false
conflicts_with_row o ((id, r) ∷ rs) =
    r.attempt_id == o.attempt_id
    || (is_pending r.status && r.run_id == o.run_id)
    || conflicts_with_row o rs

abbrev pub new_request : RequestOptions → Json → ℕ → Request
new_request o contract now = record {
  request_id = o.request_id;
  run_id = o.run_id;
  attempt_id = o.attempt_id;
  target_session_id = o.target_session_id;
  kind = o.kind;
  contract = contract;
  revision = 1;
  status = pending;
  accepted_submission_id = none;
  created_at = now;
  updated_at = now;
  settled_at = none;
  consumed_at = none;
}

unfoldable pub create_request :
    RequestOptions → ℕ → RequestStore → Outcome RequestError (Request × RequestStore)
unfolding lookup conflicts_with_row insert canonical
create_request o now s = do
  run_id ← or_throw attempt_mismatch (lookup o.attempt_id s.attempts)
  throw_if (not (run_id == o.run_id)) attempt_mismatch
  contract ← canonical o.contract
  throw_if (conflicts_with_row o s.requests) row_conflict
  ok (
    new_request o contract now,
    record s { requests = insert o.request_id (new_request o contract now) s.requests },
  )

abbrev pub keep_request :
    RequestOptions → RequestStore → Request → Outcome RequestError (Request × RequestStore)
keep_request o s r = do
  throw_if (not (same_identity r o)) request_conflicts
  same ← same_canonical r.contract o.contract
  throw_if (not same) request_conflicts
  ok (r, s)

abbrev pub ensure_found :
    RequestOptions
    → ℕ
    → RequestStore
    → Option Request
    → Outcome RequestError (Request × RequestStore)
ensure_found o now s none = create_request o now s
ensure_found o now s (some r) = keep_request o s r

-- ensureWorkflowRequest
unfoldable pub ensure_request :
    RequestOptions → ℕ → RequestStore → Outcome RequestError (Request × RequestStore)
unfolding lookup create_request canonical
ensure_request o now s = ensure_found o now s (lookup o.request_id s.requests)
