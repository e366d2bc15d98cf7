-- ===== src/Requests/Tests.antt =====
-- A request, its answer and the answer again, and the theorems on src/workflows/requests.ts at them.
use pi_workflows.Requests.{
  new_request, ensure_request, create_request, conflicts_with_row, canonical, RequestStore,
  RequestOptions, Request, agent, accepted, key_conflicts,
}
use pi_workflows.Json.{Json, str}
use pi_workflows.Json.Canonical.{normalize_json}
use pi_workflows.Json.Equality.{deep_equal}
use pi_workflows.Prelude.{
  refl, false, throw, some, ok, ◌≡◌, ◌∷◌, true, none, insert, [], lookup, String,
}
use pi_workflows.Requests.Output.{settled_request_has_output}
use pi_workflows.Requests.Retry.{retry_is_adopted}
use pi_workflows.Requests.Settled.{with_submission, never_reopened}
use pi_workflows.Requests.Submit.{
  ensured, unchanged, submitted, submitted_result, settled_store, settle_request, record_submission,
  find_submission, check_decision, add_submission, accepted_request_output, SubmissionResult,
  SubmissionOptions, RequestsReach,
}

abbrev started : RequestStore
started = record {
  requests = [];
  submissions = [];
  attempts = ("a1", "r1") ∷ [];
  resolutions = [];
  message_calls = [];
}

abbrev request_options : RequestOptions
request_options = record {
  request_id = "q1";
  run_id = "r1";
  attempt_id = "a1";
  target_session_id = "s1";
  kind = agent;
  contract = str "answer";
}

abbrev request : Request
request = new_request request_options (str "answer") 5

abbrev asked : RequestStore
asked = record started { requests = ("q1", request) ∷ [] }

asks : ensure_request request_options 5 started ≡ ok (request, asked)
unfolding ensure_request create_request conflicts_with_row lookup insert canonical normalize_json
asks = refl

abbrev answer : String → String → SubmissionOptions
answer id text = record {
  request_id = "q1";
  submission_id = id;
  idempotency_key = "k1";
  expected_revision = 1;
  payload = str text;
  outcome = accepted;
  settle = true;
  receipt = none;
}

abbrev answered : RequestStore
answered =
    settled_store (answer "b1" "yes") 9 request
      (with_submission (answer "b1" "yes") (str "yes") none 9 asked)

abbrev first_result : SubmissionResult
first_result = submitted_result (answer "b1" "yes") (settle_request "b1" 9 request)

answers : record_submission (answer "b1" "yes") 9 asked ≡ ok (first_result, answered)
unfolding record_submission add_submission find_submission check_decision lookup insert canonical
    normalize_json
answers = refl

other_answer_is_refused : record_submission (answer "b2" "no") 12 answered ≡ throw key_conflicts
unfolding record_submission add_submission find_submission check_decision lookup insert canonical
    normalize_json deep_equal
other_answer_is_refused = refl

abbrev answer_path : RequestsReach asked answered
answer_path = submitted (answer "b1" "yes") 9 unchanged answers

asks_again :
    ensure_request request_options 20 answered ≡ ok (settle_request "b1" 9 request, answered)
unfolding ensure_request create_request lookup insert canonical normalize_json deep_equal
asks_again = refl

never_reopened_example : lookup "q1" answered.requests ≡ some (settle_request "b1" 9 request)
unfolding lookup insert
never_reopened_example =
    never_reopened "q1" (settle_request "b1" 9 request)
      (ensured request_options 20 unchanged asks_again) refl refl

retry_is_adopted_example :
    (deep_equal (str "yes") (str "yes") ≡ true
      → (retried : SubmissionResult) × (record_submission (answer "b2" "yes") 12 answered
          ≡ ok (retried, answered))
        × (retried.is_adopted ≡ true)
        × (retried.submission_id ≡ "b1"))
    × (deep_equal (str "yes") (str "yes") ≡ false
        → record_submission (answer "b2" "yes") 12 answered ≡ throw key_conflicts)
unfolding canonical normalize_json
retry_is_adopted_example =
    retry_is_adopted (answer "b1" "yes") (answer "b2" "yes") 9 12 asked answered answered
      first_result (str "yes") (str "yes") answers refl unchanged refl refl refl refl

settled_request_has_output_example :
    (v : Json) × (accepted_request_output (settle_request "b1" 9 request) answered ≡ ok v)
unfolding lookup insert
settled_request_has_output_example =
    settled_request_has_output {s = started} "q1" (settle_request "b1" 9 request) tt
      (submitted (answer "b1" "yes") 9 (ensured request_options 5 unchanged asks) answers) refl refl
