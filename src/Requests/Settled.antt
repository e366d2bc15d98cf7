-- ===== src/Requests/Settled.antt =====
-- A settled request of src/workflows/requests.ts is never reopened.
use pi_workflows.Requests.{
  same_identity, same_canonical, keep_request, is_settled, ensure_request, ensure_found,
  RequestStatus, pending, settled, cancelled, request_conflicts, key_conflicts, canonical,
  new_request, is_validating, is_pending, is_accepted_outcome, create_request, conflicts_with_row,
  canonical_receipt, Submission, RequestStore, RequestOptions, Request, request_missing,
  revision_conflict, validation_active, only_accepted_settles, row_conflict, attempt_mismatch,
}
use pi_workflows.Json.{Json}
use pi_workflows.Prelude.{
  refl, inr, none, inl, lookup-insert, eq_iff, String, Bool-cases, Bool, if◌then◌else◌, ◌&&◌, ◌||◌,
  eqb, arith, ◌==◌, not, some, insert, any, true, lookup, false, [], ◌∷◌, ok, ◌≡◌, ◌++◌, ℕ,
  throw_if, or_throw-ok, or_throw, Option, >>=-eq-ok, >>-eq-ok,
}
use pi_workflows.Requests.Submit.{
  unchanged, resolved, submitted, ensured, settle_request, adopt, RequestsReach, settled_if,
  record_submission, new_submission, needs_decision, is_validation_of, find_submission,
  check_decision, add_submission, add_or_adopt, SubmissionResult, SubmissionOptions,
}
use mathlib.Core.Path.{subst}
use pi_workflows.Json.Equality.{deep_equal}

-- What a submission that returns has read and written.
pub record_submission-ok :
    (o : SubmissionOptions) (now : ℕ) (s v : RequestStore) (result : SubmissionResult)
    → record_submission o now s ≡ ok (result, v)
    → (r : Request) × (payload : Json) × (lookup o.request_id s.requests ≡ some r)
      × (canonical o.payload ≡ ok payload)
      × (add_or_adopt o r payload now s
            (find_submission o.request_id o.idempotency_key s.submissions)
          ≡ ok (result, v))
unfolding record_submission
record_submission-ok o now s v result h =
    let (r, found, h1) =
      >>=-eq-ok (or_throw request_missing (lookup o.request_id s.requests)) _ h in
    let (payload, plain, h2) = >>=-eq-ok (canonical o.payload) _ h1 in
    (r, payload, or_throw-ok request_missing _ found, plain, h2)

-- The store with the new row of a submission.
abbrev pub with_submission :
    SubmissionOptions → Json → Option Json → ℕ → RequestStore → RequestStore
with_submission o payload receipt now s = record s {
  submissions = s.submissions ++ new_submission o payload receipt now ∷ [];
}

pub add_submission-ok :
    (o : SubmissionOptions) (r : Request) (payload : Json) (now : ℕ) (s v : RequestStore)
    (result : SubmissionResult)
    → add_submission o r payload now s ≡ ok (result, v)
    → (receipt : Option Json) × (is_pending r.status ≡ true)
      × (o.settle ≡ true → is_accepted_outcome o.outcome ≡ true)
      × (any (λ (b : Submission). b.submission_id == o.submission_id) s.submissions ≡ false)
      × (settled_if o.settle o now r (with_submission o payload receipt now s) ≡ (result, v))
unfolding add_submission
add_submission-ok o r payload now s v result h =
    let (current, h1) =
      >>-eq-ok
        (throw_if (not (eqb r.revision o.expected_revision) || not (is_pending r.status))
          revision_conflict)
        _ h in
    let (one, h2) =
      >>-eq-ok
        (throw_if (is_validating o.outcome && any (is_validation_of o.request_id) s.submissions)
          validation_active)
        _ h1 in
    let (settles, h3) =
      >>-eq-ok (throw_if (o.settle && not (is_accepted_outcome o.outcome)) only_accepted_settles) _
        h2 in
    let (verified, h4) =
      >>-eq-ok (if needs_decision r o.settle then check_decision r payload s.resolutions else ok tt)
        _ h3 in
    let (receipt, plain, h5) = >>=-eq-ok (canonical_receipt o.receipt) _ h4 in
    let (fresh, h6) =
      >>-eq-ok
        (throw_if (any (λ (b : Submission). b.submission_id == o.submission_id) s.submissions)
          row_conflict)
        _ h5 in
    (
      receipt,
      ground (arith, current),
      (λ on. ground (arith, settles)),
      ground (arith, fresh),
      ground (arith, h6),
    )

pub create_request-ok :
    (o : RequestOptions) (now : ℕ) (s v : RequestStore) (r : Request)
    → create_request o now s ≡ ok (r, v)
    → (contract : Json) × (conflicts_with_row o s.requests ≡ false)
      × (r ≡ new_request o contract now)
      × (v ≡ record s { requests = insert o.request_id (new_request o contract now) s.requests })
unfolding create_request
create_request-ok o now s v r h =
    let (run_id, attempt, h1) =
      >>=-eq-ok (or_throw attempt_mismatch (lookup o.attempt_id s.attempts)) _ h in
    let (same, h2) = >>-eq-ok (throw_if (not (run_id == o.run_id)) attempt_mismatch) _ h1 in
    let (contract, plain, h3) = >>=-eq-ok (canonical o.contract) _ h2 in
    let (free, h4) = >>-eq-ok (throw_if (conflicts_with_row o s.requests) row_conflict) _ h3 in
    (contract, ground (arith, free), ground (arith, h4), ground (arith, h4))

pub keep_request-ok :
    (o : RequestOptions) (s v : RequestStore) (x r : Request)
    → keep_request o s x ≡ ok (r, v)
    → (r ≡ x) × (v ≡ s)
keep_request-ok o s v x r h =
    let (same, h1) = >>-eq-ok (throw_if (not (same_identity x o)) request_conflicts) _ h in
    let (text, plain, h2) = >>=-eq-ok (same_canonical x.contract o.contract) _ h1 in
    let (kept, h3) = >>-eq-ok (throw_if (not text) request_conflicts) _ h2 in
    (ground (arith, h3), ground (arith, h3))

pub adopt-ok :
    (payload : Json) (r : Request) (b : Submission) (s v : RequestStore) (result : SubmissionResult)
    → adopt payload r b s ≡ ok (result, v)
    → (deep_equal b.payload payload ≡ true) × (v ≡ s)
adopt-ok payload r b s v result h =
    let (same, h1) = >>-eq-ok (throw_if (not (deep_equal b.payload payload)) key_conflicts) _ h in
    (ground (arith, same), ground (arith, h1))

not_both : (st : RequestStatus) → is_pending st ≡ true → is_settled st ≡ true → ⊥
not_both pending p q = absurd (ground arith)
not_both settled p q = absurd (ground arith)
not_both cancelled p q = absurd (ground arith)

-- The settled requests of a store stand in another one as they are.
unfoldable pub SettledStays : RequestStore → RequestStore → Type 0
SettledStays s u =
    (id : String) (r : Request)
    → lookup id s.requests ≡ some r
    → is_settled r.status ≡ true
    → lookup id u.requests ≡ some r

ensure_found-SettledStays :
    (o : RequestOptions) (now : ℕ) (s v : RequestStore) (r : Request) (found : Option Request)
    → lookup o.request_id s.requests ≡ found
    → ensure_found o now s found ≡ ok (r, v)
    → SettledStays s v
unfolding SettledStays
ensure_found-SettledStays o now s v r none missing h id x at_id done =
    let (contract, free, is_new, stored) = create_request-ok o now s v r h in
    ground (
      arith,
      stored,
      lookup-insert o.request_id id (new_request o contract now) s.requests,
      eq_iff o.request_id id,
      at_id,
      missing,
    )
ensure_found-SettledStays o now s v r (some y) found h id x at_id done =
    ground (arith, (keep_request-ok o s v y r h).1, at_id)

settled_if-SettledStays :
    (b : Bool) (o : SubmissionOptions) (now : ℕ) (r : Request) (s : RequestStore)
    → lookup o.request_id s.requests ≡ some r
    → is_pending r.status ≡ true
    → SettledStays s (settled_if b o now r s).1
unfolding SettledStays
settled_if-SettledStays false o now r s found open_request id x at_id done = at_id
settled_if-SettledStays true o now r s found open_request id x at_id done =
    elim (Bool-cases (o.request_id == id)) [
      | inl here ↦
          let same : o.request_id ≡ id = (eq_iff o.request_id id).0 here in
          let eq : r ≡ x = ground (arith, found, at_id, same) in
          absurd (
            not_both x.status (subst (λ (y : Request). is_pending y.status ≡ true) eq open_request)
              done)
      | inr there ↦ ground (
        arith,
        lookup-insert o.request_id id (settle_request o.submission_id now r) s.requests,
        at_id,
      )
    ]

add_or_adopt-SettledStays :
    (o : SubmissionOptions) (now : ℕ) (s v : RequestStore) (r : Request) (payload : Json)
    (result : SubmissionResult) (earlier : Option Submission)
    → lookup o.request_id s.requests ≡ some r
    → add_or_adopt o r payload now s earlier ≡ ok (result, v)
    → SettledStays s v
unfolding SettledStays
add_or_adopt-SettledStays o now s v r payload result (some b) found h id x at_id done =
    ground (arith, (adopt-ok payload r b s v result h).1, at_id)
add_or_adopt-SettledStays o now s v r payload result none found h id x at_id done =
    let (receipt, open_request, settles, fresh, written) =
      add_submission-ok o r payload now s v result h in
    let stays : SettledStays (with_submission o payload receipt now s)
        (settled_if o.settle o now r (with_submission o payload receipt now s)).1 =
      settled_if-SettledStays o.settle o now r (with_submission o payload receipt now s) found
        open_request in
    subst (λ (p : SubmissionResult × RequestStore). lookup id p.1.requests ≡ some x) written
      (stays id x at_id done)

-- Once a request is settled, later requests and submissions, of any callers, and later resolutions
-- leave it as it is: it stays settled by the same submission at the same revision.
pub never_reopened :
    {s u : RequestStore} (id : String) (r : Request)
    → RequestsReach s u
    → lookup id s.requests ≡ some r
    → is_settled r.status ≡ true
    → lookup id u.requests ≡ some r
unfolding ensure_request SettledStays
never_reopened id r unchanged found done = found
never_reopened id r (ensured {u} {v} {r = x} o now before h) found done =
    let kept : SettledStays u v =
      ensure_found-SettledStays o now u v x (lookup o.request_id u.requests) refl h in
    kept id r (never_reopened id r before found done) done
never_reopened id r (submitted {u} {v} {r = x} o now before h) found done =
    let (y, payload, at_o, plain, rest) = record_submission-ok o now u v x h in
    let kept : SettledStays u v =
      add_or_adopt-SettledStays o now u v y payload x
        (find_submission o.request_id o.idempotency_key u.submissions) at_o rest in
    kept id r (never_reopened id r before found done) done
never_reopened id r (resolved resolutions attempts before) found done =
    never_reopened id r before found done
