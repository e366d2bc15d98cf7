-- ===== src/Requests/Output.antt =====
-- The output of a settled request of src/workflows/requests.ts.
use pi_workflows.Requests.{
  is_accepted_outcome, ensure_request, new_request, is_settled, ensure_found, Submission,
  RequestStore, RequestOptions, Request,
}
use pi_workflows.Prelude.{
  Option-cases, refl, sym, inr, none, arith, true, some, ok, inl, ◌≡◌, ◌==◌, false, ℕ, lookup,
  is_some, insert, find_first, eq_iff, String, Option, List, Bool-cases, Bool, Assoc, All, [], ◌∷◌,
  ◌++◌,
}
use pi_workflows.Requests.Settled.{
  with_submission, record_submission-ok, adopt-ok, add_submission-ok, keep_request-ok,
  create_request-ok,
}
use pi_workflows.Requests.Submit.{
  unchanged, resolved, submitted, ensured, new_submission, find_submission, add_or_adopt,
  accepted_request_output, SubmissionResult, RequestsReach, settled_if, settle_request,
  is_accepted_submission, SubmissionOptions,
}
use mathlib.Core.Path.{subst}
use pi_workflows.Json.{Json}

-- An accepted submission has the id, for the request.
abbrev is_answered : String → Option String → List Submission → Bool
is_answered request_id none bs = false
is_answered request_id (some id) bs = is_some (find_first (is_accepted_submission request_id id) bs)

-- A row stands under its own id, and has its answer if it is settled.
abbrev pub IsAnswered : List Submission → String × Request → Type 0
IsAnswered bs (id, r) =
    (r.request_id ≡ id)
    × (is_settled r.status ≡ true → is_answered r.request_id r.accepted_submission_id bs ≡ true)

abbrev pub AllAnswered : RequestStore → Type 0
AllAnswered s = All (IsAnswered s.submissions) s.requests

find_first-later :
    (p : Submission → Bool) (bs : List Submission) (b : Submission)
    → is_some (find_first p bs) ≡ true
    → is_some (find_first p (bs ++ b ∷ [])) ≡ true
find_first-later p [] b h = absurd (ground arith)
find_first-later p (x ∷ bs) b h = ground (arith, find_first-later p bs b)

find_first-new :
    (p : Submission → Bool) (bs : List Submission) (b : Submission)
    → p b ≡ true
    → is_some (find_first p (bs ++ b ∷ [])) ≡ true
find_first-new p [] b h = ground arith
find_first-new p (x ∷ bs) b h = ground (arith, find_first-new p bs b)

answered_later :
    (id : String) (sub : Option String) (bs : List Submission) (b : Submission)
    → is_answered id sub bs ≡ true
    → is_answered id sub (bs ++ b ∷ []) ≡ true
answered_later id none bs b h = h
answered_later id (some x) bs b h = find_first-later (is_accepted_submission id x) bs b h

-- More submissions take no answer away.
rows_later :
    (bs : List Submission) (b : Submission) (rs : Assoc Request)
    → All (IsAnswered bs) rs
    → All (IsAnswered (bs ++ b ∷ [])) rs
rows_later bs b [] h = tt
rows_later bs b ((id, r) ∷ rs) h = (
  (h.0.0, (λ done. answered_later r.request_id r.accepted_submission_id bs b (h.0.1 done))),
  rows_later bs b rs h.1,
)

insert_row :
    (bs : List Submission) (id : String) (r : Request) (rs : Assoc Request)
    → IsAnswered bs (id, r)
    → All (IsAnswered bs) rs
    → All (IsAnswered bs) (insert id r rs)
unfolding insert
insert_row bs id r [] new h = (new, tt)
insert_row bs id r ((k, x) ∷ rs) new h = elim (Bool-cases (k == id)) [
  | inl here ↦ rw here (subst (λ j. IsAnswered bs (j, r)) (sym ((eq_iff k id).0 here)) new, h.1)
  | inr there ↦ rw there (h.0, insert_row bs id r rs new h.1)
]

row_at :
    (bs : List Submission) (id : String) (r : Request) (rs : Assoc Request)
    → All (IsAnswered bs) rs
    → lookup id rs ≡ some r
    → IsAnswered bs (id, r)
unfolding lookup
row_at bs id r [] h found = absurd (ground arith)
row_at bs id r ((k, x) ∷ rs) h found = elim (Bool-cases (k == id)) [
  | inl here ↦
      let eq : x ≡ r = ground arith in
      subst (λ j. IsAnswered bs (j, r)) ((eq_iff k id).0 here)
        (subst (λ (y : Request). IsAnswered bs (k, y)) eq h.0)
  | inr there ↦ row_at bs id r rs h.1 (ground arith)
]

ensure_found-AllAnswered :
    (o : RequestOptions) (now : ℕ) (s v : RequestStore) (r : Request) (found : Option Request)
    → ensure_found o now s found ≡ ok (r, v)
    → AllAnswered s
    → AllAnswered v
ensure_found-AllAnswered o now s v r none h all =
    let (contract, free, is_new, stored) = create_request-ok o now s v r h in
    subst (λ u. AllAnswered u) (sym stored)
      (insert_row s.submissions o.request_id (new_request o contract now) s.requests
        (refl, (λ done. absurd (ground arith))) all)
ensure_found-AllAnswered o now s v r (some y) h all =
    subst (λ u. AllAnswered u) (sym ((keep_request-ok o s v y r h).1)) all

settled_if-AllAnswered :
    (settle : Bool) (o : SubmissionOptions) (now : ℕ) (r : Request) (s : RequestStore)
    → r.request_id ≡ o.request_id
    → (settle ≡ true → is_answered o.request_id (some o.submission_id) s.submissions ≡ true)
    → AllAnswered s
    → AllAnswered (settled_if settle o now r s).1
settled_if-AllAnswered false o now r s same answer all = all
settled_if-AllAnswered true o now r s same answer all =
    insert_row s.submissions o.request_id (settle_request o.submission_id now r) s.requests
      (
        same,
        (λ done.
            subst (λ k. is_answered k (some o.submission_id) s.submissions ≡ true) (sym same)
              (answer refl)),
      )
      all

own_row :
    (o : SubmissionOptions) (payload : Json) (receipt : Option Json) (now : ℕ)
    → is_accepted_outcome o.outcome ≡ true
    → is_accepted_submission o.request_id o.submission_id (new_submission o payload receipt now)
      ≡ true
own_row o payload receipt now h =
    ground (arith, eq_iff o.request_id o.request_id, eq_iff o.submission_id o.submission_id)

add_or_adopt-AllAnswered :
    (o : SubmissionOptions) (now : ℕ) (s v : RequestStore) (r : Request) (payload : Json)
    (result : SubmissionResult) (earlier : Option Submission)
    → lookup o.request_id s.requests ≡ some r
    → add_or_adopt o r payload now s earlier ≡ ok (result, v)
    → AllAnswered s
    → AllAnswered v
add_or_adopt-AllAnswered o now s v r payload result (some b) found h all =
    subst (λ u. AllAnswered u) (sym ((adopt-ok payload r b s v result h).1)) all
add_or_adopt-AllAnswered o now s v r payload result none found h all =
    let (receipt, open_request, settles, fresh, written) =
      add_submission-ok o r payload now s v result h in
    let row : Submission = new_submission o payload receipt now in
    let answer : o.settle ≡ true
        → is_answered o.request_id (some o.submission_id) (s.submissions ++ row ∷ []) ≡ true =
      λ on.
        find_first-new (is_accepted_submission o.request_id o.submission_id) s.submissions row
          (own_row o payload receipt now (settles on)) in
    subst (λ (p : SubmissionResult × RequestStore). AllAnswered p.1) written
      (settled_if-AllAnswered o.settle o now r (with_submission o payload receipt now s)
        ((row_at s.submissions o.request_id r s.requests all found).0) answer
        (rows_later s.submissions row s.requests all))

RequestsReach-AllAnswered : {s u : RequestStore} → RequestsReach s u → AllAnswered s → AllAnswered u
unfolding ensure_request
RequestsReach-AllAnswered unchanged all = all
RequestsReach-AllAnswered (ensured {u} {v} {r} o now before h) all =
    ensure_found-AllAnswered o now u v r (lookup o.request_id u.requests) h
      (RequestsReach-AllAnswered before all)
RequestsReach-AllAnswered (submitted {u} {v} {r} o now before h) all =
    let (y, payload, at_o, plain, rest) = record_submission-ok o now u v r h in
    add_or_adopt-AllAnswered o now u v y payload r
      (find_submission o.request_id o.idempotency_key u.submissions) at_o rest
      (RequestsReach-AllAnswered before all)
RequestsReach-AllAnswered (resolved {u} resolutions attempts before) all =
    RequestsReach-AllAnswered before all

answer_found :
    (r : Request) (sub : Option String) (s : RequestStore)
    → r.accepted_submission_id ≡ sub
    → is_settled r.status ≡ true
    → is_answered r.request_id sub s.submissions ≡ true
    → (v : Json) × (accepted_request_output r s ≡ ok v)
unfolding accepted_request_output
answer_found r none s has_id done h = absurd (ground arith)
answer_found r (some id) s has_id done h =
    elim (Option-cases (find_first (is_accepted_submission r.request_id id) s.submissions)) [
      | inl missing ↦ absurd (ground arith)
      | inr (b, found) ↦ (b.payload, rw (done, has_id, found) refl)
    ]

-- In every store that requests and submissions lead to from one whose settled requests have their
-- accepted submissions, such as the empty one, a settled request has an output:
-- acceptedRequestOutput returns one and does not throw.
pub settled_request_has_output :
    {s u : RequestStore} (id : String) (r : Request)
    → AllAnswered s
    → RequestsReach s u
    → lookup id u.requests ≡ some r
    → is_settled r.status ≡ true
    → (v : Json) × (accepted_request_output r u ≡ ok v)
settled_request_has_output {s} {u} id r all path found done =
    let row = row_at u.submissions id r u.requests (RequestsReach-AllAnswered path all) found in
    answer_found r r.accepted_submission_id u refl done (row.1 done)
