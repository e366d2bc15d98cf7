-- ===== src/Requests/Retry.antt =====
-- A submission of src/workflows/requests.ts that is sent again.
use pi_workflows.Requests.{
  canonical, new_request, ensure_request, ensure_found, Submission, RequestStore, RequestOptions,
  Request, key_conflicts,
}
use pi_workflows.Prelude.{
  inr, inl, throw, or_else, Option-cases, ap, ◌∙◌, sym, refl, not, false, true, some, ok, none, ◌≡◌,
  lookup, arith, ℕ, throw_if, lookup-insert, is_some, eq_iff, String, Option, List, Bool, >>-eq-ok,
  [], ◌∷◌, ◌++◌,
}
use pi_workflows.Json.{Json}
use pi_workflows.Json.Equality.{deep_equal}
use pi_workflows.Requests.Settled.{
  with_submission, record_submission-ok, keep_request-ok, create_request-ok, adopt-ok,
  add_submission-ok,
}
use pi_workflows.Requests.Submit.{
  record_submission, plain_receipt, unchanged, resolved, submitted, ensured, settled_if,
  settle_request, new_submission, find_submission, add_or_adopt, SubmissionResult,
  SubmissionOptions, RequestsReach,
}
use mathlib.Core.Path.{subst}

find-later :
    (id key : String) (bs : List Submission) (b c : Submission)
    → find_submission id key bs ≡ some b
    → find_submission id key (bs ++ c ∷ []) ≡ some b
unfolding find_submission
find-later id key [] b c h = absurd (ground arith)
find-later id key (x ∷ bs) b c h = ground (arith, find-later id key bs b c)

find-new :
    (id key : String) (bs : List Submission) (c : Submission)
    → find_submission id key bs ≡ none
    → c.request_id ≡ id
    → c.idempotency_key ≡ key
    → find_submission id key (bs ++ c ∷ []) ≡ some c
unfolding find_submission
find-new id key [] c h p q = ground (arith, eq_iff c.request_id id, eq_iff c.idempotency_key key)
find-new id key (x ∷ bs) c h p q = ground (arith, find-new id key bs c)

-- The submission with a key is the given one, and its request is there.
pub record Holds (id key : String) (b : Submission) (s : RequestStore) : Type 0 where
  pub request : is_some (lookup id s.requests) ≡ true
  pub submission : find_submission id key s.submissions ≡ some b

settled_if-Holds :
    (id key : String) (b : Submission) (settle : Bool) (o : SubmissionOptions) (now : ℕ)
    (r : Request) (s : RequestStore)
    → Holds id key b s
    → Holds id key b (settled_if settle o now r s).1
settled_if-Holds id key b false o now r s h = h
settled_if-Holds id key b true o now r s h = record {
  request = ground (
    arith,
    lookup-insert o.request_id id (settle_request o.submission_id now r) s.requests,
    h.request,
  );
  submission = h.submission;
}

ensure_found-Holds :
    (id key : String) (b : Submission) (o : RequestOptions) (now : ℕ) (s v : RequestStore)
    (r : Request) (found : Option Request)
    → ensure_found o now s found ≡ ok (r, v)
    → Holds id key b s
    → Holds id key b v
ensure_found-Holds id key b o now s v r none h held =
    let (contract, free, is_new, stored) = create_request-ok o now s v r h in
    subst (Holds id key b) (sym stored) (record {
      request = ground (
        arith,
        lookup-insert o.request_id id (new_request o contract now) s.requests,
        held.request,
      );
      submission = held.submission;
    })
ensure_found-Holds id key b o now s v r (some y) h held =
    subst (Holds id key b) (sym ((keep_request-ok o s v y r h).1)) held

add_or_adopt-Holds :
    (id key : String) (b : Submission) (o : SubmissionOptions) (now : ℕ) (s v : RequestStore)
    (r : Request) (payload : Json) (result : SubmissionResult) (earlier : Option Submission)
    → add_or_adopt o r payload now s earlier ≡ ok (result, v)
    → Holds id key b s
    → Holds id key b v
add_or_adopt-Holds id key b o now s v r payload result (some c) h held =
    subst (Holds id key b) (sym ((adopt-ok payload r c s v result h).1)) held
add_or_adopt-Holds id key b o now s v r payload result none h held =
    let (receipt, open_request, settles, fresh, written) =
      add_submission-ok o r payload now s v result h in
    let row = new_submission o payload receipt now in
    let after : Holds id key b (with_submission o payload receipt now s) = record {
      request = held.request;
      submission = find-later id key s.submissions b row held.submission;
    } in
    subst (λ (p : SubmissionResult × RequestStore). Holds id key b p.1) written
      (settled_if-Holds id key b o.settle o now r (with_submission o payload receipt now s) after)

RequestsReach-Holds :
    {s u : RequestStore} (id key : String) (b : Submission)
    → RequestsReach s u
    → Holds id key b s
    → Holds id key b u
unfolding ensure_request
RequestsReach-Holds id key b unchanged held = held
RequestsReach-Holds id key b (ensured {u} {v} {r} o now before h) held =
    ensure_found-Holds id key b o now u v r (lookup o.request_id u.requests) h
      (RequestsReach-Holds id key b before held)
RequestsReach-Holds id key b (submitted {u} {v} {r} o now before h) held =
    let (y, payload, at_o, plain, rest) = record_submission-ok o now u v r h in
    add_or_adopt-Holds id key b o now u v y payload r
      (find_submission o.request_id o.idempotency_key u.submissions) rest
      (RequestsReach-Holds id key b before held)
RequestsReach-Holds id key b (resolved {u} resolutions attempts before) held =
    let h = RequestsReach-Holds id key b before held in
    record { request = h.request; submission = h.submission }

settled_if-result :
    (settle : Bool) (o : SubmissionOptions) (now : ℕ) (r : Request) (s : RequestStore)
    → (settled_if settle o now r s).0.submission_id ≡ o.submission_id
settled_if-result true o now r s = refl
settled_if-result false o now r s = refl

-- A submission that is not adopted has stored its payload under its key.
new_submission-Holds :
    (o : SubmissionOptions) (now : ℕ) (s v : RequestStore) (r : Request) (payload : Json)
    (result : SubmissionResult) (earlier : Option Submission)
    → lookup o.request_id s.requests ≡ some r
    → find_submission o.request_id o.idempotency_key s.submissions ≡ earlier
    → add_or_adopt o r payload now s earlier ≡ ok (result, v)
    → result.is_adopted ≡ false
    → (b : Submission) × (b.payload ≡ payload)
      × (b.submission_id ≡ result.submission_id)
      × Holds o.request_id o.idempotency_key b v
new_submission-Holds o now s v r payload result (some c) found old h is_new =
    let (same, h1) = >>-eq-ok (throw_if (not (deep_equal c.payload payload)) key_conflicts) _ h in
    absurd (ground (arith, h1))
new_submission-Holds o now s v r payload result none found old h is_new =
    let (receipt, open_request, settles, fresh, written) =
      add_submission-ok o r payload now s v result h in
    let row : Submission = new_submission o payload receipt now in
    let after : Holds o.request_id o.idempotency_key row (with_submission o payload receipt now s) =
      record {
        request = ground (arith, found);
        submission = find-new o.request_id o.idempotency_key s.submissions row old refl refl;
      } in
    (
      row,
      refl,
      sym (settled_if-result o.settle o now r (with_submission o payload receipt now s))
          ∙ ap (λ (p : SubmissionResult × RequestStore). p.0.submission_id) written,
      subst (λ (p : SubmissionResult × RequestStore). Holds o.request_id o.idempotency_key row p.1)
          written
          (settled_if-Holds o.request_id o.idempotency_key row o.settle o now r
            (with_submission o payload receipt now s) after),
    )

again :
    (o : SubmissionOptions) (now : ℕ) (w : RequestStore) (payload : Json) (b : Submission)
    → Holds o.request_id o.idempotency_key b w
    → canonical o.payload ≡ ok payload
    → (deep_equal b.payload payload ≡ true
        → (result : SubmissionResult) × (record_submission o now w ≡ ok (result, w))
          × (result.is_adopted ≡ true)
          × (result.submission_id ≡ b.submission_id))
      × (deep_equal b.payload payload ≡ false → record_submission o now w ≡ throw key_conflicts)
unfolding record_submission
again o now w payload b held plain = elim (Option-cases (lookup o.request_id w.requests)) [
  | inl missing ↦ absurd (ground (arith, held.request))
  | inr (r, found) ↦ (
    (λ same. (
      record {
        interaction = r;
        submission_id = b.submission_id;
        is_adopted = true;
        receipt = or_else b.receipt (plain_receipt r.request_id b.submission_id);
      },
      rw (found, plain, held.submission, same) refl,
      refl,
      refl,
    )),
    (λ other. rw (found, plain, held.submission, other) refl),
  )
]

-- A submission that was stored is stored once. Sent again with the same key, after any other
-- requests and submissions and whatever its request has become, it changes nothing: with an equal
-- payload it returns as adopted, under the first one's id, and with another payload it throws that
-- the key conflicts.
pub retry_is_adopted :
    (o o' : SubmissionOptions) (now now' : ℕ) (s v w : RequestStore) (result : SubmissionResult)
    (payload payload' : Json)
    → record_submission o now s ≡ ok (result, v)
    → result.is_adopted ≡ false
    → RequestsReach v w
    → o'.request_id ≡ o.request_id
    → o'.idempotency_key ≡ o.idempotency_key
    → canonical o.payload ≡ ok payload
    → canonical o'.payload ≡ ok payload'
    → (deep_equal payload payload' ≡ true
        → (retried : SubmissionResult) × (record_submission o' now' w ≡ ok (retried, w))
          × (retried.is_adopted ≡ true)
          × (retried.submission_id ≡ result.submission_id))
      × (deep_equal payload payload' ≡ false → record_submission o' now' w ≡ throw key_conflicts)
retry_is_adopted o o' now now' s v w result payload payload' first is_new path same_id same_key
      plain plain' =
    let (r, p, found, plain_p, rest) = record_submission-ok o now s v result first in
    let (b, stored, id, held) =
      new_submission-Holds o now s v r p result
        (find_submission o.request_id o.idempotency_key s.submissions) found refl rest is_new in
    let eq : b.payload ≡ payload = ground (arith, stored, plain, plain_p) in
    let later = RequestsReach-Holds o.request_id o.idempotency_key b path held in
    let moved : Holds o'.request_id o'.idempotency_key b w =
      subst (λ k. Holds k o'.idempotency_key b w) (sym same_id)
        (subst (λ k. Holds o.request_id k b w) (sym same_key) later) in
    let (adopts, conflicts) = again o' now' w payload' b moved plain' in
    (
      (λ same.
          let (retried, ran, adopted_it, of_first) =
            adopts (subst (λ x. deep_equal x payload' ≡ true) (sym eq) same) in
          (retried, ran, adopted_it, of_first ∙ id)),
      (λ other. conflicts (subst (λ x. deep_equal x payload' ≡ false) (sym eq) other)),
    )
