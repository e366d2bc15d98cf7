-- ===== src/Queue/Final.antt =====
-- The ends of src/workflows/queue.ts are final: 'done', 'failed' and 'cancelled' stay.
use pi_workflows.Queue.{is_final, Entry}
use pi_workflows.Prelude.{
  ◌∙◌, Bool-cases, ap, inr, refl, sym, some, ◌⊎◌, ok, none, inl, true, false, ◌≡◌, arith, ℕ,
  is_some, String, Option, Bool,
}
use pi_workflows.Queue.Calls.{
  settles_effect, after_settling, resumes, pauses, records, ends, completes, parks, renews, claims,
  requests_resume, queue_call, parks_source_change, parks_no_progress, parks_ambiguous, or_undone,
  or_same, marks_running, cancels_stale, cancels_run, Untouched, QueueCall, IsFree,
}
use pi_workflows.Queue.Claims.{
  settle_run_effect, record_run_event, verify_claim, update_claimed_status, renew_claim,
  release_claim, park_run, note_viewer, mark_running, log_event, complete_run, claim_run,
  ClaimOptions,
}
use pi_workflows.Queue.Ends.{
  fails, cancels, fail_dependents, end_run, cancel_stale, cancel_run, cancel_dependents, Ending,
}
use pi_workflows.Queue.Fencing.{untouched, event-Untouched}
use pi_workflows.Queue.Parks.{
  resume_paused, request_resume, pause_parked, park_for_source_change, park_for_no_progress,
  park_for_ambiguous_effect,
}
use mathlib.Core.Path.{subst}
use pi_workflows.Queue.Undone.{cancel_run_keeps}

-- settleRunEffect changes nothing but effects.
pub settling-Untouched :
    (c : QueueCall) (now : ℕ) (e : Entry)
    → Untouched (record e { effects = (after_settling c now e).effects }) (after_settling c now e)
unfolding after_settling settle_run_effect
settling-Untouched (settles_effect type) now e = untouched (settle_run_effect type now e)
settling-Untouched _ now e = untouched e

settling_holder : (c : QueueCall) (now : ℕ) (e : Entry) → (after_settling c now e).holder ≡ e.holder
settling_holder c now e = (settling-Untouched c now e).same_holder

module _ (token_hash shorten : String → String) where
  no_holder :
      (token : String) (now : ℕ) (e : Entry)
      → is_some e.holder ≡ false
      → verify_claim token_hash token now e ≡ false
  unfolding verify_claim
  no_holder token now e free = ground arith

  no_final_claim :
      (runner token : String) (lease_ms : ℕ) (o : ClaimOptions) (now : ℕ) (e : Entry)
      → is_final e.queue.status ≡ true
      → claim_run token_hash runner token lease_ms o now e ≡ none
  unfolding claim_run
  no_final_claim runner token lease_ms o now e final = ground arith

  no_final_end :
      (token : Option String) (ending : Ending) (code error : String) (now : ℕ) (e : Entry)
      → is_final e.queue.status ≡ true
      → end_run token_hash token ending code error now e ≡ (e, false)
  unfolding end_run
  no_final_end token ending code error now e final = ground arith

  no_final_stale :
      (control : String) (now : ℕ) (e : Entry)
      → is_final e.queue.status ≡ true
      → cancel_stale token_hash control now e ≡ ok (e, false)
  unfolding cancel_stale
  no_final_stale control now e final = ground arith

  no_final_cancel :
      (token : Option String) (now : ℕ) (e : Entry)
      → is_final e.queue.status ≡ true
      → cancel_run token_hash token now e ≡ ok (e, false)
  unfolding cancel_run
  no_final_cancel (some token) now e final =
      rw (no_final_end (some token) cancels "cancelled" "Workflow run cancelled" now e final) refl
  no_final_cancel none now e final =
      rw (no_final_end none cancels "cancelled" "Workflow run cancelled" now e final)
        (no_final_stale "workflow-control" now e final)

  no_final_pause :
      (now : ℕ) (e : Entry)
      → is_final e.queue.status ≡ true
      → (pause_parked now e ≡ (e, false))
        × (resume_paused now e ≡ (e, false))
        × (request_resume now e ≡ (e, false))
  unfolding pause_parked resume_paused request_resume
  no_final_pause now e final = ground arith

  final_call :
      (c : QueueCall) (now : ℕ) (e : Entry)
      → is_final e.queue.status ≡ true
      → is_some e.holder ≡ false
      → (queue_call token_hash shorten c now e ≡ after_settling c now e)
        ⊎ Untouched (after_settling c now e) (queue_call token_hash shorten c now e)
  unfolding queue_call mark_running update_claimed_status renew_claim park_run complete_run
      release_claim park_for_no_progress park_for_source_change park_for_ambiguous_effect
      after_settling
  final_call (claims runner token lease_ms o) now e final free =
      inl (rw (no_final_claim runner token lease_ms o now e final) refl)
  final_call (marks_running token) now e final free =
      inl (ground (arith, no_holder token now e free))
  final_call (renews token lease_ms) now e final free =
      inl (ground (arith, no_holder token now e free))
  final_call (parks token wall) now e final free = inl (ground (arith, no_holder token now e free))
  final_call (completes token wall) now e final free =
      inl (ground (arith, no_holder token now e free))
  final_call (parks_no_progress token detail) now e final free =
      inl (ground (arith, no_holder token now e free))
  final_call (parks_source_change token detail) now e final free =
      inl (ground (arith, no_holder token now e free))
  final_call (parks_ambiguous token) now e final free =
      inl (ground (arith, no_holder token now e free))
  final_call pauses now e final free =
      inl (ap (λ (r : Entry × Bool). r.0) (no_final_pause now e final).0)
  final_call resumes now e final free =
      inl (ap (λ (r : Entry × Bool). r.0) (no_final_pause now e final).1)
  final_call requests_resume now e final free =
      inl (ap (λ (r : Entry × Bool). r.0) (no_final_pause now e final).2)
  final_call (ends token ending code error) now e final free =
      inl (ap (λ (r : Entry × Bool). r.0) (no_final_end token ending code error now e final))
  final_call (cancels_run token) now e final free =
      inl (ap (or_undone e) (no_final_cancel token now e final))
  final_call (cancels_stale control) now e final free =
      inl (ap (or_undone e) (no_final_stale control now e final))
  final_call (records type runner payload) now e final free =
      inr (event-Untouched type runner payload now e)
  final_call (settles_effect type) now e final free = inl refl

  pub final-Untouched :
      (c : QueueCall) (now : ℕ) (e : Entry)
      → is_final e.queue.status ≡ true
      → is_some e.holder ≡ false
      → Untouched (after_settling c now e) (queue_call token_hash shorten c now e)
  final-Untouched c now e final free = elim (final_call c now e final free) [
    | inl same ↦
        subst (Untouched (after_settling c now e)) (sym same) (untouched (after_settling c now e))
    | inr logged ↦ logged
  ]

  claim_run-IsFree :
      (runner token : String) (lease_ms : ℕ) (o : ClaimOptions) (now : ℕ) (e : Entry)
      → is_final e.queue.status ≡ false
      → is_final (or_same e (claim_run token_hash runner token lease_ms o now e)).queue.status
        ≡ false
  unfolding claim_run log_event
  claim_run-IsFree runner token lease_ms o now e active = ground arith

  end_run-IsFree :
      (token : Option String) (ending : Ending) (code error : String) (now : ℕ) (e : Entry)
      → IsFree e
      → IsFree (end_run token_hash token ending code error now e).0
  unfolding end_run log_event note_viewer cancel_dependents fail_dependents
  end_run-IsFree token fails code error now e free = ground arith
  end_run-IsFree token cancels code error now e free = ground arith

  cancel_stale-IsFree :
      (control : String) (now : ℕ) (e : Entry)
      → IsFree e
      → IsFree (or_undone e (cancel_stale token_hash control now e))
  unfolding cancel_stale log_event note_viewer cancel_dependents
  cancel_stale-IsFree control now e free = ground arith

  cancel_run-IsFree :
      (token : Option String) (now : ℕ) (e : Entry)
      → IsFree e
      → IsFree (or_undone e (cancel_run token_hash token now e))
  cancel_run-IsFree token now e free =
      cancel_run_keeps token_hash (λ u. IsFree u) token now e free
        (end_run-IsFree token cancels "cancelled" "Workflow run cancelled" now e free)
        (cancel_stale-IsFree "workflow-control" now)

  active_call-IsFree :
      (c : QueueCall) (now : ℕ) (e : Entry)
      → is_final e.queue.status ≡ false
      → IsFree (queue_call token_hash shorten c now e)
  unfolding queue_call mark_running update_claimed_status renew_claim park_run complete_run
      release_claim park_for_no_progress park_for_source_change park_for_ambiguous_effect
      settle_run_effect record_run_event log_event pause_parked resume_paused request_resume
      note_viewer
  active_call-IsFree (claims runner token lease_ms o) now e active =
      (λ h. absurd (ground (arith, claim_run-IsFree runner token lease_ms o now e active)))
  active_call-IsFree (marks_running token) now e active = ground arith
  active_call-IsFree (renews token lease_ms) now e active = ground arith
  active_call-IsFree (parks token wall) now e active = ground arith
  active_call-IsFree (completes token wall) now e active = ground arith
  active_call-IsFree (parks_no_progress token detail) now e active = ground arith
  active_call-IsFree (parks_source_change token detail) now e active = ground arith
  active_call-IsFree (parks_ambiguous token) now e active = ground arith
  active_call-IsFree pauses now e active = ground arith
  active_call-IsFree resumes now e active = ground arith
  active_call-IsFree requests_resume now e active = ground arith
  active_call-IsFree (ends token ending code error) now e active =
      end_run-IsFree token ending code error now e (λ f. absurd (ground arith))
  active_call-IsFree (cancels_run token) now e active =
      cancel_run-IsFree token now e (λ f. absurd (ground arith))
  active_call-IsFree (cancels_stale control) now e active =
      cancel_stale-IsFree control now e (λ f. absurd (ground arith))
  active_call-IsFree (records type runner payload) now e active = ground arith
  active_call-IsFree (settles_effect type) now e active = ground arith

  pub call-IsFree :
      (c : QueueCall) (now : ℕ) (e : Entry)
      → IsFree e
      → IsFree (queue_call token_hash shorten c now e)
  call-IsFree c now e free = elim (Bool-cases (is_final e.queue.status)) [
    | inl final ↦ (λ f.
        let same = final-Untouched c now e final (free final) in
        ground (arith, same.same_holder ∙ settling_holder c now e, free final))
    | inr active ↦ active_call-IsFree c now e active
  ]
