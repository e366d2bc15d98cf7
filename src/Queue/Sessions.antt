-- ===== src/Queue/Sessions.antt =====
-- The whole queue of src/workflows/queue.ts: one active run for a session at most.
use pi_workflows.Prelude.{
  throw_if, or_throw, eq_iff, >>=-eq-ok, has, sym, >>-eq-ok, false, ◌≤◌, ◌==◌, if◌then◌else◌, Bool,
  [], ◌∷◌,
}
use pi_workflows.Queue.Ends.{fails, cancels}
use pi_workflows.Queue.{session_busy, no_project, is_final, Entry, RunRow}
use pi_workflows.Prelude.{
  refl, ◌∙◌, inr, not, ◌&&◌, some, remove, inl, true, ok, arith, ◌≡◌, ℕ, opt_eq, String, Option,
  Bool-cases, Assoc,
}
use pi_workflows.Queue.Calls.{
  settles_effect, resumes, pauses, records, ends, completes, parks, renews, claims, requests_resume,
  queue_call, parks_source_change, parks_no_progress, parks_ambiguous, or_undone, marks_running,
  cancels_stale, cancels_run, QueueCall, IsFree,
}
use pi_workflows.Queue.Claims.{
  settle_run_effect, update_claimed_status, renew_claim, release_claim, record_run_event, park_run,
  note_viewer, mark_running, log_event, complete_run, claim_run,
}
use pi_workflows.Queue.Ends.{
  cancels, fail_dependents, end_run, cancel_stale, cancel_dependents, Ending,
}
use pi_workflows.Queue.Final.{settling-Untouched, call-IsFree, final-Untouched}
use pi_workflows.Queue.Parks.{
  resume_paused, request_resume, pause_parked, park_for_source_change, park_for_no_progress,
  park_for_ambiguous_effect,
}
use pi_workflows.Queue.Store.{
  reserved_session_busy, lineage_of, session_of, queued_entry, Lineage, session_is_busy,
  reserve_run, holds_session, ReservationOptions,
}
use pi_workflows.Queue.Undone.{cancel_run_keeps}
use mathlib.Core.Path.{subst}
use pi_workflows.Queue.{already_reserved, no_project, session_busy}
use pi_workflows.Queue.Steps.{
  deletes, reserves, write_at, starts_there, engine_writes_to, calls_on, call_at, active_runs,
  QueueReaches, AllFree,
}

module _ (token_hash shorten : String → String) where
  end_run-session :
      (token : Option String) (ending : Ending) (code error : String) (now : ℕ) (e : Entry)
      → (end_run token_hash token ending code error now e).0.queue.session ≡ e.queue.session
  unfolding end_run log_event note_viewer cancel_dependents fail_dependents
  end_run-session token fails code error now e = ground arith
  end_run-session token cancels code error now e = ground arith

  cancel_stale-session :
      (control : String) (now : ℕ) (e : Entry)
      → (or_undone e (cancel_stale token_hash control now e)).queue.session ≡ e.queue.session
  unfolding cancel_stale log_event note_viewer cancel_dependents
  cancel_stale-session control now e = ground arith

  call-session :
      (c : QueueCall) (now : ℕ) (e : Entry)
      → (queue_call token_hash shorten c now e).queue.session ≡ e.queue.session
  unfolding queue_call mark_running update_claimed_status renew_claim park_run complete_run
      release_claim park_for_no_progress park_for_source_change park_for_ambiguous_effect
      record_run_event log_event pause_parked resume_paused request_resume note_viewer claim_run
      settle_run_effect
  call-session (claims runner token lease_ms o) now e = ground arith
  call-session (marks_running token) now e = ground arith
  call-session (renews token lease_ms) now e = ground arith
  call-session (parks token wall) now e = ground arith
  call-session (completes token wall) now e = ground arith
  call-session (parks_no_progress token detail) now e = ground arith
  call-session (parks_source_change token detail) now e = ground arith
  call-session (parks_ambiguous token) now e = ground arith
  call-session pauses now e = ground arith
  call-session resumes now e = ground arith
  call-session requests_resume now e = ground arith
  call-session (ends token ending code error) now e = end_run-session token ending code error now e
  call-session (cancels_run token) now e =
      cancel_run_keeps token_hash (λ u. u.queue.session ≡ e.queue.session) token now e refl
        (end_run-session token cancels "cancelled" "Workflow run cancelled" now e)
        (λ u h. cancel_stale-session "workflow-control" now u ∙ h)
  call-session (cancels_stale control) now e = cancel_stale-session control now e
  call-session (records type runner payload) now e = refl
  call-session (settles_effect type) now e = refl

  call-holds_session :
      (session : String) (c : QueueCall) (now : ℕ) (e : Entry)
      → IsFree e
      → holds_session session (queue_call token_hash shorten c now e) ≡ true
      → holds_session session e ≡ true
  call-holds_session session c now e free h = elim (Bool-cases (is_final e.queue.status)) [
    | inl final ↦
        let same = final-Untouched token_hash shorten c now e final (free final) in
        subst (λ q. (opt_eq q.session (some session) && not (is_final q.status)) ≡ true)
          (same.same_queue ∙ (settling-Untouched c now e).same_queue) h
    | inr active ↦ ground (arith, call-session c now e)
  ]

  abbrev FreeEntry : String × Entry → Type 0
  FreeEntry p = IsFree p.1

  called-IsFree :
      (b : Bool) (c : QueueCall) (now : ℕ) (e : Entry)
      → IsFree e
      → IsFree (if b then queue_call token_hash shorten c now e else e)
  called-IsFree true c now e free = call-IsFree token_hash shorten c now e free
  called-IsFree false c now e free = free

  written-IsFree :
      (b : Bool) (run : RunRow) (e : Entry)
      → IsFree e
      → IsFree (if b then record e { run = run } else e)
  written-IsFree true run e free = free
  written-IsFree false run e free = free

  call_at-AllFree :
      (id : String) (c : QueueCall) (now : ℕ) (es : Assoc Entry)
      → AllFree es
      → AllFree (call_at token_hash shorten id c now es)
  unfolding call_at
  call_at-AllFree id c now [] free = tt
  call_at-AllFree id c now ((k, e) ∷ es) free =
      (called-IsFree (k == id) c now e free.0, call_at-AllFree id c now es free.1)

  write_at-AllFree :
      (id : String) (run : RunRow) (es : Assoc Entry) → AllFree es → AllFree (write_at id run es)
  unfolding write_at
  write_at-AllFree id run [] free = tt
  write_at-AllFree id run ((k, e) ∷ es) free =
      (written-IsFree (k == id) run e free.0, write_at-AllFree id run es free.1)

  remove-AllFree : (id : String) (es : Assoc Entry) → AllFree es → AllFree (remove id es)
  unfolding remove
  remove-AllFree id [] free = tt
  remove-AllFree id ((k, e) ∷ es) free = elim (Bool-cases (k == id)) [
    | inl gone ↦ rw gone (remove-AllFree id es free.1)
    | inr kept ↦ rw kept (free.0, remove-AllFree id es free.1)
  ]

  active_runs-call_at :
      (session id : String) (c : QueueCall) (now : ℕ) (es : Assoc Entry)
      → AllFree es
      → active_runs session (call_at token_hash shorten id c now es) ≤ active_runs session es
  unfolding call_at active_runs
  active_runs-call_at session id c now [] free = ground arith
  active_runs-call_at session id c now ((k, e) ∷ es) free = ground (
    arith,
    active_runs-call_at session id c now es free.1,
    call-holds_session session c now e free.0,
  )

  active_runs-write_at :
      (session id : String) (run : RunRow) (es : Assoc Entry)
      → active_runs session (write_at id run es) ≡ active_runs session es
  unfolding write_at active_runs
  active_runs-write_at session id run [] = refl
  active_runs-write_at session id run ((k, e) ∷ es) =
      ground (arith, active_runs-write_at session id run es)

  active_runs-remove :
      (session id : String) (es : Assoc Entry)
      → active_runs session (remove id es) ≤ active_runs session es
  unfolding remove active_runs
  active_runs-remove session id [] = ground arith
  active_runs-remove session id ((k, e) ∷ es) = ground (arith, active_runs-remove session id es)

no_active_run :
    (session : String) (es : Assoc Entry)
    → session_is_busy session es ≡ false
    → active_runs session es ≡ 0
unfolding session_is_busy active_runs
no_active_run session [] h = refl
no_active_run session (p ∷ es) h = ground (arith, no_active_run session es)

-- A reservation puts a queued run with a new id before the others, if none of them holds the session.
pub reserved :
    (project : Option String) (o : ReservationOptions) (now : ℕ) (es gs : Assoc Entry)
    → reserve_run project o now es ≡ ok gs
    → (id : String) × (l : Lineage) × (gs ≡ (o.run_id, queued_entry o id l now) ∷ es)
      × (reserved_session_busy (session_of o) es ≡ false)
      × (has o.run_id es ≡ false)
unfolding reserve_run
reserved project o now es gs h =
    let (fresh, h1) = >>-eq-ok (throw_if (has o.run_id es) already_reserved) _ h in
    let (l, lineage, h2) = >>=-eq-ok (lineage_of o es) _ h1 in
    let (idle, h3) =
      >>-eq-ok (throw_if (reserved_session_busy (session_of o) es) (session_busy o.session)) _ h2 in
    let (id, found, h4) = >>=-eq-ok (or_throw no_project project) _ h3 in
    (id, l, ground (arith, h4), ground (arith, idle), ground (arith, fresh))

queued_entry-IsFree :
    (o : ReservationOptions) (project : String) (l : Lineage) (now : ℕ)
    → IsFree (queued_entry o project l now)
unfolding queued_entry
queued_entry-IsFree o project l now h = absurd (ground arith)

reserve-active_runs :
    (session project : String) (o : ReservationOptions) (l : Lineage) (now : ℕ) (es : Assoc Entry)
    → reserved_session_busy (session_of o) es ≡ false
    → active_runs session es ≤ 1
    → active_runs session ((o.run_id, queued_entry o project l now) ∷ es) ≤ 1
unfolding active_runs queued_entry
reserve-active_runs session project o l now es free h = elim (Bool-cases o.headless) [
  | inl headless ↦ ground arith
  | inr shown ↦ elim (Bool-cases (opt_eq (some o.session) (some session))) [
    | inl mine ↦ ground (arith, eq_iff o.session session, no_active_run session es)
    | inr other ↦ ground arith
  ]
]

module _ (token_hash shorten : String → String) where
  QueueReaches-AllFree : {es : Assoc Entry} → QueueReaches token_hash shorten [] es → AllFree es
  QueueReaches-AllFree starts_there = tt
  QueueReaches-AllFree (reserves {fs} project o now r h) =
      let (id, l, same, free, fresh) = reserved project o now fs _ h in
      subst (λ gs. AllFree gs) (sym same) (queued_entry-IsFree o id l now, QueueReaches-AllFree r)
  QueueReaches-AllFree (calls_on {fs} id c now r) =
      call_at-AllFree token_hash shorten id c now fs (QueueReaches-AllFree r)
  QueueReaches-AllFree (deletes {fs} id r) =
      remove-AllFree token_hash shorten id fs (QueueReaches-AllFree r)
  QueueReaches-AllFree (engine_writes_to {fs} id run r) =
      write_at-AllFree token_hash shorten id run fs (QueueReaches-AllFree r)

  -- Of the runs that reserve a session, the interactive ones, one at most has not ended in any
  -- queue that reservations, calls, deletions and writes of the engine lead to from an empty one.
  pub one_active_run :
      {es : Assoc Entry} (session : String)
      → QueueReaches token_hash shorten [] es
      → active_runs session es ≤ 1
  unfolding active_runs
  one_active_run session starts_there = omega arith
  one_active_run session (reserves {fs} project o now r h) =
      let (id, l, same, free, fresh) = reserved project o now fs _ h in
      subst (λ gs. active_runs session gs ≤ 1) (sym same)
        (reserve-active_runs session id o l now fs free (one_active_run session r))
  one_active_run session (calls_on {fs} id c now r) = omega (
    arith,
    active_runs-call_at token_hash shorten session id c now fs (QueueReaches-AllFree r),
    one_active_run session r,
  )
  one_active_run session (deletes {fs} id r) =
      omega (arith, active_runs-remove token_hash shorten session id fs, one_active_run session r)
  one_active_run session (engine_writes_to {fs} id run r) =
      rw (active_runs-write_at token_hash shorten session id run fs) (one_active_run session r)
