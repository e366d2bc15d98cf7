-- ===== src/Queue/Ends.antt =====
-- The ends of a run in src/workflows/queue.ts: failing, cancelling and deleting it.
use pi_workflows.Queue.{
  inconsistent_cancel, run_failed, run_cancelled, request_cancelled, owner_type_of, owner_id_of,
  launch_text, is_unsettled, is_request_pending, is_queued_or_starting, is_live, is_final, is_ended,
  holds_hash, generation_of, effect_pending, effect_cancelled, effect_applying, effect_ambiguous,
  cancel_pending_messages, by_control, attempt_failed, attempt_cancelled, Submission, StoredStatus,
  Request, Event, EffectStatus, EffectAttempt, Decision, AttemptStatus, Entry, QueueRow, RunRow,
  LaunchStatus, QueueError, Effect, Attempt,
}
use pi_workflows.AttemptTime.{close_where}
use pi_workflows.Json.{end, bool, str, field, Fields}
use pi_workflows.Prelude.{
  ◌>>◌, ◌||◌, append, [], ◌∷◌, ◌++◌, not, eqb, ◌+◌, ◌&&◌, true, some, ok, none, map, if◌then◌else◌,
  false, ℕ, throw_if, or_else, is_some, String, Outcome, Option, List, Bool,
}
use pi_workflows.Queue.Claims.{note_viewer, log_event}

-- A queue row that failed or was cancelled.
abbrev pub ended_row : LaunchStatus → String → String → ℕ → QueueRow → QueueRow
ended_row status code error now q = record q {
  status = status;
  error_code = some code;
  error = some error;
  updated_at = now;
  finished_at = some now;
}

abbrev pub ended_run_row : StoredStatus → String → ℕ → RunRow → RunRow
ended_run_row status error now r = record r {
  status = status;
  paused = false;
  status_detail = none;
  error = some error;
  updated_at = now;
  finished_at = some now;
}

abbrev pub end_attempt : AttemptStatus → String → ℕ → Attempt → Attempt
end_attempt status error now a =
    if is_unsettled a.status
    then record a {
      status = status;
      error = some (or_else a.error error);
      updated_at = now;
      finished_at = some (or_else a.finished_at now);
    }
    else a

abbrev pub cancel_request : ℕ → Request → Request
cancel_request now r =
    if is_request_pending r.status
    then record r { status = request_cancelled; revision = r.revision + 1; updated_at = now }
    else r

-- UPDATE effect_attempts of the attempt that is under way.
abbrev pub interrupt_attempt : ℕ → ℕ → EffectAttempt → EffectAttempt
interrupt_attempt count now a =
    if eqb a.attempt_number count && not (is_some a.finished_at)
    then record a { finished_at = some now; outcome = some "interrupted" }
    else a

abbrev effect_event : String → String → (run_id actor : String) → ℕ → Event
effect_event type reason run_id actor now = record {
  revision = 0;
  event_type = type;
  actor_type = by_control;
  actor_id = some actor;
  generation = none;
  payload = field "runId" (str run_id) (field "reason" (str reason) end);
  recorded_at = now;
}

abbrev pub settle_cancelled :
    EffectStatus
    → String
    → (run_id actor : String) → String
    → ℕ
    → List EffectAttempt
    → Effect
    → Effect
settle_cancelled status type run_id actor error now attempts f = record f {
  status = status;
  error = some error;
  settled_at = some now;
  attempts = attempts;
  revision = f.revision + 1;
  events =
      f.events
      ++ record (effect_event type "workflowCancelled" run_id actor now) {
        revision = f.revision + 1;
      }
        ∷ [];
}

-- An effect under way is ambiguous, since it may have happened.
abbrev pub cancel_effect_by : EffectStatus → (run_id actor : String) → String → ℕ → Effect → Effect
cancel_effect_by effect_pending run_id actor error now f =
    settle_cancelled effect_cancelled "effect.cancelled" run_id actor error now f.attempts f
cancel_effect_by effect_applying run_id actor error now f =
    settle_cancelled effect_ambiguous "effect.ambiguous" run_id actor error now
      (map (interrupt_attempt f.attempt_count now) f.attempts) f
cancel_effect_by _ run_id actor error now f = f

abbrev pub cancel_effect : (run_id actor : String) → String → ℕ → Effect → Effect
cancel_effect run_id actor error now f =
    if f.of_run then cancel_effect_by f.status run_id actor error now f else f

abbrev pub cancel_decision : String → ℕ → Decision → Decision
cancel_decision actor now d =
    if d.resolved then d else record d { cancelled_by = some (actor, now); resolved = true }

abbrev pub reject_submission : Submission → Submission
reject_submission s = record s { receipt = some (or_else s.receipt "Workflow run cancelled") }

-- cancelWorkflowRunDependents
unfoldable pub cancel_dependents : (actor : String) → String → ℕ → Entry → Entry
unfolding close_where
cancel_dependents actor error now e = record e {
  intervals = close_where (λ i. true) e.intervals;
  attempts = map (end_attempt attempt_cancelled error now) e.attempts;
  effects = map (cancel_effect e.origin.run_id actor error now) e.effects;
  decisions = map (cancel_decision actor now) e.decisions;
  submissions = map reject_submission e.submissions;
  requests = map (cancel_request now) e.requests;
}

-- What failing the run does to its attempts and requests.
unfoldable pub fail_dependents : String → ℕ → Entry → Entry
unfolding close_where
fail_dependents error now e = record e {
  intervals = close_where (λ i. true) e.intervals;
  attempts = map (end_attempt attempt_failed error now) e.attempts;
  requests = map (cancel_request now) e.requests;
}

pub data Ending : Type 0 where
  fails cancels : Ending

abbrev pub ending_status : Ending → LaunchStatus
ending_status fails = LaunchStatus.failed
ending_status cancels = LaunchStatus.cancelled

abbrev pub ending_run : Ending → StoredStatus
ending_run fails = run_failed
ending_run cancels = run_cancelled

abbrev pub end_dependents : Ending → (actor : String) → String → ℕ → Entry → Entry
end_dependents fails actor error now e = fail_dependents error now e
end_dependents cancels actor error now e = cancel_dependents actor error now e

abbrev pub error_payload : LaunchStatus → String → String → Fields
error_payload status code error =
    field "status" (str (launch_text status))
      (field "code" (str code) (field "error" (str error) end))

module _ (token_hash : String → String) where
  -- The holder that ends the run with a token, or none without one.
  abbrev pub may_end : Option String → ℕ → Entry → Bool
  may_end none now e = is_queued_or_starting e.queue.status && not (is_some e.holder)
  may_end (some token) now e = is_live e.holder now && holds_hash e.holder (token_hash token)

  -- terminalRun
  unfoldable pub end_run : Option String → Ending → (code error : String) → ℕ → Entry → Entry × Bool
  unfolding log_event note_viewer cancel_dependents fail_dependents
  end_run token ending code error now e =
      let closed : Entry = record e {
        queue = ended_row (ending_status ending) code error now e.queue;
        holder = none;
        run = ended_run_row (ending_run ending) error now e.run;
        calls = e.calls ++ cancel_pending_messages now ∷ [];
      } in
      let settled =
        end_dependents ending (or_else (owner_id_of e.holder) "workflow-control") error now
          closed in
      let logged =
        log_event (append "run.queue_" (launch_text (ending_status ending)))
          (owner_type_of e.holder) (owner_id_of e.holder) (generation_of e.generation)
          (error_payload (ending_status ending) code error) now settled in
      if is_final e.queue.status || not (may_end token now e)
      then (e, false)
      else (note_viewer now logged, true)

  unfoldable pub fail_run : Option String → (code error : String) → ℕ → Entry → Entry × Bool
  unfolding end_run
  fail_run token code error now e = end_run token fails code error now e

  abbrev pub stale_payload : Fields
  stale_payload =
      field "status" (str "cancelled")
        (field "code" (str "cancelled") (field "staleControl" (bool true) end))

  -- cancelStaleWorkflowRun takes the lease, which no one holds, and gives it back at the end.
  unfoldable pub cancel_stale : (control : String) → ℕ → Entry → Outcome QueueError (Entry × Bool)
  unfolding log_event note_viewer cancel_dependents
  cancel_stale control now e =
      let error : String = "Workflow run cancelled" in
      let closed : Entry = record e {
        generation = e.generation + 1;
        holder = none;
        queue = ended_row LaunchStatus.cancelled "cancelled" error now e.queue;
        run = ended_run_row run_cancelled error now e.run;
        calls = e.calls ++ cancel_pending_messages now ∷ [];
      } in
      let logged =
        log_event "run.queue_cancelled" by_control (some control) (generation_of (e.generation + 1))
          stale_payload now (cancel_dependents control error now closed) in
      if is_final e.queue.status || is_live e.holder now
      then ok (e, false)
      else throw_if (is_ended e.run.status) inconsistent_cancel >> ok (note_viewer now logged, true)

  -- cancelWorkflowRun tries the other way where it has no token.
  abbrev pub or_stale : Option String → Entry × Bool → ℕ → Entry → Outcome QueueError (Entry × Bool)
  or_stale token (cancelled_entry, true) now e = ok (cancelled_entry, true)
  or_stale (some token) (cancelled_entry, false) now e = ok (cancelled_entry, false)
  or_stale none (cancelled_entry, false) now e = cancel_stale "workflow-control" now cancelled_entry

  unfoldable pub cancel_run : Option String → ℕ → Entry → Outcome QueueError (Entry × Bool)
  unfolding end_run cancel_stale
  cancel_run token now e =
      or_stale token (end_run token cancels "cancelled" "Workflow run cancelled" now e) now e

  -- deleteWorkflowRun: whether the row of the resource, and all that hangs on it, is deleted.
  unfoldable pub may_delete : String → ℕ → Entry → Bool
  may_delete token now e = is_live e.holder now && holds_hash e.holder (token_hash token)
