-- ===== src/Queue/Parks.antt =====
-- Parking, pausing and resuming a run in src/workflows/queue.ts.
use pi_workflows.Queue.{
  attempt_waiting, changed_during_recovery, inconsistent_source_change, inconsistent_effect,
  run_waiting, owner_type_of, owner_id_of, is_waiting, is_started, is_running, is_parked, is_live,
  is_launched, is_final, is_ended, has_pending_request, generation_of, by_control, Attempt, Entry,
  QueueRow, RunRow, LaunchStatus, QueueError,
}
use pi_workflows.AttemptTime.{close_where}
use pi_workflows.Prelude.{
  ok, ◌>>◌, ◌&&◌, not, ◌||◌, true, some, none, map, if◌then◌else◌, false, ℕ, throw_if, String,
  Outcome, Bool,
}
use pi_workflows.Queue.Claims.{verify_claim, set_status, note_viewer, log_event, code_payload}
use pi_workflows.Json.{end, str, field}

abbrev pub log_park : String → String → String → ℕ → Entry → Entry
log_park type status code now e = note_viewer now (
    log_event type (owner_type_of e.holder) (owner_id_of e.holder) (generation_of e.generation)
      (code_payload status code) now (record e { holder = none }))

abbrev pub parked_row : String → String → ℕ → QueueRow → QueueRow
parked_row code detail now q = record q {
  status = LaunchStatus.parked;
  error_code = some code;
  error = some detail;
  available_at = now;
  updated_at = now;
  finished_at = none;
}

abbrev pub detailed_run : String → ℕ → RunRow → RunRow
detailed_run detail now r = record r {
  status_detail = some detail;
  updated_at = now;
  finished_at = none;
}

-- The two UPDATEs and the release that a parked run of this code needs; one that changes no row
-- throws.
abbrev pub park_with :
    String → String → QueueError → String → ℕ → Entry → Outcome QueueError (Entry × Bool)
park_with type code failure detail now e =
    let parked : Entry = record e {
      run = detailed_run detail now e.run;
      queue = parked_row code detail now e.queue;
    } in
    throw_if (is_ended e.run.status || is_final e.queue.status) failure
    >> ok (log_park type "parked" code now parked, true)

abbrev pub log_control : String → String → ℕ → Entry → Entry
log_control type status now e =
    note_viewer now (log_event type by_control none none (field "status" (str status) end) now e)

-- node_attempts of an ambiguous effect wait.
abbrev pub wait_attempt : ℕ → Attempt → Attempt
wait_attempt now a =
    if is_started a.status then record a { status = attempt_waiting; updated_at = now } else a

abbrev pub ambiguous_detail : String
ambiguous_detail = "effect outcome is ambiguous; explicit recovery is required"

-- `shorten` is `slice(0, 8_192)`, on UTF-16 units.
module _ (token_hash shorten : String → String) where
  unfoldable pub park_for_no_progress :
      String → String → ℕ → Entry → Outcome QueueError (Entry × Bool)
  unfolding verify_claim log_event note_viewer
  park_for_no_progress token detail now e =
      if verify_claim token_hash token now e
      then park_with "run.worker_no_progress" "runnerNoProgress" changed_during_recovery
          (shorten detail) now e
      else ok (e, false)

  unfoldable pub park_for_source_change :
      String → String → ℕ → Entry → Outcome QueueError (Entry × Bool)
  unfolding verify_claim log_event note_viewer
  park_for_source_change token detail now e =
      if verify_claim token_hash token now e
      then park_with "run.source_changed" "workflowSourceChanged" inconsistent_source_change
          (shorten detail) now e
      else ok (e, false)

  unfoldable pub park_for_ambiguous_effect : String → ℕ → Entry → Outcome QueueError (Entry × Bool)
  unfolding verify_claim log_event note_viewer
  park_for_ambiguous_effect token now e =
      let parked : Entry = record e {
        attempts = map (wait_attempt now) e.attempts;
        run = record e.run {
          status = run_waiting;
          status_detail = some ambiguous_detail;
          updated_at = now;
          finished_at = none;
        };
        queue = record (set_status LaunchStatus.parked now e.queue) {
          error_code = some "effectAmbiguous";
          error = some ambiguous_detail;
        };
      } in
      if verify_claim token_hash token now e
      then (throw_if (not (is_running e.run.status) || not (is_launched e.queue.status))
            inconsistent_effect
          >> ok (log_park "run.effect_ambiguous" "waiting" "effectAmbiguous" now parked, true))
      else ok (e, false)

-- pauseParkedWorkflowRun
unfoldable pub pause_parked : ℕ → Entry → Entry × Bool
unfolding log_event note_viewer close_where
pause_parked now e =
    let paused : Entry = record e {
      run = record e.run { paused = true; status_detail = some "paused"; updated_at = now };
      intervals = close_where (λ i. true) e.intervals;
    } in
    if not (is_parked e.queue.status) || is_live e.holder now || not (has_pending_request e)
    then (e, false)
    else if e.run.paused
    then (e, true)
    else if is_running e.run.status || is_waiting e.run.status
    then (log_control "run.paused" "parked" now paused, true)
    else (e, false)

unfoldable pub resume_paused : ℕ → Entry → Entry × Bool
unfolding log_event note_viewer
resume_paused now e =
    let resumed : Entry = record e {
      run = record e.run {
        paused = false;
        status_detail = some "waiting for origin-session input";
        updated_at = now;
      };
    } in
    if is_parked e.queue.status
      && is_waiting e.run.status
      && e.run.paused
      && not (is_live e.holder now)
      && has_pending_request e
    then (log_control "run.resumed" "waiting" now resumed, true)
    else (e, false)

-- requestWorkflowRunResume
unfoldable pub request_resume : ℕ → Entry → Entry × Bool
unfolding log_event note_viewer
request_resume now e =
    let resumed : Entry = record e {
      run = record e.run { paused = false; updated_at = now };
      queue = record (set_status LaunchStatus.queued now e.queue) {
        error_code = none;
        error = none;
        available_at = now;
      };
    } in
    if is_final e.queue.status || is_live e.holder now || has_pending_request e
    then (e, false)
    else (log_control "run.resume_requested" "queued" now resumed, true)
