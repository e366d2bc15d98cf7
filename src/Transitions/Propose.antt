-- ===== src/Transitions/Propose.antt =====
-- executionTransition in src/workflows/transitions.ts: the proposal that a runner derives from the
-- engine's state and the event that it has recorded.
use pi_workflows.Prelude.{
  ◌>>=◌, ◌||◌, ◌==◌, throw, last, if◌then◌else◌, ℕ, opt_eq, String, Outcome, Option, Bool, ok, some,
  none,
}
use pi_workflows.Transitions.{
  waiting, running, pause, finish, resume, ended, step_missing, start_time_missing, start_attempt,
  set_timeout, resume_interaction, record_event, not_ended, finish_attempt, TransitionError,
  Transition, TraceEvent, Step, RunStatus, Change, RunState,
}

-- The `case` that an event type selects.
pub data EventKind : Type 0 where
  starts finishes sets_timeout resumes pauses interacts ends other : EventKind

-- The first of the tests that holds.
unfoldable pub first_kind : (a b c d f g h : Bool) → EventKind
first_kind a b c d f g h =
    if a
    then starts
    else if b
    then finishes
    else if c
    then sets_timeout
    else if d
    then resumes
    else if f
    then pauses
    else if g
    then interacts
    else if h
    then ends
    else other

unfoldable pub event_kind : String → EventKind
unfolding first_kind
event_kind type =
    first_kind (type == "node_started") (type == "node_finished" || type == "node_failed")
      (type == "node_timeout_set") (type == "run_resumed") (type == "run_paused")
      (type == "interaction_validation_started" || type == "interaction_accepted")
      (type == "run_completed"
        || type == "run_failed"
        || type == "run_interrupted"
        || type == "run_timed_out"
        || type == "run_cancelled")

abbrev finished_step : Option Step → TraceEvent → Outcome TransitionError Change
finished_step none e = throw step_missing
finished_step (some step) e =
    if opt_eq e.attempt_id (some step.attempt_id)
    then ok (finish_attempt step)
    else throw step_missing

abbrev ended_run : RunStatus → RunState → Outcome TransitionError Change
ended_run running s = throw not_ended
ended_run waiting s = throw not_ended
ended_run (ended status) s = ok (finish status s.error s.final_output)

abbrev started_at_of : Option String → Outcome TransitionError Change
started_at_of none = throw start_time_missing
started_at_of (some at) = ok (start_attempt at)

-- `state.currentNodeTimeoutMs ?? null`
abbrev timeout_of : Option (Option ℕ) → Option ℕ
timeout_of none = none
timeout_of (some ms) = ms

unfoldable pub change_for : EventKind → RunState → TraceEvent → Outcome TransitionError Change
change_for starts s e = started_at_of s.current_node_started_at
change_for finishes s e = finished_step (last s.steps) e
change_for sets_timeout s e = ok (set_timeout (timeout_of s.current_node_timeout_ms))
change_for resumes s e = ok (resume s.current_attempt_id)
change_for pauses s e = ok pause
change_for interacts s e = ok resume_interaction
change_for ends s e = ended_run s.status s
change_for other s e = ok record_event

unfoldable pub execution_transition : RunState → TraceEvent → Outcome TransitionError Transition
unfolding event_kind change_for
execution_transition s e = do
  change ← change_for (event_kind e.event_type) s e
  ok (record { change = change; event = e })
