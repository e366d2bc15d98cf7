-- ===== src/Transitions.antt =====
-- src/workflows/transitions.ts: the changes that a runner may propose to a run, and the durable
-- owner's check of them. A proposal carries one change and one trace event.
-- `Date.parse` enters as two parameters: whether a text is a date, and the milliseconds between two
-- texts. `results` and `outputs` are records that only own keys are read from. The fields of a run
-- that no transition reads or writes are left out.
pub mod Guards
pub mod Apply
pub mod Shape
pub mod Path
pub mod History
pub mod Finish
pub mod Propose
mod Tests
use pi_workflows.Prelude.{ℕ, Bool, String, Option, none, some, List, Assoc}
use pi_workflows.Json.{Json, Fields}
use pi_workflows.Graph.{GraphError}

pub data NodeOutcome : Type 0 where
  succeeded timed_out failed cancelled : NodeOutcome

abbrev pub is_succeeded : NodeOutcome → Bool
is_succeeded succeeded = Bool.true
is_succeeded _ = Bool.false

-- The outcome's text: "ok", "timed_out", "failed" or "cancelled".
abbrev pub outcome_text : NodeOutcome → String
outcome_text succeeded = "ok"
outcome_text timed_out = "timed_out"
outcome_text failed = "failed"
outcome_text cancelled = "cancelled"

-- WorkflowStepRecord; `rest` holds the optional fields that the transitions only copy.
pub record Step : Type 0 where
  pub attempt_id : String
  pub node_id : String
  pub node_type : String
  pub outcome : NodeOutcome
  pub started_at : String
  pub finished_at : String
  pub output : Option Json
  pub rest : Fields

-- WorkflowNodeResult: the step's fields and `durationMs`.
pub record NodeResult : Type 0 where
  pub step : Step
  pub duration_ms : ℕ

pub data EndStatus : Type 0 where
  completed failed timed_out cancelled : EndStatus

pub data RunStatus : Type 0 where
  running waiting : RunStatus
  ended : EndStatus → RunStatus

-- WorkflowRunState.
pub record RunState : Type 0 where
  pub status : RunStatus
  pub steps : List Step
  pub results : Assoc NodeResult
  pub outputs : Assoc (Option Json)
  pub current_node : Option String
  pub current_attempt_id : Option String
  pub current_node_started_at : Option String
  pub current_node_timeout_ms : Option (Option ℕ)
  pub current_node_elapsed_ms : Option ℕ
  pub current_settings_scope_id : Option String
  pub current_settings_change_number : Option ℕ
  pub current_settings_hash : Option String
  pub status_detail : Option String
  pub paused : Bool
  pub waiting_on : Option String
  pub finished_at : Option String
  pub final_output : Option Json
  pub error : Option String

-- WorkflowTraceEventDraft.
pub record TraceEvent : Type 0 where
  pub event_type : String
  pub node_id : Option String
  pub attempt_id : Option String
  pub payload : Fields

pub data RequestKind : Type 0 where
  checkpoint decision : RequestKind

pub data Change : Type 0 where
  start_attempt : (started_at : String) → Change
  finish_attempt : Step → Change
  set_timeout : Option ℕ → Change
  resume : Option String → Change
  pause resume_interaction record_event : Change
  wait_for_input : RequestKind → Change
  finish : EndStatus → (error : Option String) → (final_output : Option Json) → Change

pub record Transition : Type 0 where
  pub change : Change
  pub event : TraceEvent

pub data TransitionError : Type 0 where
  not_executing wrong_event missing_node missing_attempt node_mismatch attempt_completed :
      TransitionError
  attempt_active wrong_route invalid_time result_mismatch result_committed : TransitionError
  invalid_timeout timeout_configured resume_mismatch not_checkpoint invalid_interaction :
      TransitionError
  interaction_mismatch outcome_mismatch unfinished_attempt completion_mismatch : TransitionError
  unknown_event invalid_retry_binding missing_retry_hash invalid_settings : TransitionError
  result_missing start_time_missing step_missing not_ended active_mismatch : TransitionError
  route : GraphError → TransitionError
