-- ===== src/Engine/Record.antt =====
-- recordAttempt and outcomeForError in src/workflows/engine.ts.
use pi_workflows.Prelude.{
  [], ◌∷◌, ◌++◌, remove, lookup, some, none, insert, if◌then◌else◌, append, or_else, String, Option,
  Assoc,
}
use pi_workflows.Engine.{
  other, abort, timeout, Signals, NodeError, NodeAttempt, CompositionMetadata,
}
use pi_workflows.Json.{null, get_field, as_text, Json}
use pi_workflows.Transitions.{Step, is_succeeded, RunState, NodeResult, NodeOutcome}

-- The fields of the attempt that finishRun deletes.
abbrev pub clear_current : RunState → RunState
clear_current s = record s {
  current_node = none;
  current_attempt_id = none;
  current_node_started_at = none;
  current_node_timeout_ms = none;
  current_node_elapsed_ms = none;
  current_settings_scope_id = none;
  current_settings_change_number = none;
  current_settings_hash = none;
}

unfoldable pub set_outputs : NodeResult → Assoc (Option Json) → Assoc (Option Json)
set_outputs r outputs =
    if is_succeeded r.step.outcome
    then insert r.step.node_id r.step.output outputs
    else remove r.step.node_id outputs

-- `compositionMetadata(workflow)?.exits[id]`: the mount path of the exit at a node.
unfoldable pub exit_of : Option CompositionMetadata → String → Option String
exit_of none id = none
exit_of (some m) id = lookup id m.exits

unfoldable pub mirror_exit : Option String → NodeResult → RunState → RunState
mirror_exit none r s = s
mirror_exit (some path) r s =
    if is_succeeded r.step.outcome
    then record s {
      outputs = insert path r.step.output s.outputs;
      results = insert path (record r { step = record (r.step) { node_id = path } }) s.results;
    }
    else s

-- The WorkflowStepRecord of an attempt.
abbrev pub step_record : NodeAttempt → Step
step_record a = record (a.result.step) {
  output = some (or_else a.result.step.output null);
  rest = a.details;
}

-- recordAttempt
unfoldable pub record_attempt : Option CompositionMetadata → RunState → NodeAttempt → RunState
unfolding set_outputs exit_of mirror_exit
record_attempt composition s a =
    let r = a.result in
    let stored = mirror_exit (exit_of composition r.step.node_id) r (record s {
      results = insert r.step.node_id r s.results;
      outputs = set_outputs r s.outputs;
    }) in
    record (clear_current stored) { steps = s.steps ++ step_record a ∷ []; status_detail = none }

-- outcomeForError
unfoldable pub outcome_for_error : Signals → NodeError → NodeOutcome
outcome_for_error signals (timeout m) = NodeOutcome.timed_out
outcome_for_error signals (abort m) = NodeOutcome.cancelled
outcome_for_error signals (other m) =
    if signals.cancelled then NodeOutcome.cancelled else NodeOutcome.failed

abbrev pub node_error_message : NodeError → String
node_error_message (timeout m) = m
node_error_message (abort m) = m
node_error_message (other m) = m

-- `result.error ?? ...`
unfoldable pub failure_message : NodeResult → String
failure_message r =
    or_else (as_text (get_field "error" r.step.rest))
      (append "Workflow node failed: " r.step.node_id)
