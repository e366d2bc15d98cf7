-- ===== src/Transitions/Guards.antt =====
-- The guards and updates that the transitions of src/workflows/transitions.ts share: requireEvent,
-- requireIdentity, requireAttempt, clearAttempt, setSettings and nextNode.
use pi_workflows.Prelude.{
  ℕ, ◌^◌, String, Option, none, some, Bool, true, false, not, ◌&&◌, if◌then◌else◌, ◌==◌, ltb, eqb,
  opt_eq, lookup, last, Outcome, ok, throw, ◌>>=◌, ◌>>◌, throw_if, or_throw,
}
use pi_workflows.Json.{Json, obj, str, num, Fields, field, get_field, as_text, as_number, is_finite}
use pi_workflows.Graph.{
  WorkflowDefinition, GraphError, CaseTarget, target, inherited, resolve_next,
  resolve_next_for_outcome,
}
use pi_workflows.Transitions.{
  result_missing, missing_attempt, invalid_settings, active_mismatch, is_succeeded, outcome_text,
  Step, NodeResult, RunState, TraceEvent, TransitionError, route, wrong_event, missing_node,
}

unfoldable pub require_event : TraceEvent → String → Outcome TransitionError (Unit {0})
require_event e type = throw_if (not (e.event_type == type)) wrong_event

abbrev non_empty : TransitionError → Option String → Outcome TransitionError String
non_empty error none = throw error
non_empty error (some s) = if s == "" then throw error else ok s

-- requireIdentity
unfoldable pub require_identity : Option String → TransitionError → Outcome TransitionError String
require_identity value error = non_empty error value

-- requireAttempt
unfoldable pub require_attempt : RunState → TraceEvent → Outcome TransitionError (Unit {0})
unfolding require_identity
require_attempt s e = do
  node ← require_identity e.node_id missing_node
  throw_if (not (opt_eq s.current_node (some node))) active_mismatch
  attempt ← require_identity e.attempt_id missing_attempt
  throw_if (not (opt_eq s.current_attempt_id (some attempt))) active_mismatch

-- clearAttempt
unfoldable pub clear_attempt : RunState → RunState
clear_attempt s = record s {
  current_node = none;
  current_attempt_id = none;
  current_node_started_at = none;
  current_node_timeout_ms = none;
  current_node_elapsed_ms = none;
  current_settings_scope_id = none;
  current_settings_change_number = none;
  current_settings_hash = none;
  status_detail = none;
}

abbrev set_scope :
    RunState → Option String → Option ℕ → Option String → Outcome TransitionError RunState
set_scope s none number hash = ok (record s {
  current_settings_scope_id = none;
  current_settings_change_number = none;
  current_settings_hash = none;
})
set_scope s (some scope) (some number) (some hash) = ok (record s {
  current_settings_scope_id = some scope;
  current_settings_change_number = some number;
  current_settings_hash = some hash;
})
set_scope s (some scope) _ _ = throw invalid_settings

-- setSettings
unfoldable pub set_settings : RunState → Fields → Outcome TransitionError RunState
set_settings s payload =
    set_scope s (as_text (get_field "settingsScopeId" payload))
      (as_number (get_field "settingsChangeNumber" payload))
      (as_text (get_field "settingsHash" payload))

abbrev with_output : Option Json → Fields → Fields
with_output none fs = fs
with_output (some v) fs = field "output" v fs

-- A node result as the JSON object that a `$result.` path reads.
unfoldable pub result_json : NodeResult → Json
result_json r = obj (
    field "attemptId" (str r.step.attempt_id) (
      field "nodeId" (str r.step.node_id) (
        field "nodeType" (str r.step.node_type) (
          field "outcome" (str (outcome_text r.step.outcome)) (
            field "startedAt" (str r.step.started_at) (
              field "finishedAt" (str r.step.finished_at) (
                field "durationMs" (num r.duration_ms)
                  (with_output r.step.output r.step.rest))))))))

unfoldable pub lift_route : {A : Type 0} → Outcome GraphError A → Outcome TransitionError A
lift_route (ok a) = ok a
lift_route (throw e) = throw (route e)

abbrev pub is_target : Option CaseTarget → String → Bool
is_target (some (target t)) node = t == node
is_target (some (inherited k)) node = false
is_target none node = false

abbrev pub is_end : Option CaseTarget → Bool
is_end none = true
is_end (some t) = false

-- `Number.isFinite(ms) && ms > 0`, by the sign bit.
unfoldable pub is_timeout : ℕ → Bool
is_timeout n = is_finite n && not (eqb n 0) && ltb n (2 ^ 63)

abbrev pub timeout_allowed : Option ℕ → Bool
timeout_allowed none = true
timeout_allowed (some n) = is_timeout n

module _ (number_text : ℕ → String) (def : WorkflowDefinition) where
  unfoldable pub route_after : NodeResult → Outcome GraphError (Option CaseTarget)
  route_after r =
      if is_succeeded r.step.outcome
      then resolve_next number_text def.edges r.step.node_id r.step.output (some (result_json r))
      else resolve_next_for_outcome number_text def.edges r.step.node_id (some (result_json r))

  unfoldable pub node_after : Option Step → RunState → Outcome TransitionError (Option CaseTarget)
  unfolding route_after
  node_after none s = ok (some (target def.start_at))
  node_after (some step) s = do
    result ← or_throw result_missing (lookup step.node_id s.results)
    lift_route (route_after result)

  -- nextNode
  unfoldable pub next_node : RunState → Outcome TransitionError (Option CaseTarget)
  unfolding node_after
  next_node s = node_after (last s.steps) s
