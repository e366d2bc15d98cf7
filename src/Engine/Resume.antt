-- ===== src/Engine/Resume.antt =====
-- resumeRun, resumePointFor and persistedSettingsBinding in src/workflows/engine.ts. The run's
-- saved state is given; the check of the workflow's source is left out.
use pi_workflows.Prelude.{
  elem, ◌&&◌, ◌||◌, last, ◌==◌, throw, not, has, some, ok, none, lookup, if◌then◌else◌, false,
  throw_if, or_throw, opt_eq, String, Outcome, Option, Bool, ℕ, ◌>>=◌, ◌>>◌,
}
use pi_workflows.Transitions.{is_succeeded, Step, RunState, EndStatus, NodeResult}
use pi_workflows.Engine.{
  settings_missing, settings_mismatch, settings_incomplete, route_failed, resume_node_missing,
  SettingsBinding, ResumedNodeAttempt, Environment, EngineWorkflow, EngineError,
}
use pi_workflows.Engine.Loop.{LoopVariables, is_timed_out, finish_run, execute_run}
use pi_workflows.Engine.Record.{failure_message, clear_current}
use pi_workflows.Engine.Scopes.{count_executable_steps}
use pi_workflows.Graph.{target, resolve_next_for_outcome, resolve_next, CaseTarget}
use pi_workflows.Json.{Json}
use pi_workflows.Transitions.Guards.{result_json}

-- Where a resumed run continues; no node where the graph was done.
pub record ResumePoint : Type 0 where
  pub node : Option CaseTarget
  pub last_output : Option Json
  pub failed_result : Option NodeResult

-- The attempt is dropped unless it is kept, and the pause always.
unfoldable pub reset_state : RunState → Option ResumedNodeAttempt → RunState
reset_state s none = record (clear_current s) { paused = false; status_detail = none }
reset_state s (some kept) = record s { paused = false }

abbrev pub failed_status : NodeResult → EndStatus
failed_status r = if is_timed_out r.step.outcome then EndStatus.timed_out else EndStatus.failed

module _ (number_text : ℕ → String) (w : EngineWorkflow) where
  -- The route from a recorded result.
  unfoldable pub point_after : NodeResult → String → Outcome EngineError ResumePoint
  point_after r id =
      if is_succeeded r.step.outcome
      then elim (resolve_next number_text w.graph.edges id r.step.output (some (result_json r))) [
        | throw e ↦ throw (route_failed e)
        | ok next ↦ ok (record { node = next; last_output = r.step.output; failed_result = none })
      ]
      else elim (resolve_next_for_outcome number_text w.graph.edges id (some (result_json r))) [
        | throw e ↦ throw (route_failed e)
        | ok none ↦ ok (record { node = none; last_output = none; failed_result = some r })
        | ok (some next) ↦
            ok (record { node = some next; last_output = none; failed_result = none })
      ]

  abbrev pub at_node : String → ResumePoint
  at_node id = record { node = some (target id); last_output = none; failed_result = none }

  unfoldable pub point_from_steps : Option Step → RunState → Outcome EngineError ResumePoint
  unfolding point_after
  point_from_steps none s = ok (at_node w.graph.start_at)
  point_from_steps (some step) s = elim (lookup step.node_id s.results) [
    | none ↦ ok (at_node step.node_id)
    | some r ↦ point_after r step.node_id
  ]

  -- resumePointFor
  unfoldable pub resume_point_for : RunState → Outcome EngineError ResumePoint
  unfolding point_from_steps
  resume_point_for s = elim s.current_node [
    | some id ↦ if has id w.graph.nodes then ok (at_node id) else throw (resume_node_missing id)
    | none ↦ point_from_steps (last s.steps) s
  ]

  -- persistedSettingsBinding
  unfoldable pub persisted_settings :
      Environment → RunState → Outcome EngineError (Option SettingsBinding)
  persisted_settings env s = elim s.current_settings_scope_id [
    | none ↦ ok none
    | some scope ↦ do
      number ← or_throw settings_incomplete s.current_settings_change_number
      hash ← or_throw settings_incomplete s.current_settings_hash
      saved ← or_throw (settings_missing scope) (env.settings_at_change scope number)
      throw_if (not (saved.settings_hash == hash)) settings_mismatch
      ok (some saved)
  ]

  -- Whether the interrupted attempt is kept: that of a checkpoint, of an agent that an assistant
  -- message answers, or of the interaction that was submitted.
  unfoldable pub keeps_attempt : (interaction : Option String) → String → String → Bool
  keeps_attempt interaction id attempt_id = elim (lookup id w.graph.nodes) [
    | none ↦ false
    | some node ↦
        node.node_type == "checkpoint"
        || (node.node_type == "agent"
            && (elem id w.assistant_message_nodes || opt_eq interaction (some attempt_id)))
  ]

  abbrev kept_attempt :
      Environment
      → Option String
      → RunState
      → Option String
      → Option String
      → Option String
      → Outcome EngineError (Option ResumedNodeAttempt)
  kept_attempt env interaction s (some id) (some attempt_id) (some started_at) =
      if keeps_attempt interaction id attempt_id
      then (persisted_settings env s >>= λ settings. ok (
          some (record {
            node_id = id;
            attempt_id = attempt_id;
            started_at = started_at;
            settings = settings;
          })))
      else ok none
  kept_attempt env interaction s id attempt_id started_at = ok none

  unfoldable pub resumed_attempt :
      Environment → Option String → RunState → Outcome EngineError (Option ResumedNodeAttempt)
  unfolding keeps_attempt persisted_settings
  resumed_attempt env interaction s =
      kept_attempt env interaction s s.current_node s.current_attempt_id s.current_node_started_at

  -- The graph was done: only the end of the run is left to write.
  unfoldable pub finish_resumed : Environment → RunState → ResumePoint → RunState
  unfolding finish_run failure_message
  finish_resumed env s p = elim p.failed_result [
    | none ↦ finish_run s EndStatus.completed none p.last_output env.now
    | some r ↦ finish_run s (failed_status r) (some (failure_message r)) none env.now
  ]

  -- The variables of the loop that goes on from a saved state.
  unfoldable pub resumed_loop : RunState → ResumePoint → CaseTarget → LoopVariables
  unfolding count_executable_steps
  resumed_loop s p at = record {
    current = some at;
    executed = count_executable_steps w.composition s.steps;
    last_output = p.last_output;
    state = s;
  }

  unfoldable pub continue_from :
      Environment → ℕ → RunState → ResumePoint → Option ResumedNodeAttempt → Option RunState
  unfolding execute_run resumed_loop finish_resumed
  continue_from env fuel s p kept = elim p.node [
    | none ↦ some (finish_resumed env s p)
    | some at ↦ execute_run number_text w env fuel (resumed_loop s p at) kept
  ]

  -- resumeRun
  unfoldable pub resume_run :
      Environment
      → ℕ
      → (interaction : Option String) → RunState
      → Outcome EngineError (Option RunState)
  unfolding resume_point_for resumed_attempt reset_state continue_from
  resume_run env fuel interaction s = do
    p ← resume_point_for s
    kept ← resumed_attempt env interaction s
    ok (continue_from env fuel (reset_state s kept) p kept)
