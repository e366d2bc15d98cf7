-- ===== src/Engine/Loop.antt =====
-- executeGraph, finishRun, run and resumeRun in src/workflows/engine.ts. What the store does with a
-- write, and the retries of a settings route, are left out.
use pi_workflows.Prelude.{
  ◌+◌, zero, lookup, ◌||◌, suc, ok, not, ltb, false, true, throw, some, none, if◌then◌else◌,
  throw_if, or_throw, String, Outcome, Option, List, Bool, ℕ, ◌>>=◌, ◌>>◌,
}
use pi_workflows.Engine.{
  run_parked, run_cancelled, route_failed, node_missing, node_failed, max_steps_exceeded,
  ResumedNodeAttempt, Environment, EngineWorkflow, EngineError,
}
use pi_workflows.Engine.Record.{record_attempt, failure_message, clear_current}
use pi_workflows.Engine.Scopes.{is_transition, assert_invocation_step_limit}
use pi_workflows.Graph.{
  target, inherited, resolve_next_for_outcome, resolve_next, WorkflowNode, CaseTarget,
}
use pi_workflows.Json.{Json}
use pi_workflows.Transitions.{
  ended, is_succeeded, Step, RunStatus, RunState, NodeResult, NodeOutcome, EndStatus,
}
use pi_workflows.Transitions.Guards.{result_json}
use pi_workflows.Engine.Node.{node_attempt, begin_node, active_resume}

-- The variables of the loop.
pub record LoopVariables : Type 0 where
  pub current : Option CaseTarget
  pub executed : ℕ
  pub last_output : Option Json
  pub state : RunState

pub data Hold : Type 0 where
  proceeds : RunState → Hold
  breaks : RunState → EngineError → Hold

pub data Round : Type 0 where
  continues : LoopVariables → Round
  raises : RunState → EngineError → Round

pub data LoopEnd : Type 0 where
  reached_end : RunState → Option Json → LoopEnd
  raised : RunState → EngineError → LoopEnd

-- The status with which a run that did not complete ends: a time-out that the loop has marked stays
-- one.
unfoldable pub final_status : EndStatus → RunStatus → EndStatus
final_status EndStatus.failed (ended EndStatus.timed_out) = EndStatus.timed_out
final_status status before = status

-- finishRun
unfoldable pub finish_run :
    RunState → EndStatus → (error : Option String) → (output : Option Json) → String → RunState
unfolding final_status
finish_run s status error output now = record (clear_current s) {
  status = ended (final_status status s.status);
  finished_at = some now;
  error = elim error [ none ↦ s.error | some m ↦ some m ];
  final_output = elim output [ none ↦ s.final_output | some v ↦ some v ];
}

abbrev pub is_timed_out : NodeOutcome → Bool
is_timed_out NodeOutcome.timed_out = true
is_timed_out _ = false

abbrev pub is_cancelled : NodeOutcome → Bool
is_cancelled NodeOutcome.cancelled = true
is_cancelled _ = false

abbrev pub mark_timed_out : NodeOutcome → RunState → RunState
mark_timed_out NodeOutcome.timed_out s = record s { status = ended EndStatus.timed_out }
mark_timed_out _ s = s

abbrev pub is_cancellation : EngineError → Bool
is_cancellation run_cancelled = true
is_cancellation _ = false

abbrev pub start_loop : EngineWorkflow → RunState → LoopVariables
start_loop w s = record {
  current = some (target w.graph.start_at);
  executed = 0;
  last_output = none;
  state = s;
}

module _ (number_text : ℕ → String) (w : EngineWorkflow) (env : Environment) where
  -- holdWhilePaused, with the error that it throws; the state shows the pause while it lasts.
  unfoldable pub hold_while_paused : RunState → Hold
  hold_while_paused s =
      if (env.at_boundary s).parked
      then breaks s run_parked
      else if (env.at_boundary s).cancelled
      then breaks s run_cancelled
      else if not (env.at_boundary s).paused
      then proceeds s
      else if (env.woken s).parked
      then breaks (record s { paused = true }) run_parked
      else if (env.woken s).cancelled
      then breaks (record s { paused = false }) run_cancelled
      else proceeds (record s { paused = false })

  -- The counting of a step, and its two limits. A member that the table of cases inherits names no
  -- node.
  unfoldable pub count_step : ℕ → CaseTarget → List Step → Outcome EngineError ℕ
  unfolding is_transition assert_invocation_step_limit
  count_step executed (inherited key) steps = do
    throw_if (ltb w.max_steps (executed + 1)) (max_steps_exceeded w.max_steps)
    throw (node_missing key)
  count_step executed (target id) steps = if is_transition w.composition id then ok executed else do
    throw_if (ltb w.max_steps (executed + 1)) (max_steps_exceeded w.max_steps)
    assert_invocation_step_limit w.composition id steps
    ok (executed + 1)

  -- What follows a recorded success.
  unfoldable pub route_after_success : ℕ → RunState → NodeResult → Round
  route_after_success executed s r =
      elim (resolve_next number_text w.graph.edges r.step.node_id r.step.output
        (some (result_json r))) [
          | throw e ↦ raises s (route_failed e)
          | ok next ↦ continues (record {
            current = next;
            executed = executed;
            last_output = r.step.output;
            state = s;
          })
        ]

  -- routeAfterFailure
  unfoldable pub route_after_failure :
      ℕ → Option Json → RunState → NodeResult → (cancelled : Bool) → Round
  unfolding failure_message
  route_after_failure executed last_output s r was_cancelled =
      if is_cancelled r.step.outcome || was_cancelled
      then raises s run_cancelled
      else elim (resolve_next_for_outcome number_text w.graph.edges r.step.node_id
          (some (result_json r))) [
            | throw e ↦ raises s (route_failed e)
            | ok none ↦ raises (mark_timed_out r.step.outcome s) (node_failed (failure_message r))
            | ok (some next) ↦ continues (record {
              current = some next;
              executed = executed;
              last_output = last_output;
              state = s;
            })
          ]

  unfoldable pub follow_route : ℕ → Option Json → RunState → NodeResult → (cancelled : Bool) → Round
  unfolding route_after_success route_after_failure
  follow_route executed last_output s r was_cancelled =
      if is_succeeded r.step.outcome
      then route_after_success executed s r
      else route_after_failure executed last_output s r was_cancelled

  -- A node that is executed: a parked attempt is not recorded.
  unfoldable pub execute_step :
      ℕ → Option Json → RunState → String → WorkflowNode → Option ResumedNodeAttempt → Round
  unfolding begin_node node_attempt record_attempt follow_route
  execute_step executed last_output s id node resumed =
      let begun = begin_node env s id node (active_resume resumed id) in
      let ran = env.run_node begun in
      let attempt = node_attempt begun id node ran in
      if ran.after.parked
      then raises begun run_parked
      else follow_route executed last_output (record_attempt w.composition begun attempt)
          attempt.result ran.after.cancelled

  unfoldable pub node_of : CaseTarget → Outcome EngineError (String × WorkflowNode)
  node_of (inherited key) = throw (node_missing key)
  node_of (target id) = do
    node ← or_throw (node_missing id) (lookup id w.graph.nodes)
    ok (id, node)

  -- The part of a round behind the hold.
  unfoldable pub dispatch :
      LoopVariables → RunState → CaseTarget → Option ResumedNodeAttempt → Round
  unfolding count_step node_of execute_step
  dispatch c s at resumed = elim (count_step c.executed at s.steps) [
    | throw e ↦ raises s e
    | ok executed ↦ elim (node_of at) [
      | throw e ↦ raises s e
      | ok (id, node) ↦ execute_step executed c.last_output s id node resumed
    ]
  ]

  -- A round of the loop.
  unfoldable pub round : LoopVariables → CaseTarget → Option ResumedNodeAttempt → Round
  unfolding hold_while_paused dispatch
  round c at resumed = elim (hold_while_paused c.state) [
    | breaks s e ↦ raises s e
    | proceeds s ↦ dispatch c s at resumed
  ]

  -- executeGraph; `none` where the fuel runs out.
  unfoldable pub execute_graph : ℕ → LoopVariables → Option ResumedNodeAttempt → Option LoopEnd
  unfolding round
  execute_graph zero c resumed = elim c.current [
    | none ↦ some (reached_end c.state c.last_output)
    | some at ↦ none
  ]
  execute_graph (suc fuel) c resumed = elim c.current [
    | none ↦ some (reached_end c.state c.last_output)
    | some at ↦ elim (round c at resumed) [
      | raises s e ↦ some (raised s e)
      | continues c' ↦ execute_graph fuel c' none
    ]
  ]

  abbrev pub error_message : EngineError → String
  error_message (node_failed m) = m
  error_message e = env.message_text e

  -- finishAfterError, and the `catch` clauses around it.
  unfoldable pub finish_after_error : RunState → EngineError → RunState
  unfolding finish_run
  finish_after_error s run_parked = s
  finish_after_error s e =
      if (env.at_end s).parked
      then s
      else finish_run s
          (if (env.at_end s).cancelled || is_cancellation e
            then EndStatus.cancelled
            else EndStatus.failed)
          (some (error_message e)) none env.now

  unfoldable pub finish_loop : LoopEnd → RunState
  unfolding finish_run finish_after_error
  finish_loop (reached_end s output) = finish_run s EndStatus.completed none output env.now
  finish_loop (raised s e) = finish_after_error s e

  -- The loop and its end.
  unfoldable pub execute_run : ℕ → LoopVariables → Option ResumedNodeAttempt → Option RunState
  unfolding execute_graph finish_loop
  execute_run fuel c resumed = elim (execute_graph fuel c resumed) [
    | none ↦ none
    | some e ↦ some (finish_loop e)
  ]

  -- `run`, from the state that createRunState makes.
  unfoldable pub run_workflow : ℕ → RunState → Option RunState
  unfolding execute_run
  run_workflow fuel s = execute_run fuel (start_loop w s) none
