-- ===== src/Transitions/Apply.antt =====
-- applyExecutionTransition in src/workflows/transitions.ts. `structuredClone` makes the state that
-- is changed a copy, so a throw leaves the caller's state as it was.
use pi_workflows.Prelude.{
  ℕ, String, Option, none, some, Bool, true, false, not, ◌&&◌, ◌||◌, List, [], ◌∷◌, ◌++◌,
  if◌then◌else◌, ◌==◌, opt_eq, is_some, lookup, insert, elem, last, any, Outcome, ok, throw, ◌>>=◌,
  ◌>>◌, throw_if, or_throw, or_else,
}
use pi_workflows.Json.{Json, null, get_field, as_text, as_number}
use pi_workflows.Json.Equality.{deep_equal?}
use pi_workflows.Graph.{WorkflowDefinition}
use pi_workflows.Transitions.{
  invalid_time, wrong_route, attempt_active, attempt_completed, timeout_configured,
  result_committed, node_mismatch, invalid_retry_binding, interaction_mismatch, unknown_event,
  unfinished_attempt, resume_mismatch, result_mismatch, outcome_mismatch, not_executing,
  not_checkpoint, missing_retry_hash, missing_attempt, invalid_timeout, invalid_interaction,
  completion_mismatch, is_succeeded, outcome_text, Step, EndStatus, RunStatus, running, waiting,
  ended, RunState, TraceEvent, RequestKind, checkpoint, decision, Change, start_attempt,
  finish_attempt, set_timeout, resume, pause, resume_interaction, record_event, wait_for_input,
  finish, Transition, TransitionError, missing_node,
}
use pi_workflows.Transitions.Guards.{
  require_event, require_identity, require_attempt, clear_attempt, set_settings, is_timeout,
  next_node, is_target, is_end, timeout_allowed,
}

abbrev waiting_detail : RequestKind → String
waiting_detail decision = "waiting for a human decision"
waiting_detail checkpoint = "waiting for checkpoint input"

-- `run_${status}`
abbrev pub end_event : EndStatus → String
end_event EndStatus.completed = "run_completed"
end_event EndStatus.failed = "run_failed"
end_event EndStatus.timed_out = "run_timed_out"
end_event EndStatus.cancelled = "run_cancelled"

abbrev pub is_completed : EndStatus → Bool
is_completed EndStatus.completed = true
is_completed _ = false

abbrev pub is_failed : EndStatus → Bool
is_failed EndStatus.failed = true
is_failed _ = false

abbrev pub record_events : List String
record_events =
    "run_started" ∷ "include_entered" ∷ "include_exited" ∷ "settings_route_retried"
    ∷ "agent_session_required" ∷ "agent_prompt_sent" ∷ "interaction_resume_prepared" ∷ []

-- The record's new settings binding, all three of its parts or an error.
abbrev retry_binding :
    RunState → Option String → Option ℕ → Option String → Outcome TransitionError RunState
retry_binding s (some scope) (some number) (some hash) = ok (record s {
  current_settings_scope_id = some scope;
  current_settings_change_number = some number;
  current_settings_hash = some hash;
})
retry_binding s (some scope) (some number) none = throw missing_retry_hash
retry_binding s _ _ hash = throw invalid_retry_binding

unfoldable pub record_binding : RunState → TraceEvent → Outcome TransitionError RunState
record_binding s e =
    if e.event_type == "settings_route_retried"
    then retry_binding s (as_text (get_field "scopeId" e.payload))
        (as_number (get_field "changeNumber" e.payload))
        (as_text (get_field "settingsHash" e.payload))
    else ok s

abbrev pub note_session : RunState → Bool → RunState
note_session s true = record s { status_detail = some "waiting for origin Pi session" }
note_session s false = s

unfoldable pub is_recorded : String → Bool
is_recorded type = elem type record_events

-- The guard on the run's status.
unfoldable pub can_execute : RunStatus → Change → Bool
can_execute running change = true
can_execute waiting resume_interaction = true
can_execute waiting _ = false
can_execute (ended status) change = false

module _ (number_text : ℕ → String) (is_date : String → Bool) (milliseconds : String → String → ℕ)
    (def : WorkflowDefinition) where
  unfoldable pub apply_start : RunState → TraceEvent → String → Outcome TransitionError RunState
  unfolding require_event require_identity set_settings
  apply_start s e started_at = do
    require_event e "node_started"
    node_id ← require_identity e.node_id missing_node
    attempt_id ← require_identity e.attempt_id missing_attempt
    node ← or_throw node_mismatch (lookup node_id def.nodes)
    throw_if (not (opt_eq (as_text (get_field "nodeType" e.payload)) (some node.node_type)))
        node_mismatch
    throw_if (any (λ step. step.attempt_id == attempt_id) s.steps) attempt_completed
    throw_if (is_some s.current_attempt_id) attempt_active
    next ← next_node number_text def s
    throw_if (not (is_target next node_id)) wrong_route
    throw_if (not (is_date started_at)) invalid_time
    started ←
        set_settings
          (record s {
            current_node = some node_id;
            current_attempt_id = some attempt_id;
            current_node_started_at = some started_at;
          })
          e.payload
    ok (elim node.status_detail [
      | none ↦ started
      | some detail ↦ record started { status_detail = some detail }
    ])

  unfoldable pub node_type_of : String → Option String
  node_type_of id = elim (lookup id def.nodes) [ none ↦ none | some node ↦ some node.node_type ]

  -- The comparisons of a finished step with its event and the active attempt.
  unfoldable pub step_matches : RunState → TraceEvent → Step → Bool
  unfolding node_type_of
  step_matches s e step =
      opt_eq e.attempt_id (some step.attempt_id)
      && opt_eq e.node_id (some step.node_id)
      && opt_eq (node_type_of step.node_id) (some step.node_type)
      && opt_eq s.current_node_started_at (some step.started_at)
      && opt_eq (as_text (get_field "outcome" e.payload)) (some (outcome_text step.outcome))
      && deep_equal? step.output (some (or_else (get_field "output" e.payload) null))

  -- What an accepted result changes.
  unfoldable pub commit_step : RunState → Step → RunState
  unfolding clear_attempt
  commit_step s step = clear_attempt (record s {
    steps = s.steps ++ step ∷ [];
    results =
        insert step.node_id
          (record { step = step; duration_ms = milliseconds step.finished_at step.started_at })
          s.results;
    outputs =
        if is_succeeded step.outcome then insert step.node_id step.output s.outputs else s.outputs;
  })

  unfoldable pub apply_finish_attempt :
      RunState → TraceEvent → Step → Outcome TransitionError RunState
  unfolding require_event require_attempt
  apply_finish_attempt s e step = do
    require_event e (if is_succeeded step.outcome then "node_finished" else "node_failed")
    require_attempt s e
    throw_if (not (step_matches s e step)) result_mismatch
    throw_if (any (λ prior. prior.attempt_id == step.attempt_id) s.steps) result_committed
    ok (commit_step s step)

  unfoldable pub apply_set_timeout :
      RunState → TraceEvent → Option ℕ → Outcome TransitionError RunState
  unfolding require_event require_attempt is_timeout
  apply_set_timeout s e timeout_ms = do
    require_event e "node_timeout_set"
    require_attempt s e
    throw_if (not (timeout_allowed timeout_ms)) invalid_timeout
    throw_if (is_some s.current_node_elapsed_ms) timeout_configured
    ok (record s { current_node_timeout_ms = some timeout_ms; current_node_elapsed_ms = some 0 })

  unfoldable pub apply_resume :
      RunState → TraceEvent → Option String → Outcome TransitionError RunState
  unfolding require_event clear_attempt
  apply_resume s e none = do
    require_event e "run_resumed"
    ok (record (clear_attempt s) { paused = false })
  apply_resume s e (some attempt_id) = do
    require_event e "run_resumed"
    throw_if (not (opt_eq s.current_attempt_id (some attempt_id))) resume_mismatch
    ok (record s { paused = false })

  unfoldable pub apply_wait : RunState → TraceEvent → RequestKind → Outcome TransitionError RunState
  unfolding require_event require_attempt require_identity node_type_of
  apply_wait s e kind = do
    require_event e "checkpoint_requested"
    require_attempt s e
    throw_if (not (opt_eq (node_type_of (or_else s.current_node "")) (some "checkpoint")))
        not_checkpoint
    node ← require_identity e.node_id missing_node
    ok (record s {
      status = waiting;
      waiting_on = some node;
      status_detail = some (waiting_detail kind);
      finished_at = none;
    })

  unfoldable pub apply_resume_interaction : RunState → TraceEvent → Outcome TransitionError RunState
  unfolding require_identity
  apply_resume_interaction s e = do
    throw_if
        (not (e.event_type == "interaction_validation_started")
          && not (e.event_type == "interaction_accepted"))
        invalid_interaction
    throw_if (not (opt_eq s.waiting_on e.node_id) || not (opt_eq s.current_attempt_id e.attempt_id))
        interaction_mismatch
    node ← require_identity e.node_id missing_node
    ok (record s {
      status = running;
      current_node = some node;
      waiting_on = none;
      finished_at = none;
      status_detail = none;
    })

  unfoldable pub apply_pause : RunState → TraceEvent → Outcome TransitionError RunState
  unfolding require_event
  apply_pause s e = do require_event e "run_paused"; ok (record s { paused = true })

  -- The guard of a completion: the last step succeeded, the graph ends there, and the run's output
  -- is the step's.
  unfoldable pub check_completion :
      RunState → Option Json → Option Step → Outcome TransitionError (Unit {0})
  check_completion s output none = throw completion_mismatch
  check_completion s output (some step) = do
    throw_if (not (is_succeeded step.outcome)) completion_mismatch
    next ← next_node number_text def s
    throw_if (not (is_end next)) completion_mismatch
    throw_if (not (deep_equal? output step.output)) completion_mismatch

  unfoldable pub check_completed :
      EndStatus → RunState → Option Json → Outcome TransitionError (Unit {0})
  unfolding check_completion
  check_completed EndStatus.completed s output = do
    throw_if (is_some s.current_attempt_id) unfinished_attempt
    check_completion s output (last s.steps)
  check_completed _ s output = ok tt

  unfoldable pub apply_finish :
      RunState
      → TraceEvent
      → EndStatus
      → Option String
      → Option Json
      → String
      → Outcome TransitionError RunState
  unfolding check_completed clear_attempt
  apply_finish s e status error output now = do
    throw_if
        (not (e.event_type == end_event status)
          && not (e.event_type == "run_interrupted" && is_failed status))
        outcome_mismatch
    check_completed status s output
    ok (
        clear_attempt (record s {
          status = ended status;
          finished_at = some now;
          error = elim error [ none ↦ s.error | some m ↦ some m ];
          final_output = elim output [ none ↦ s.final_output | some v ↦ some v ];
        }))

  unfoldable pub apply_record : RunState → TraceEvent → Outcome TransitionError RunState
  apply_record s e = do
    throw_if (not (is_recorded e.event_type)) unknown_event
    elim (e.event_type == "agent_prompt_sent" || e.event_type == "agent_session_required") [
      | true ↦ require_attempt s e
      | false ↦ ok tt
    ]
    record_binding (note_session s (e.event_type == "agent_session_required")) e

  -- The `switch` on the kind of the change.
  unfoldable pub apply_change :
      Change → TraceEvent → RunState → String → Outcome TransitionError RunState
  unfolding apply_start apply_finish_attempt apply_set_timeout apply_resume apply_wait
      apply_resume_interaction apply_pause apply_finish apply_record
  apply_change (start_attempt started_at) e s now = apply_start s e started_at
  apply_change (finish_attempt step) e s now = apply_finish_attempt s e step
  apply_change (set_timeout timeout_ms) e s now = apply_set_timeout s e timeout_ms
  apply_change (resume attempt_id) e s now = apply_resume s e attempt_id
  apply_change pause e s now = apply_pause s e
  apply_change resume_interaction e s now = apply_resume_interaction s e
  apply_change (wait_for_input kind) e s now = apply_wait s e kind
  apply_change (finish status error output) e s now = apply_finish s e status error output now
  apply_change record_event e s now = apply_record s e

  -- applyExecutionTransition
  unfoldable pub apply_execution_transition :
      RunState → Transition → String → Outcome TransitionError RunState
  unfolding apply_change can_execute
  apply_execution_transition s t now = do
    throw_if (not (can_execute s.status t.change)) not_executing
    apply_change t.change t.event s now
