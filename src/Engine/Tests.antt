-- ===== src/Engine/Tests.antt =====
-- A workflow of two nodes under the engine of src/workflows/engine.ts: run, interrupted and
-- resumed.
use mathlib.Core.List.{Memᴰ}
use pi_workflows.Prelude.{
  ◌+◌, arith, ◌*◌, ◌∷◌, String, Option, ok, ◌≡◌, has, split, insert, some, refl, none, lookup,
  false, [], strip_prefix, ℕ,
}
use pi_workflows.Graph.Tests.{two_nodes, go_output, no_numbers}
use pi_workflows.Engine.{
  node_failed, throws, returns, Signals, Ran, NodeError, NodeAttempt, Execution, Environment,
  EngineWorkflow,
}
use pi_workflows.Engine.Reached.{moves, in_flight, fresh_start, SavedAt, Reached, IsFresh}
use pi_workflows.Engine.Continue.{resume_run-execute_run}
use pi_workflows.Engine.Loop.{
  dispatch, finish_loop, execute_graph, count_step, continues, run_workflow, route_after_failure,
  finish_after_error, execute_run, start_loop, round, follow_route, LoopVariables,
}
use pi_workflows.Engine.Node.{node_attempt, begin_node}
use pi_workflows.Engine.Record.{
  set_outputs, exit_of, failure_message, record_attempt, outcome_for_error,
}
use pi_workflows.Engine.Resume.{resumed_loop, at_node, resumed_attempt, resume_run, reset_state}
use pi_workflows.Graph.{
  is_object_member, source, WorkflowEdge, resolve_next_for_outcome, target, resolve_next,
  WorkflowNode,
}
use pi_workflows.Json.{get_field, end, get_member}
use pi_workflows.Transitions.{RunStatus, RunState}
use pi_workflows.Engine.Budget.{run_workflow-returns}
use pi_workflows.Engine.Failed.{resume_run-route_after_failure}
use pi_workflows.Engine.Rebuilt.{record_all, project_steps-record_all, empty_run, IsTold, EndedNode}
use pi_workflows.Engine.Saved.{Agrees}
use pi_workflows.Engine.Scopes.{is_transition}
use pi_workflows.Engine.Projection.{project_steps}
use pi_workflows.Engine.Ranked.{IsRanked}

abbrev calm : Signals
calm = record { parked = false; cancelled = false; paused = false }

abbrev flow : EngineWorkflow
flow = record { graph = two_nodes; max_steps = 2; composition = none; assistant_message_nodes = [] }

abbrev ran_with : Execution → Ran
ran_with e = record {
  execution = e;
  finished_at = "t1";
  duration_ms = 0;
  details = end;
  after = calm;
}

abbrev around : Execution → Environment
around e = record {
  message_text = λ error. "error";
  now = "t2";
  at_boundary = λ s. calm;
  woken = λ s. calm;
  attempt_start = λ s id. record { attempt_id = id; started_at = "t0"; settings = none };
  run_node = λ s. ran_with e;
  at_end = λ s. calm;
  settings_at_change = λ scope n. none;
}

abbrev working : Environment
working = around (returns (some go_output))

abbrev failing : Environment
failing = around (throws (NodeError.other "broken"))

abbrev new_run : RunState
new_run = record {
  status = RunStatus.running;
  steps = [];
  results = [];
  outputs = [];
  current_node = none;
  current_attempt_id = none;
  current_node_started_at = none;
  current_node_timeout_ms = none;
  current_node_elapsed_ms = none;
  current_settings_scope_id = none;
  current_settings_change_number = none;
  current_settings_hash = none;
  status_detail = none;
  paused = false;
  waiting_on = none;
  finished_at = none;
  final_output = none;
  error = none;
}

new_run-IsFresh : IsFresh new_run
unfolding reset_state
new_run-IsFresh = record { no_steps = refl; clean = refl }

abbrev plan_node : WorkflowNode
plan_node = record { node_type = "agent"; status_detail = some "planning" }

abbrev done_node : WorkflowNode
done_node = record { node_type = "compute"; status_detail = none }

-- The attempt of "plan", and the run behind it.
abbrev planned : Environment → NodeAttempt
unfolding begin_node node_attempt outcome_for_error
planned env =
    let begun = begin_node env new_run "plan" plan_node none in
    node_attempt begun "plan" plan_node (env.run_node begun)

abbrev plan_begun : Environment → RunState
unfolding begin_node
plan_begun env = begin_node env new_run "plan" plan_node none

abbrev after_plan : RunState
unfolding record_attempt begin_node node_attempt outcome_for_error
after_plan = record_attempt none (plan_begun working) (planned working)

abbrev at_done : LoopVariables
unfolding after_plan
at_done = record {
  current = some (target "done");
  executed = 1;
  last_output = some go_output;
  state = after_plan;
}

plan_round :
    round no_numbers flow working (start_loop flow new_run) (target "plan") none ≡ continues at_done
unfolding round record_attempt begin_node node_attempt follow_route resolve_next lookup insert
    get_member strip_prefix split
plan_round = refl

at_done-Reached : Reached no_numbers flow at_done
at_done-Reached =
    moves working (start_loop flow new_run) at_done (target "plan") none
      (fresh_start new_run new_run-IsFresh) refl plan_round

-- The node "done" is executed when the process stops.
abbrev interrupted : RunState
unfolding begin_node after_plan
interrupted = begin_node working after_plan "done" done_node none

interrupted-SavedAt : SavedAt no_numbers flow at_done interrupted
unfolding reset_state has interrupted
interrupted-SavedAt = in_flight "done" refl refl refl refl

interrupted_attempt : resumed_attempt no_numbers flow working none interrupted ≡ ok none
unfolding resumed_attempt lookup interrupted
interrupted_attempt = refl

resume_run-execute_run_example :
    resume_run no_numbers flow working 5 none interrupted
    ≡ ok (execute_run no_numbers flow working 5 at_done none)
resume_run-execute_run_example =
    resume_run-execute_run no_numbers flow working 5 none at_done interrupted at_done-Reached
      interrupted-SavedAt interrupted_attempt

-- It is dropped, and the resumed run starts "done" anew.
abbrev resumed_at_done : LoopVariables
resumed_at_done =
    resumed_loop no_numbers flow (reset_state interrupted none) (at_node no_numbers flow "done")
      (target "done")

-- The same with "done" as the entry of an included workflow.
abbrev entered_flow : EngineWorkflow
entered_flow = record flow {
  composition = some (record { scopes = []; entries = ("done", "done") ∷ []; exits = [] });
}

only_plan_leads_on :
    (e : WorkflowEdge)
    → Memᴰ e two_nodes.edges
    → is_transition entered_flow.composition (source e) ≡ false
unfolding is_transition has is_object_member
only_plan_leads_on e (Memᴰ.head same) = rw same refl
only_plan_leads_on e (Memᴰ.tail other) = elim other [ ]

entered_flow-IsRanked : IsRanked entered_flow (λ id. 0) 0
entered_flow-IsRanked = record {
  bounded = λ id. omega arith;
  falls = λ e t listed enters entry also.
      let counted = only_plan_leads_on e listed in absurd (ground (arith, counted, entry));
}

run_workflow-returns_example :
    (end : RunState) × (run_workflow no_numbers entered_flow working (2 * (2 + 1)) new_run
      ≡ some end)
run_workflow-returns_example =
    run_workflow-returns no_numbers entered_flow working new_run (λ id. 0) 0 entered_flow-IsRanked
      new_run-IsFresh

resume_run-route_after_failure_example :
    resume_run no_numbers flow failing 5 none
      (record_attempt none (plan_begun failing) (planned failing))
    ≡ ok (
        some (
          finish_after_error no_numbers flow failing
            (record_attempt none (plan_begun failing) (planned failing))
            (node_failed "broken")))
unfolding route_after_failure record_attempt begin_node node_attempt outcome_for_error
    failure_message get_field resolve_next_for_outcome strip_prefix
resume_run-route_after_failure_example =
    resume_run-route_after_failure no_numbers flow failing 5 1 none none (plan_begun failing)
      (planned failing) false (record_attempt none (plan_begun failing) (planned failing)) "broken"
      refl refl refl refl refl refl

abbrev plan_ended : EndedNode
unfolding begin_node
plan_ended = record {
  begun = plan_begun working;
  id = "plan";
  node = plan_node;
  ran = ran_with (returns none);
}

abbrev no_time : String → String → ℕ
no_time a b = 0

abbrev no_exit : String → Option String
no_exit id = none

plan_ended-IsTold : IsTold no_time none no_exit plan_ended
unfolding plan_ended exit_of get_field
plan_ended-IsTold = record {
  measured = record { measured = refl; no_error = refl };
  same_exit = refl;
}

project_steps-record_all_example :
    Agrees
      (project_steps no_time no_exit empty_run (record_all none (plan_ended ∷ []) new_run).steps)
      (record_all none (plan_ended ∷ []) new_run)
project_steps-record_all_example =
    project_steps-record_all no_time none no_exit (plan_ended ∷ []) new_run refl refl refl
      (plan_ended-IsTold, tt)

-- The whole run, and the same end behind the interruption.
abbrev finished_run : Option RunState
unfolding run_workflow
finished_run = run_workflow no_numbers flow working 3 new_run

run_workflow_status : (elim finished_run [ none ↦ none | some s ↦ s.final_output ]) ≡ some go_output
unfolding finished_run execute_run execute_graph round dispatch count_step begin_node node_attempt
    record_attempt follow_route resolve_next lookup insert get_member strip_prefix split finish_loop
    set_outputs
run_workflow_status = refl
