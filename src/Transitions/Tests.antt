-- ===== src/Transitions/Tests.antt =====
-- A run of the graph of two nodes from its first attempt to its completion, and the theorems on
-- src/workflows/transitions.ts at it.
use pi_workflows.Prelude.{
  throw, split, insert, false, true, lookup, [], ◌∷◌, ℕ, strip_prefix, String, Outcome, Bool, ◌≡◌,
  refl, ok, some, none,
}
use pi_workflows.Transitions.{
  succeeded, finish, wrong_route, start_attempt, running, finish_attempt, ended, TransitionError,
  Transition, TraceEvent, Step, EndStatus, RunState,
}
use pi_workflows.Graph.Tests.{two_nodes, go_output, no_numbers}
use pi_workflows.Transitions.History.{
  run_follows_graph, IsShaped-initial, IsInitial, Reaches, here, next,
}
use pi_workflows.Graph.{resolve_next}
use pi_workflows.Json.{str, end, null, field, get_member, get_field, Json}
use pi_workflows.Json.Equality.{deep_equal?}
use pi_workflows.Transitions.Apply.{step_matches, commit_step, apply_execution_transition}
use pi_workflows.Transitions.Finish.{completed_run, IsComplete}
use pi_workflows.Transitions.Guards.{next_node, lift_route}
use pi_workflows.Transitions.Path.{IsPath, Active}
use pi_workflows.Transitions.Shape.{apply_execution_transition-IsShaped, IsShaped, AreDistinct}

abbrev any_date : String → Bool
any_date s = true

abbrev no_time : String → String → ℕ
no_time a b = 0

abbrev fresh : RunState
fresh = record {
  status = running;
  steps = [];
  results = [];
  outputs = [];
  current_node = none;
  current_attempt_id = none;
  current_node_started_at = none;
  current_node_timeout_ms = none;
  current_node_elapsed_ms = none;
  current_settings_scope_id = none;
  current_settings_change_number = none;
  current_settings_hash = none;
  status_detail = none;
  paused = false;
  waiting_on = none;
  finished_at = none;
  final_output = none;
  error = none;
}

fresh-IsInitial : IsInitial fresh
fresh-IsInitial = record {
  status = refl;
  steps = refl;
  node = refl;
  attempt = refl;
  started = refl;
  waits = refl;
  output = refl;
}

abbrev started_event : String → String → String → TraceEvent
started_event node attempt type = record {
  event_type = "node_started";
  node_id = some node;
  attempt_id = some attempt;
  payload = field "nodeType" (str type) end;
}

abbrev finished_event : String → String → Json → TraceEvent
finished_event node attempt output = record {
  event_type = "node_finished";
  node_id = some node;
  attempt_id = some attempt;
  payload = field "outcome" (str "ok") (field "output" output end);
}

abbrev step_of : String → String → String → Json → Step
step_of attempt node type output = record {
  attempt_id = attempt;
  node_id = node;
  node_type = type;
  outcome = succeeded;
  started_at = "t0";
  finished_at = "t1";
  output = some output;
  rest = end;
}

abbrev plan_step : Step
plan_step = step_of "a1" "plan" "agent" go_output

abbrev done_step : Step
done_step = step_of "a2" "done" "compute" null

abbrev planning : RunState
planning = record fresh {
  current_node = some "plan";
  current_attempt_id = some "a1";
  current_node_started_at = some "t0";
  status_detail = some "planning";
}

abbrev planned : RunState
planned = record fresh {
  steps = plan_step ∷ [];
  results = ("plan", record { step = plan_step; duration_ms = 0 }) ∷ [];
  outputs = ("plan", some go_output) ∷ [];
}

abbrev closing : RunState
closing = record planned {
  current_node = some "done";
  current_attempt_id = some "a2";
  current_node_started_at = some "t0";
}

abbrev closed : RunState
closed = record planned {
  steps = plan_step ∷ done_step ∷ [];
  results =
      ("plan", record { step = plan_step; duration_ms = 0 })
      ∷ ("done", record { step = done_step; duration_ms = 0 })
      ∷ [];
  outputs = ("plan", some go_output) ∷ ("done", some null) ∷ [];
}

abbrev completed_state : RunState
completed_state = record closed {
  status = ended EndStatus.completed;
  finished_at = some "now";
  final_output = some null;
}

abbrev apply_now : RunState → Transition → Outcome TransitionError RunState
apply_now s t = apply_execution_transition no_numbers any_date no_time two_nodes s t "now"

abbrev start_plan : Transition
start_plan = record { change = start_attempt "t0"; event = started_event "plan" "a1" "agent" }

abbrev finish_plan : Transition
finish_plan = record {
  change = finish_attempt plan_step;
  event = finished_event "plan" "a1" go_output;
}

abbrev start_done : Transition
start_done = record { change = start_attempt "t0"; event = started_event "done" "a2" "compute" }

abbrev finish_done : Transition
finish_done = record { change = finish_attempt done_step; event = finished_event "done" "a2" null }

abbrev complete : Transition
complete = record {
  change = finish EndStatus.completed none (some null);
  event = record { event_type = "run_completed"; node_id = none; attempt_id = none; payload = end };
}

plan_starts : apply_now fresh start_plan ≡ ok planning
unfolding apply_execution_transition next_node lookup get_field
plan_starts = refl

plan_finishes : apply_now planning finish_plan ≡ ok planned
unfolding apply_execution_transition step_matches commit_step lookup get_field insert deep_equal?
plan_finishes = refl

done_starts : apply_now planned start_done ≡ ok closing
unfolding apply_execution_transition next_node lookup get_field lift_route resolve_next get_member
    strip_prefix split
done_starts = refl

done_finishes : apply_now closing finish_done ≡ ok closed
unfolding apply_execution_transition step_matches commit_step lookup get_field insert deep_equal?
done_finishes = refl

closed_completes : apply_now closed complete ≡ ok completed_state
unfolding apply_execution_transition next_node lookup get_field lift_route resolve_next deep_equal?
closed_completes = refl

-- An attempt of a node that the graph does not lead to is refused.
wrong_start : apply_now fresh start_done ≡ throw wrong_route
unfolding apply_execution_transition next_node lookup get_field
wrong_start = refl

whole_run : Reaches no_numbers any_date no_time two_nodes fresh completed_state
whole_run =
    next complete "now"
      (next finish_done "now"
        (next start_done "now"
          (next finish_plan "now" (next start_plan "now" here plan_starts) plan_finishes)
          done_starts)
        done_finishes)
      closed_completes

apply_execution_transition-IsShaped_example : IsShaped planning
apply_execution_transition-IsShaped_example =
    apply_execution_transition-IsShaped no_numbers any_date no_time two_nodes fresh planning
      start_plan "now"
      (IsShaped-initial no_numbers any_date no_time two_nodes fresh fresh-IsInitial) plan_starts

run_follows_graph_example :
    IsPath no_numbers no_time two_nodes closed.steps
    × AreDistinct closed.steps
    × Active no_numbers no_time two_nodes none closed.steps
run_follows_graph_example =
    run_follows_graph no_numbers any_date no_time two_nodes fresh completed_state fresh-IsInitial
      whole_run

completed_run_example :
    IsComplete no_numbers any_date no_time two_nodes completed_state
    × (completed_state.current_node ≡ none)
    × (completed_state.current_attempt_id ≡ none)
completed_run_example =
    completed_run no_numbers any_date no_time two_nodes fresh completed_state fresh-IsInitial
      whole_run refl
