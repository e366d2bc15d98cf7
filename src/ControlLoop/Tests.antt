-- ===== src/ControlLoop/Tests.antt =====
-- A loop of two routes, and the theorem on src/workflows/control-loop.ts at it.
use pi_workflows.Graph.{validate_edges, WorkflowNode, to, switch}
use pi_workflows.ControlLoop.{
  return_edges, require_node_reference, is_return_reference, is_node_reference, control_loop,
  add_routes, add_returns, Route, ControlLoopGraph, ControlLoopDefinition, no_routes,
}
use pi_workflows.ControlLoop.Edges.{control_loop-validate_edges}
use pi_workflows.Prelude.{
  values, refl, throw, ok, ◌≡◌, true, ◌∷◌, split, some, none, [], matches_class, has, String, List,
  Assoc,
}

abbrev route : String → List String → Route
route target returns = record {
  target = target;
  returns = some returns;
  terminal = none;
  other_fields = [];
}

abbrev loop : ControlLoopDefinition
loop = record {
  decide = "decide";
  return_to = "decide";
  routes =
      ("fix", route "fix" ("check.done" ∷ "fix" ∷ []))
      ∷ ("test", route "check" ("check.done" ∷ []))
      ∷ (
        "stop",
        record { target = "stop"; returns = none; terminal = some true; other_fields = [] },
      )
      ∷ [];
  other_fields = [];
}

abbrev graph : ControlLoopGraph
graph = record {
  choices = "fix" ∷ "test" ∷ "stop" ∷ [];
  edges =
      switch "decide" "$.route" (("fix", "fix") ∷ ("test", "check") ∷ ("stop", "stop") ∷ [])
      ∷ to "check.done" "decide"
      ∷ to "fix" "decide"
      ∷ [];
}

builds : control_loop loop ≡ ok graph
unfolding control_loop add_routes add_returns require_node_reference is_node_reference
    is_return_reference return_edges matches_class split
builds = refl

refuses_no_routes : control_loop (record loop { routes = [] }) ≡ throw no_routes
unfolding control_loop require_node_reference is_node_reference matches_class
refuses_no_routes = refl

-- The name of the prototype is a choice with no case.
loses_proto :
    control_loop (record loop { routes = ("__proto__", route "fix" ("fix" ∷ [])) ∷ [] })
    ≡ ok (record {
      choices = "__proto__" ∷ [];
      edges = switch "decide" "$.route" [] ∷ to "fix" "decide" ∷ [];
    })
unfolding control_loop add_routes add_returns require_node_reference is_node_reference
    is_return_reference return_edges matches_class split
loses_proto = refl

abbrev node : WorkflowNode
node = record { node_type = "agent"; status_detail = none }

abbrev node_table : Assoc WorkflowNode
node_table =
    ("decide", node) ∷ ("fix", node) ∷ ("check", node) ∷ ("check.done", node) ∷ ("stop", node) ∷ []

control_loop-validate_edges_example :
    (outgoing : List String) × (validate_edges node_table graph.edges [] ≡ ok outgoing)
unfolding has values
control_loop-validate_edges_example =
    control_loop-validate_edges loop graph node_table builds
      ((refl, (refl, (refl, (refl, tt)))), ((refl, (refl, tt)), ((refl, (refl, tt)), tt)))
