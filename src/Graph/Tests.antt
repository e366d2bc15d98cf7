-- ===== src/Graph/Tests.antt =====
-- A graph of two nodes, joined by a switch, and the theorems on src/workflows/graph.ts at it.
use mathlib.Core.List.{Memᴰ}
use pi_workflows.Prelude.{
  values, true, keys, split, inl, has, ◌↔◌, lookup, [], ◌∷◌, ℕ, strip_prefix, String, Assoc, ◌≡◌,
  refl, ok, some, none,
}
use pi_workflows.Graph.{
  push_targets, inherited, target, switch, validate_workflow_definition, resolve_next_for_outcome,
  resolve_next, missing_from, is_object_member, follow_outcome_edge, follow_edge,
  assert_all_nodes_reachable, WorkflowEdge, WorkflowDefinition,
}
use pi_workflows.Graph.Reach.{assert_all_nodes_reachable_iff, Leads}
use pi_workflows.Graph.Routes.{resolve_next_unique, resolve_next-LeadsToNode, LeadsToNode}
use pi_workflows.Json.{end, str, field, obj, get_member, Json}

abbrev route_cases : Assoc String
route_cases = ("go", "done") ∷ ("again", "plan") ∷ []

abbrev pub plan_edge : WorkflowEdge
plan_edge = switch "plan" "$.route" route_cases

abbrev pub two_nodes : WorkflowDefinition
two_nodes = record {
  start_at = "plan";
  nodes =
      ("plan", record { node_type = "agent"; status_detail = some "planning" })
      ∷ ("done", record { node_type = "compute"; status_detail = none })
      ∷ [];
  edges = plan_edge ∷ [];
}

abbrev pub go_output : Json
go_output = obj (field "route" (str "go") end)

abbrev pub no_numbers : ℕ → String
no_numbers n = "0"

two_nodes_valid : validate_workflow_definition two_nodes ≡ ok tt
unfolding validate_workflow_definition missing_from lookup has keys values push_targets
two_nodes_valid = refl

go_leads_to_done :
    resolve_next no_numbers two_nodes.edges "plan" (some go_output) none ≡ ok (some (target "done"))
unfolding resolve_next lookup get_member is_object_member strip_prefix split
go_leads_to_done = refl

inherited_route :
    resolve_next no_numbers two_nodes.edges "plan"
      (some (obj (field "route" (str "toString") end)))
      none
    ≡ ok (some (inherited "toString"))
unfolding resolve_next lookup get_member is_object_member strip_prefix split
inherited_route = refl

assert_all_nodes_reachable_iff_example :
    (assert_all_nodes_reachable two_nodes ≡ ok tt)
    ↔ ((id : String) → has id two_nodes.nodes ≡ true → Leads two_nodes.edges two_nodes.start_at id)
assert_all_nodes_reachable_iff_example = assert_all_nodes_reachable_iff two_nodes

resolve_next-LeadsToNode_example : LeadsToNode two_nodes (target "done")
resolve_next-LeadsToNode_example =
    resolve_next-LeadsToNode no_numbers two_nodes two_nodes_valid "plan" (some go_output) none
      (target "done") (inl go_leads_to_done)

resolve_next_unique_example :
    (resolve_next no_numbers two_nodes.edges "plan" (some go_output) none
      ≡ follow_edge no_numbers plan_edge (some go_output) none)
    × (resolve_next_for_outcome no_numbers two_nodes.edges "plan" none
        ≡ follow_outcome_edge no_numbers plan_edge none)
resolve_next_unique_example =
    resolve_next_unique no_numbers two_nodes two_nodes_valid plan_edge (some go_output) none
      (Memᴰ.head refl)
