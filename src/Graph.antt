-- ===== src/Graph.antt =====
-- src/workflows/graph.ts: the graph of a workflow, its validation, and the route from a node to the
-- next one. What the definition's nodes hold besides their type is in `WorkflowNode`.
-- `String(value)` of a number is the parameter `number_text`.
pub mod Reach
pub mod Search
pub mod Routes
pub mod Tests
use pi_workflows.Prelude.{
  ℕ, zero, suc, String, Option, none, some, Bool, true, false, not, List, [], ◌∷◌, ◌++◌,
  if◌then◌else◌, ◌==◌, code, Assoc, lookup, has, keys, values, elem, strip_prefix, split, Char,
  Outcome, ok, throw, ◌>>=◌, ◌>>◌, throw_if, or_throw, find_first,
}
use pi_workflows.Json.{Json, null, bool, num, str, arr, obj, get_member}

-- WorkflowNodeSnapshot, as far as the graph and the transitions read it.
pub record WorkflowNode : Type 0 where
  pub node_type : String
  pub status_detail : Option String

pub data WorkflowEdge : Type 0 where
  to : (from target : String) → WorkflowEdge
  switch : (from on : String) → Assoc String → WorkflowEdge

pub record WorkflowDefinition : Type 0 where
  pub start_at : String
  pub nodes : Assoc WorkflowNode
  pub edges : List WorkflowEdge

pub data GraphError : Type 0 where
  start_missing unknown_from multiple_outgoing unknown_to unknown_case : String → GraphError
  unreachable : List String → GraphError
  unsupported_path not_scalar no_case : String → GraphError

abbrev pub source : WorkflowEdge → String
source (to from target) = from
source (switch from on cases) = from

abbrev pub targets : WorkflowEdge → List String
targets (to from target) = target ∷ []
targets (switch from on cases) = values cases

-- assertKnownNode
unfoldable pub assert_known_node :
    Assoc WorkflowNode → String → (String → GraphError) → Outcome GraphError (Unit {0})
assert_known_node nodes id error = throw_if (not (has id nodes)) (error id)

unfoldable pub assert_known_cases : Assoc WorkflowNode → List String → Outcome GraphError (Unit {0})
unfolding assert_known_node
assert_known_cases nodes [] = ok tt
assert_known_cases nodes (t ∷ ts) = do
  assert_known_node nodes t unknown_case
  assert_known_cases nodes ts

unfoldable pub assert_known_targets :
    Assoc WorkflowNode → WorkflowEdge → Outcome GraphError (Unit {0})
unfolding assert_known_node assert_known_cases
assert_known_targets nodes (to from target) = assert_known_node nodes target unknown_to
assert_known_targets nodes (switch from on cases) = assert_known_cases nodes (values cases)

-- validateWorkflowEdge, which returns the set of the nodes with an outgoing edge.
unfoldable pub validate_workflow_edge :
    Assoc WorkflowNode → WorkflowEdge → List String → Outcome GraphError (List String)
unfolding assert_known_node assert_known_targets
validate_workflow_edge nodes edge outgoing = do
  assert_known_node nodes (source edge) unknown_from
  throw_if (elem (source edge) outgoing) (multiple_outgoing (source edge))
  assert_known_targets nodes edge
  ok (source edge ∷ outgoing)

unfoldable pub validate_edges :
    Assoc WorkflowNode → List WorkflowEdge → List String → Outcome GraphError (List String)
unfolding validate_workflow_edge
validate_edges nodes [] outgoing = ok outgoing
validate_edges nodes (e ∷ es) outgoing = do
  outgoing' ← validate_workflow_edge nodes e outgoing
  validate_edges nodes es outgoing'

-- The variables of assertAllNodesReachable. The order of the set is never read.
pub record Frontier : Type 0 where
  pub reachable : List String
  pub queue : List String

pub push_target : Frontier → String → Frontier
push_target s t =
    if elem t s.reachable
    then s
    else record { reachable = t ∷ s.reachable; queue = s.queue ++ t ∷ [] }

pub push_targets : Frontier → List String → Frontier
unfolding push_target
push_targets s [] = s
push_targets s (t ∷ ts) = push_targets (push_target s t) ts

pub visit_edge : Frontier → String → WorkflowEdge → Frontier
visit_edge s id e = if source e == id then push_targets s (targets e) else s

pub visit_edges : Frontier → String → List WorkflowEdge → Frontier
unfolding visit_edge
visit_edges s id [] = s
visit_edges s id (e ∷ es) = visit_edges (visit_edge s id e) id es

-- The `while` loop; `none` where the fuel runs out.
pub search_from : ℕ → List WorkflowEdge → Frontier → Option (List String)
unfolding visit_edges
search_from zero edges s = elim s.queue [ [] ↦ some s.reachable | _ ∷ _ ↦ none ]
search_from (suc fuel) edges s = elim s.queue [
  | [] ↦ some s.reachable
  | id ∷ rest ↦ search_from fuel edges (visit_edges (record s { queue = rest }) id edges)
]

abbrev pub all_targets : List WorkflowEdge → List String
all_targets [] = []
all_targets (e ∷ es) = targets e ++ all_targets es

abbrev size : List String → ℕ
size [] = 1
size (x ∷ xs) = suc (size xs)

-- One round for the start node and one for each target is enough.
pub reachable_nodes : WorkflowDefinition → Option (List String)
unfolding search_from
reachable_nodes w =
    search_from (size (all_targets w.edges)) w.edges
      (record { reachable = w.start_at ∷ []; queue = w.start_at ∷ [] })

pub missing_from : List String → List String → List String
missing_from reachable [] = []
missing_from reachable (id ∷ ids) =
    let rest = missing_from reachable ids in if elem id reachable then rest else id ∷ rest

-- `if (unreachable.length > 0) throw`; the case of no fuel is never taken.
pub assert_all_nodes_reachable : WorkflowDefinition → Outcome GraphError (Unit {0})
unfolding reachable_nodes missing_from
assert_all_nodes_reachable w = elim (reachable_nodes w) [
  | none ↦ throw (unreachable [])
  | some reachable ↦ elim (missing_from reachable (keys w.nodes)) [
    | [] ↦ ok tt
    | id ∷ ids ↦ throw (unreachable (id ∷ ids))
  ]
]

-- validateWorkflowDefinition, behind the compilation and the check of the shape.
pub validate_workflow_definition : WorkflowDefinition → Outcome GraphError (Unit {0})
unfolding validate_edges assert_all_nodes_reachable
validate_workflow_definition w = do
  throw_if (not (has w.start_at w.nodes)) (start_missing w.start_at)
  outgoing ← validate_edges w.nodes w.edges []
  assert_all_nodes_reachable w

-- getByPath: the reduce over the parts of the path
pub get_parts : Option Json → List String → Option Json
get_parts value [] = value
get_parts value (key ∷ rest) = get_parts (get_member value key) rest

abbrev dot : Char
dot = "."

pub get_by_path : Option Json → String → Outcome GraphError (Option Json)
unfolding get_parts
get_by_path value path = elim (strip_prefix "$." path) [
  | none ↦ throw (unsupported_path path)
  | some rest ↦ ok (get_parts value (split dot rest))
]

-- getBySwitchPath: the paths into the result, into the output, and those with no such prefix
pub get_by_switch_path : Option Json → Option Json → String → Outcome GraphError (Option Json)
unfolding get_by_path get_parts
get_by_switch_path output result path = elim (strip_prefix "$result." path) [
  | some rest ↦ ok (get_parts result (split dot rest))
  | none ↦ elim (strip_prefix "$output." path) [
    | some rest ↦ ok (get_parts output (split dot rest))
    | none ↦ get_by_path output path
  ]
]

-- What `cases[key]` may be: a case of the edge, or a member that every object inherits.
pub data CaseTarget : Type 0 where
  target : String → CaseTarget
  inherited : String → CaseTarget

-- The property names of Object.prototype; each of these values is truthy.
abbrev pub object_members : List String
object_members =
    "constructor" ∷ "__defineGetter__" ∷ "__defineSetter__" ∷ "hasOwnProperty" ∷ "__lookupGetter__"
    ∷ "__lookupSetter__" ∷ "isPrototypeOf" ∷ "propertyIsEnumerable" ∷ "toString" ∷ "valueOf"
    ∷ "__proto__" ∷ "toLocaleString" ∷ []

unfoldable pub is_object_member : String → Bool
is_object_member key = elem key object_members

pub case_get : String → Assoc String → Option CaseTarget
case_get key cases = elim (lookup key cases) [
  | some t ↦ if t == "" then none else some (target t)
  | none ↦ if is_object_member key then some (inherited key) else none
]

module _ (number_text : ℕ → String) where
  -- `String(value)` of a scalar; any other value is refused
  pub scalar_text : Option Json → Option String
  scalar_text (some (str s)) = some s
  scalar_text (some (num n)) = some (number_text n)
  scalar_text (some (bool true)) = some "true"
  scalar_text (some (bool false)) = some "false"
  scalar_text _ = none

  pub resolve_switch_target :
      String → Assoc String → Option Json → Option Json → Outcome GraphError CaseTarget
  unfolding get_by_switch_path scalar_text case_get
  resolve_switch_target on cases output result = do
    value ← get_by_switch_path output result on
    key ← or_throw (not_scalar on) (scalar_text value)
    or_throw (no_case on) (case_get key cases)

  pub follow_edge :
      WorkflowEdge → Option Json → Option Json → Outcome GraphError (Option CaseTarget)
  unfolding resolve_switch_target
  follow_edge (to from t) output result = ok (some (target t))
  follow_edge (switch from on cases) output result = do
    t ← resolve_switch_target on cases output result
    ok (some t)

  unfoldable pub resolve_next :
      List WorkflowEdge
      → String
      → Option Json
      → Option Json
      → Outcome GraphError (Option CaseTarget)
  unfolding follow_edge
  resolve_next edges from output result = elim (find_first (λ e. source e == from) edges) [
    | none ↦ ok none
    | some edge ↦ follow_edge edge output result
  ]

  pub follow_outcome_edge : WorkflowEdge → Option Json → Outcome GraphError (Option CaseTarget)
  unfolding resolve_switch_target
  follow_outcome_edge (to from t) result = ok none
  follow_outcome_edge (switch from on cases) result = elim (strip_prefix "$result." on) [
    | none ↦ ok none
    | some rest ↦ do t ← resolve_switch_target on cases none result; ok (some t)
  ]

  unfoldable pub resolve_next_for_outcome :
      List WorkflowEdge → String → Option Json → Outcome GraphError (Option CaseTarget)
  unfolding follow_outcome_edge
  resolve_next_for_outcome edges from result = elim (find_first (λ e. source e == from) edges) [
    | none ↦ ok none
    | some edge ↦ follow_outcome_edge edge result
  ]
