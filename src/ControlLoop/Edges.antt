-- ===== src/ControlLoop/Edges.antt =====
-- The edges of controlLoop, src/workflows/control-loop.ts, under the validation of
-- src/workflows/graph.ts.
use pi_workflows.Graph.{
  targets, source, WorkflowNode, WorkflowEdge, to, switch, validate_edges, validate_workflow_edge,
  assert_known_node, assert_known_targets, assert_known_cases,
}
use pi_workflows.Prelude.{
  Outcome, none, sym, some, not, inr, values, refl, inl, arith, true, ok, false, ◌≡◌, ◌==◌, has,
  elem, throw_if, eq_iff, String, Option, List, Bool-cases, Bool, Assoc, AreNew, All, >>=-eq-ok,
  >>-eq-ok, [], ◌∷◌, ◌++◌,
}
use pi_workflows.ControlLoop.{
  LoopError, with_case, return_edges, require_node_reference, is_terminal, is_return_reference,
  is_node_reference, has_no_routes, control_loop, claim_return, assert_exact_keys, add_routes,
  add_route_returns, add_returns, Route, LoopState, ControlLoopGraph, ControlLoopDefinition,
  bad_return_reference, returns_to_decide, bad_route_name, cancelled_route, no_routes,
}
use mathlib.Core.Path.{subst}

AreNew-append :
    (ids xs : List String) (y : String)
    → AreNew ids xs
    → elem y ids ≡ false
    → elem y xs ≡ false
    → AreNew ids (xs ++ y ∷ [])
AreNew-append ids [] y h p q = (p, tt)
AreNew-append ids (x ∷ xs) y h p q =
    (h.0, AreNew-append (x ∷ ids) xs y h.1 (ground arith) (ground arith))

same_claims :
    (decide : String) (s v : LoopState)
    → ◌≡◌ {A = Outcome LoopError LoopState} (ok s) (ok v)
    → AreNew (decide ∷ []) s.claimed
    → AreNew (decide ∷ []) v.claimed
same_claims decide s v h new =
    let same : s ≡ v = ground (arith, h) in
    subst (λ (x : LoopState). AreNew (decide ∷ []) x.claimed) same new

claim_return-AreNew :
    (decide source : String) (s : LoopState)
    → (source == decide) ≡ false
    → AreNew (decide ∷ []) s.claimed
    → AreNew (decide ∷ []) (claim_return source s).claimed
claim_return-AreNew decide source s other h = elim (Bool-cases (elem source s.claimed)) [
  | inl old ↦ rw old h
  | inr fresh ↦ rw fresh (
      AreNew-append (decide ∷ []) s.claimed source h
        (ground (arith, eq_iff decide source, eq_iff source decide)) fresh)
]

add_returns-AreNew :
    (decide : String) (rs : List String) (s v : LoopState)
    → add_returns decide rs s ≡ ok v
    → AreNew (decide ∷ []) s.claimed
    → AreNew (decide ∷ []) v.claimed
unfolding add_returns
add_returns-AreNew decide [] s v h new = same_claims decide s v h new
add_returns-AreNew decide (r ∷ rs) s v h new =
    let (fits, h1) =
      >>-eq-ok (throw_if (not (is_return_reference r)) (bad_return_reference r)) _ h in
    let (other, h2) = >>-eq-ok (throw_if (r == decide) returns_to_decide) _ h1 in
    add_returns-AreNew decide rs (claim_return r s) v h2
      (claim_return-AreNew decide r s (ground (arith, other)) new)

add_route_returns-AreNew :
    (decide name : String) (terminal : Bool) (returns : Option (List String)) (s v : LoopState)
    → add_route_returns decide name terminal returns s ≡ ok v
    → AreNew (decide ∷ []) s.claimed
    → AreNew (decide ∷ []) v.claimed
add_route_returns-AreNew decide name true none s v h new = same_claims decide s v h new
add_route_returns-AreNew decide name true (some rs) s v h new = absurd (ground arith)
add_route_returns-AreNew decide name false none s v h new = absurd (ground arith)
add_route_returns-AreNew decide name false (some []) s v h new = absurd (ground arith)
add_route_returns-AreNew decide name false (some (r ∷ rs)) s v h new =
    add_returns-AreNew decide (r ∷ rs) s v h new

add_routes-AreNew :
    (decide : String) (routes : Assoc Route) (s v : LoopState)
    → add_routes decide routes s ≡ ok v
    → AreNew (decide ∷ []) s.claimed
    → AreNew (decide ∷ []) v.claimed
unfolding add_routes
add_routes-AreNew decide [] s v h new = same_claims decide s v h new
add_routes-AreNew decide ((name, route) ∷ routes) s v h new =
    let (fits, h1) = >>-eq-ok (throw_if (not (is_node_reference name)) (bad_route_name name)) _ h in
    let (lasting, h2) = >>-eq-ok (throw_if (name == "cancelled") cancelled_route) _ h1 in
    let (exact, h3) = >>-eq-ok (assert_exact_keys route.other_fields) _ h2 in
    let (target, named, h4) = >>=-eq-ok (require_node_reference route.target) _ h3 in
    let (next, added, h5) =
      >>=-eq-ok
        (add_route_returns decide name (is_terminal route.terminal) route.returns
          (with_case name target s))
        _ h4 in
    add_routes-AreNew decide routes next v h5 (
      add_route_returns-AreNew decide name (is_terminal route.terminal) route.returns
        (with_case name target s) next added new)

-- The nodes that an edge names are there.
abbrev pub IsKnown : Assoc WorkflowNode → WorkflowEdge → Type 0
IsKnown nodes e =
    (has (source e) nodes ≡ true) × All (λ (t : String). has t nodes ≡ true) (targets e)

known_cases :
    (nodes : Assoc WorkflowNode) (ts : List String)
    → All (λ (t : String). has t nodes ≡ true) ts
    → assert_known_cases nodes ts ≡ ok tt
unfolding assert_known_cases assert_known_node
known_cases nodes [] h = refl
known_cases nodes (t ∷ ts) h = rw (h.0) (known_cases nodes ts h.1)

known_targets :
    (nodes : Assoc WorkflowNode) (e : WorkflowEdge)
    → IsKnown nodes e
    → assert_known_targets nodes e ≡ ok tt
unfolding assert_known_targets assert_known_node
known_targets nodes (to from target) h = rw (h.1.0) refl
known_targets nodes (switch from on cases) h = known_cases nodes (values cases) h.1

valid_edge :
    (nodes : Assoc WorkflowNode) (e : WorkflowEdge) (outgoing : List String)
    → IsKnown nodes e
    → elem (source e) outgoing ≡ false
    → validate_workflow_edge nodes e outgoing ≡ ok (source e ∷ outgoing)
unfolding validate_workflow_edge assert_known_node
valid_edge nodes e outgoing known fresh = rw (known.0, fresh, known_targets nodes e known) refl

valid_returns :
    (nodes : Assoc WorkflowNode) (return_to : String) (sources outgoing : List String)
    → AreNew outgoing sources
    → All (IsKnown nodes) (return_edges return_to sources)
    → (all_outgoing : List String) × (validate_edges nodes (return_edges return_to sources) outgoing
        ≡ ok all_outgoing)
unfolding validate_edges return_edges
valid_returns nodes return_to [] outgoing new known = (outgoing, refl)
valid_returns nodes return_to (r ∷ rs) outgoing new known =
    let (all_outgoing, valid) = valid_returns nodes return_to rs (r ∷ outgoing) new.1 known.1 in
    (all_outgoing, rw (valid_edge nodes (to r return_to) outgoing known.0 new.0) valid)

-- The edges that controlLoop builds pass the validation of a workflow's edges wherever the nodes
-- that they name are there: no node has two of them.
pub control_loop-validate_edges :
    (d : ControlLoopDefinition) (g : ControlLoopGraph) (nodes : Assoc WorkflowNode)
    → control_loop d ≡ ok g
    → All (IsKnown nodes) g.edges
    → (outgoing : List String) × (validate_edges nodes g.edges [] ≡ ok outgoing)
unfolding control_loop validate_edges
control_loop-validate_edges d g nodes h known =
    let (exact, h1) = >>-eq-ok (assert_exact_keys d.other_fields) _ h in
    let (decide, p, h2) = >>=-eq-ok (require_node_reference d.decide) _ h1 in
    let (return_to, q, h3) = >>=-eq-ok (require_node_reference d.return_to) _ h2 in
    let (some_route, h4) = >>-eq-ok (throw_if (has_no_routes d.routes) no_routes) _ h3 in
    let (s, added, h5) =
      >>=-eq-ok (add_routes decide d.routes (record { choices = []; cases = []; claimed = [] })) _
        h4 in
    let new =
      add_routes-AreNew decide d.routes (record { choices = []; cases = []; claimed = [] }) s added
        tt in
    let same : (switch decide "$.route" s.cases ∷ return_edges return_to s.claimed) ≡ g.edges =
      ground (arith, h5) in
    let all_known = subst (λ es. All (IsKnown nodes) es) (sym same) known in
    let (outgoing, valid) = valid_returns nodes return_to s.claimed (decide ∷ []) new all_known.1 in
    (
      outgoing,
      subst (λ es. validate_edges nodes es [] ≡ ok outgoing) same
          (rw (valid_edge nodes (switch decide "$.route" s.cases) [] all_known.0 refl) valid),
    )
