-- ===== src/Graph/Routes.antt =====
-- validateWorkflowDefinition and resolveNext in src/workflows/graph.ts: where a route can lead.
use mathlib.Core.List.{◌∷◌, Memᴰ}
use pi_workflows.Prelude.{
  or_throw-ok, none, ◌⊎◌, strip_prefix, or_throw, Option-cases, Option, inr, ℕ, inl, eq_iff, ◌==◌,
  not, Bool-cases, throw_if, some, false, lookup, find_first, elem, values, arith, [], >>=-eq-ok,
  true, ok, has, List, String, Assoc, ◌≡◌,
}
use pi_workflows.Graph.{
  no_case, scalar_text, not_scalar, resolve_next_for_outcome, resolve_next, get_by_switch_path,
  follow_outcome_edge, Json, resolve_switch_target, follow_edge, is_object_member, inherited,
  target, validate_workflow_definition, case_get, CaseTarget, switch, to, targets, source,
  WorkflowNode, validate_workflow_edge, validate_edges, assert_known_cases, WorkflowDefinition,
  WorkflowEdge,
}

-- An edge whose source and targets are nodes.
abbrev EdgeIsKnown : Assoc WorkflowNode → WorkflowEdge → Type 0
EdgeIsKnown nodes e =
    (has (source e) nodes ≡ true) × ((t : String) → Memᴰ t (targets e) → has t nodes ≡ true)

assert_known_cases_lem :
    (nodes : Assoc WorkflowNode) (ts : List String) (t : String)
    → assert_known_cases nodes ts ≡ ok tt
    → Memᴰ t ts
    → has t nodes ≡ true
unfolding assert_known_cases
assert_known_cases_lem nodes [] t h m = elim m [ ]
assert_known_cases_lem nodes (x ∷ ts) t h (Memᴰ.head e) = rw e (ground arith)
assert_known_cases_lem nodes (x ∷ ts) t h (Memᴰ.tail m) =
    assert_known_cases_lem nodes ts t (ground arith) m

validate_workflow_edge_lem :
    (nodes : Assoc WorkflowNode) (e : WorkflowEdge) (outgoing outgoing' : List String)
    → validate_workflow_edge nodes e outgoing ≡ ok outgoing'
    → EdgeIsKnown nodes e
unfolding validate_workflow_edge
validate_workflow_edge_lem nodes (to from final) outgoing outgoing' h =
    (ground arith, λ t m. only t m)
  where
    only : (t : String) → Memᴰ t (final ∷ []) → has t nodes ≡ true
    only t (Memᴰ.head e) = rw e (ground arith)
    only t (Memᴰ.tail m) = elim m [ ]
validate_workflow_edge_lem nodes (switch from on cases) outgoing outgoing' h =
    (ground arith, λ t m. assert_known_cases_lem nodes (values cases) t (ground arith) m)

validate_edges_lem :
    (nodes : Assoc WorkflowNode) (es : List WorkflowEdge) (outgoing outgoing' : List String)
    → validate_edges nodes es outgoing ≡ ok outgoing'
    → (e : WorkflowEdge) → Memᴰ e es
    → EdgeIsKnown nodes e
unfolding validate_edges
validate_edges_lem nodes [] outgoing outgoing' h e m = elim m [ ]
validate_edges_lem nodes (d ∷ es) outgoing outgoing' h e (Memᴰ.head same) =
    let (next, first, later) = >>=-eq-ok (validate_workflow_edge nodes d outgoing) _ h in
    rw same (validate_workflow_edge_lem nodes d outgoing next first)
validate_edges_lem nodes (d ∷ es) outgoing outgoing' h e (Memᴰ.tail m) =
    let (next, first, later) = >>=-eq-ok (validate_workflow_edge nodes d outgoing) _ h in
    validate_edges_lem nodes es next outgoing' later e m

validate_workflow_edge_new :
    (nodes : Assoc WorkflowNode) (e : WorkflowEdge) (outgoing outgoing' : List String)
    → validate_workflow_edge nodes e outgoing ≡ ok outgoing'
    → (elem (source e) outgoing ≡ false) × (outgoing' ≡ source e ∷ outgoing)
unfolding validate_workflow_edge
validate_workflow_edge_new nodes e outgoing outgoing' h = (ground arith, ground arith)

-- No edge of the list starts where an edge before it does.
validate_edges_new :
    (nodes : Assoc WorkflowNode) (es : List WorkflowEdge) (outgoing outgoing' : List String)
    → validate_edges nodes es outgoing ≡ ok outgoing'
    → (e : WorkflowEdge) → Memᴰ e es
    → elem (source e) outgoing ≡ false
unfolding validate_edges
validate_edges_new nodes [] outgoing outgoing' h e m = elim m [ ]
validate_edges_new nodes (d ∷ es) outgoing outgoing' h e (Memᴰ.head same) =
    let (next, first, later) = >>=-eq-ok (validate_workflow_edge nodes d outgoing) _ h in
    rw same (validate_workflow_edge_new nodes d outgoing next first).0
validate_edges_new nodes (d ∷ es) outgoing outgoing' h e (Memᴰ.tail m) =
    let (next, first, later) = >>=-eq-ok (validate_workflow_edge nodes d outgoing) _ h in
    let new = validate_edges_new nodes es next outgoing' later e m in
    ground (arith, validate_workflow_edge_new nodes d outgoing next first)

validate_edges-find_first :
    (nodes : Assoc WorkflowNode) (es : List WorkflowEdge) (outgoing outgoing' : List String)
    → validate_edges nodes es outgoing ≡ ok outgoing'
    → (e : WorkflowEdge) → Memᴰ e es
    → find_first (λ d. source d == source e) es ≡ some e
unfolding validate_edges
validate_edges-find_first nodes [] outgoing outgoing' h e m = elim m [ ]
validate_edges-find_first nodes (d ∷ es) outgoing outgoing' h e (Memᴰ.head same) =
    ground (arith, eq_iff (source d) (source e), same)
validate_edges-find_first nodes (d ∷ es) outgoing outgoing' h e (Memᴰ.tail m) =
    let (next, first, later) = >>=-eq-ok (validate_workflow_edge nodes d outgoing) _ h in
    let new = validate_edges_new nodes es next outgoing' later e m in
    let other : (source d == source e) ≡ false =
      ground (arith, validate_workflow_edge_new nodes d outgoing next first) in
    rw other (validate_edges-find_first nodes es next outgoing' later e m)

pub find_first_lem :
    (from : String) (es : List WorkflowEdge) (e : WorkflowEdge)
    → find_first (λ d. source d == from) es ≡ some e
    → Memᴰ e es
find_first_lem from [] e h = absurd (ground arith)
find_first_lem from (d ∷ es) e h = elim (Bool-cases (source d == from)) [
  | inl same ↦ Memᴰ.head (ground arith)
  | inr other ↦ Memᴰ.tail (find_first_lem from es e (ground arith))
]

-- What a validated definition is known to satisfy.
edges_of :
    (w : WorkflowDefinition)
    → validate_workflow_definition w ≡ ok tt
    → (outgoing : List String) × (validate_edges w.nodes w.edges [] ≡ ok outgoing)
unfolding validate_workflow_definition
edges_of w h =
    let (_, _, rest) = >>=-eq-ok (throw_if (not (has w.start_at w.nodes)) _) _ h in
    let (outgoing, valid, _) = >>=-eq-ok (validate_edges w.nodes w.edges []) _ rest in
    (outgoing, valid)

lookup_in_values : (k t : String) (m : Assoc String) → lookup k m ≡ some t → Memᴰ t (values m)
unfolding lookup values
lookup_in_values k t [] h = absurd (ground arith)
lookup_in_values k t ((j, v) ∷ m) h = elim (Bool-cases (j == k)) [
  | inl same ↦ Memᴰ.head (ground arith)
  | inr other ↦ Memᴰ.tail (lookup_in_values k t m (ground arith))
]

-- What a route may be: one of the targets, or a member that the table of cases inherits.
abbrev pub MayBe : List String → CaseTarget → Type 0
MayBe ts (target t) = Memᴰ t ts
MayBe ts (inherited k) = is_object_member k ≡ true

case_get_lem :
    (k : String) (cases : Assoc String) (r : CaseTarget)
    → case_get k cases ≡ some r
    → MayBe (values cases) r
unfolding case_get
case_get_lem k cases (target t) h = lookup_in_values k t cases (ground arith)
case_get_lem k cases (inherited j) h = ground arith

module _ (number_text : ℕ → String) where
  resolve_switch_target_lem :
      (on : String) (cases : Assoc String) (output result : Option Json) (r : CaseTarget)
      → resolve_switch_target number_text on cases output result ≡ ok r
      → MayBe (values cases) r
  unfolding resolve_switch_target
  resolve_switch_target_lem on cases output result r h =
      let (value, _, keyed) = >>=-eq-ok (get_by_switch_path output result on) _ h in
      let (key, _, chosen) =
        >>=-eq-ok (or_throw (not_scalar on) (scalar_text number_text value)) _ keyed in
      case_get_lem key cases r (or_throw-ok (no_case on) (case_get key cases) chosen)

  pub follow_edge_lem :
      (e : WorkflowEdge) (output result : Option Json) (r : CaseTarget)
      → follow_edge number_text e output result ≡ ok (some r)
      → MayBe (targets e) r
  unfolding follow_edge
  follow_edge_lem (to from t) output result (target u) h = Memᴰ.head (ground arith)
  follow_edge_lem (to from t) output result (inherited k) h = absurd (ground arith)
  follow_edge_lem (switch from on cases) output result r h =
      let (t, resolved, same) =
        >>=-eq-ok (resolve_switch_target number_text on cases output result) _ h in
      resolve_switch_target_lem on cases output result r (ground arith)

  pub follow_outcome_edge_lem :
      (e : WorkflowEdge) (result : Option Json) (r : CaseTarget)
      → follow_outcome_edge number_text e result ≡ ok (some r)
      → MayBe (targets e) r
  unfolding follow_outcome_edge
  follow_outcome_edge_lem (to from t) result r h = absurd (ground arith)
  follow_outcome_edge_lem (switch from on cases) result r h =
      elim (Option-cases (strip_prefix "$result." on)) [
        | inl other ↦ absurd (cc (rw (other, follow_outcome_edge) at h))
        | inr (rest, e) ↦
            let (t, resolved, same) =
              >>=-eq-ok (resolve_switch_target number_text on cases none result) _
                (rw (e, follow_outcome_edge) at h) in
            resolve_switch_target_lem on cases none result r (ground arith)
      ]

-- Where a route of a validated definition may lead: to a node, or to an inherited member.
abbrev pub LeadsToNode : WorkflowDefinition → CaseTarget → Type 0
LeadsToNode w (target t) = has t w.nodes ≡ true
LeadsToNode w (inherited k) = is_object_member k ≡ true

LeadsToNode-edge :
    (w : WorkflowDefinition) (e : WorkflowEdge) (r : CaseTarget)
    → EdgeIsKnown w.nodes e
    → MayBe (targets e) r
    → LeadsToNode w r
LeadsToNode-edge w e (target t) known may = known.1 t may
LeadsToNode-edge w e (inherited k) known may = may

module _ (number_text : ℕ → String) (w : WorkflowDefinition)
    (valid : validate_workflow_definition w ≡ ok tt) where
  -- In a validated definition the next node after a result is a node of the definition, whether
  -- the result was `ok` or not; the only other value that the code can return is an inherited
  -- member of the table of cases.
  pub resolve_next-LeadsToNode :
      (from : String) (output result : Option Json) (r : CaseTarget)
      → (resolve_next number_text w.edges from output result ≡ ok (some r))
        ⊎ (resolve_next_for_outcome number_text w.edges from result ≡ ok (some r))
      → LeadsToNode w r
  unfolding resolve_next resolve_next_for_outcome
  resolve_next-LeadsToNode from output result r h =
      elim (Option-cases (find_first (λ e. source e == from) w.edges)) [
        | inl absent ↦ elim h [
          | inl a ↦ absurd (cc (rw (absent, resolve_next) at a))
          | inr b ↦ absurd (cc (rw (absent, resolve_next_for_outcome) at b))
        ]
        | inr (e, found) ↦
            let (outgoing, checked) = edges_of w valid in
            let known =
              validate_edges_lem w.nodes w.edges [] outgoing checked e
                (find_first_lem from w.edges e found) in
            LeadsToNode-edge w e r known (elim h [
              | inl a ↦
                  follow_edge_lem number_text e output result r (rw (found, resolve_next) at a)
              | inr b ↦
                  follow_outcome_edge_lem number_text e result r
                    (rw (found, resolve_next_for_outcome) at b)
            ])
      ]

  -- In a validated definition a node's route is decided by each edge that starts at it, so the
  -- order of the edges does not matter.
  pub resolve_next_unique :
      (e : WorkflowEdge) (output result : Option Json)
      → Memᴰ e w.edges
      → (resolve_next number_text w.edges (source e) output result
          ≡ follow_edge number_text e output result)
        × (resolve_next_for_outcome number_text w.edges (source e) result
            ≡ follow_outcome_edge number_text e result)
  unfolding resolve_next resolve_next_for_outcome
  resolve_next_unique e output result m =
      let (outgoing, checked) = edges_of w valid in
      let found = validate_edges-find_first w.nodes w.edges [] outgoing checked e m in
      (rw (found, resolve_next), rw (found, resolve_next_for_outcome))
