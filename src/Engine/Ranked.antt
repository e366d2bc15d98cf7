-- ===== src/Engine/Ranked.antt =====
-- The rounds of executeGraph in src/workflows/engine.ts that count no step: the entries and exits of
-- included workflows, with a rank that falls along the edges between them.
use mathlib.Core.List.{Memᴰ}
use pi_workflows.Prelude.{
  refl, ◌∙◌, ◌⊎◌, none, ap, ◌<◌, suc, ◌+◌, true, if◌then◌else◌, ◌≤◌, [], inr, inl, ◌∷◌, some, ◌==◌,
  ok, ◌≡◌, find_first, eq_iff, String, Option-cases, Option, List, Bool-cases, ℕ, arith,
}
use pi_workflows.Engine.{ResumedNodeAttempt, Environment, EngineWorkflow}
use pi_workflows.Engine.Resume.{point_after, ResumePoint}
use pi_workflows.Graph.{
  inherited, targets, CaseTarget, target, source, resolve_next_for_outcome, resolve_next,
  WorkflowEdge,
}
use pi_workflows.Graph.Routes.{follow_outcome_edge_lem, follow_edge_lem, find_first_lem}
use pi_workflows.Json.{Json}
use pi_workflows.Transitions.{is_succeeded, NodeResult}
use pi_workflows.Transitions.Guards.{result_json}
use pi_workflows.Engine.Boundary.{execute_step-Settled, IsBoundary}
use pi_workflows.Engine.Reached.{IsBoundary-paused}
use pi_workflows.Engine.Loop.{continues, round, LoopVariables}
use pi_workflows.Engine.Passed.{round-Passed, count_step-ok}
use pi_workflows.Engine.Scopes.{is_transition}
use pi_workflows.Engine.Node.{node_attempt}

find_first-source :
    (from : String) (es : List WorkflowEdge) (e : WorkflowEdge)
    → find_first (λ d. source d == from) es ≡ some e
    → source e ≡ from
find_first-source from [] e h = absurd (ground arith)
find_first-source from (d ∷ es) e h = elim (Bool-cases (source d == from)) [
  | inl same ↦ ground (arith, eq_iff (source d) from)
  | inr other ↦ find_first-source from es e (ground arith)
]

-- An edge of a list between two nodes.
pub record EdgeBetween (es : List WorkflowEdge) (from t : String) : Type 0 where
  pub edge : WorkflowEdge
  pub listed : Memᴰ edge es
  pub leaves : source edge ≡ from
  pub enters : Memᴰ t (targets edge)

module _ (number_text : ℕ → String) (es : List WorkflowEdge) where
  found-EdgeBetween :
      (from t : String) (e : WorkflowEdge)
      → find_first (λ d. source d == from) es ≡ some e
      → Memᴰ t (targets e)
      → EdgeBetween es from t
  found-EdgeBetween from t e found enters = record {
    edge = e;
    listed = find_first_lem from es e found;
    leaves = find_first-source from es e found;
    enters = enters;
  }

  resolve_next-EdgeBetween :
      (from t : String) (output result : Option Json)
      → resolve_next number_text es from output result ≡ ok (some (target t))
      → EdgeBetween es from t
  unfolding resolve_next
  resolve_next-EdgeBetween from t output result h =
      elim (Option-cases (find_first (λ e. source e == from) es)) [
        | inl absent ↦ absurd (cc (rw (absent, resolve_next) at h))
        | inr (e, found) ↦
            found-EdgeBetween from t e found (
              follow_edge_lem number_text e output result (target t)
                (rw (found, resolve_next) at h))
      ]

  resolve_next_for_outcome-EdgeBetween :
      (from t : String) (result : Option Json)
      → resolve_next_for_outcome number_text es from result ≡ ok (some (target t))
      → EdgeBetween es from t
  unfolding resolve_next_for_outcome
  resolve_next_for_outcome-EdgeBetween from t result h =
      elim (Option-cases (find_first (λ e. source e == from) es)) [
        | inl absent ↦ absurd (cc (rw (absent, resolve_next_for_outcome) at h))
        | inr (e, found) ↦ found-EdgeBetween from t e found (
            follow_outcome_edge_lem number_text e result (target t)
              (rw (found, resolve_next_for_outcome) at h))
      ]

module _ (number_text : ℕ → String) (w : EngineWorkflow) where
  point_after-EdgeBetween :
      (r : NodeResult) (id t : String) (p : ResumePoint)
      → point_after number_text w r id ≡ ok p
      → p.node ≡ some (target t)
      → EdgeBetween w.graph.edges id t
  unfolding point_after
  point_after-EdgeBetween r id t p h e = elim (Bool-cases (is_succeeded r.step.outcome)) [
    | inl good ↦
        resolve_next-EdgeBetween number_text w.graph.edges id t r.step.output (some (result_json r))
          (ground arith)
    | inr bad ↦
        resolve_next_for_outcome-EdgeBetween number_text w.graph.edges id t (some (result_json r))
          (ground arith)
  ]

-- A rank of the nodes, at most `top`, that falls along each edge from an entry or exit to one.
pub record IsRanked (w : EngineWorkflow) (rank : String → ℕ) (top : ℕ) : Type 0 where
  pub bounded : (id : String) → rank id ≤ top
  pub falls :
      (e : WorkflowEdge) (t : String)
      → Memᴰ e w.graph.edges
      → Memᴰ t (targets e)
      → is_transition w.composition (source e) ≡ true
      → is_transition w.composition t ≡ true
      → rank t < rank (source e)

module _ (w : EngineWorkflow) (rank : String → ℕ) where
  -- The rounds before the next counted step, at most.
  pub weight : Option CaseTarget → ℕ
  weight (some (target id)) = if is_transition w.composition id then suc (rank id) else 0
  weight _ = 0

  pub weight-top : (top : ℕ) (o : Option CaseTarget) → IsRanked w rank top → weight o ≤ top + 1
  unfolding weight
  weight-top top none h = omega arith
  weight-top top (some (inherited k)) h = omega arith
  weight-top top (some (target id)) h = ground (arith, h.bounded id)

  -- Behind an entry or exit the weight falls.
  weight-falls :
      (top : ℕ) (id : String) (o : Option CaseTarget)
      → IsRanked w rank top
      → is_transition w.composition id ≡ true
      → ((t : String) → o ≡ some (target t) → EdgeBetween w.graph.edges id t)
      → weight o < weight (some (target id))
  unfolding weight
  weight-falls top id none h entry edge = rw entry (omega arith)
  weight-falls top id (some (inherited k)) h entry edge = rw entry (omega arith)
  weight-falls top id (some (target t)) h entry edge =
      elim (Bool-cases (is_transition w.composition t)) [
        | inr counted ↦ rw (entry, counted) (omega arith)
        | inl also ↦
            let between = edge t refl in
            let falls =
              h.falls between.edge t between.listed between.enters
                (ap (is_transition w.composition) between.leaves ∙ entry) also in
            let same = ap rank between.leaves in rw (entry, also) (omega (arith, falls, same))
      ]

module _ (number_text : ℕ → String) (w : EngineWorkflow) (rank : String → ℕ) where
  -- A round that continues counts a step, or leaves less weight.
  pub round-weight :
      (env : Environment) (c c' : LoopVariables) (at : CaseTarget)
      (resumed : Option ResumedNodeAttempt) (top : ℕ)
      → IsRanked w rank top
      → IsBoundary number_text w c
      → c.current ≡ some at
      → round number_text w env c at resumed ≡ continues c'
      → (c'.executed ≡ c.executed + 1)
        ⊎ ((c'.executed ≡ c.executed) × (weight w rank c'.current < weight w rank c.current))
  unfolding node_attempt
  round-weight env c c' at resumed top h b e goes_on =
      let p =
        round-Passed number_text w env c c' at resumed (IsBoundary-paused number_text w c b)
          goes_on in
      let settled =
        execute_step-Settled number_text w env p.total c.last_output c.state p.id p.node resumed c'
          p.executes in
      let counted =
        count_step-ok number_text w env c.executed p.total p.id c.state.steps p.counted in
      elim (Bool-cases (is_transition w.composition p.id)) [
        | inr step ↦ inl (ground (arith, settled.same_count, counted, step))
        | inl entry ↦ inr (
          ground (arith, settled.same_count, counted, entry),
          (rw (e, p.arrived)
              (weight-falls w rank top p.id c'.current h entry (λ t next.
                point_after-EdgeBetween number_text w _ p.id t settled.point settled.routed
                  (settled.agrees.same_node ∙ next)))),
        )
      ]
