-- ===== src/Engine/Passed.antt =====
-- What a round of executeGraph in src/workflows/engine.ts that continues has passed.
use pi_workflows.Prelude.{
  ◌⊎◌, Outcome-cases, Option-cases, inr, inl, ok, refl, false, if◌then◌else◌, ◌+◌, some, ◌≡◌,
  lookup, String, Option, List, ℕ, arith,
}
use pi_workflows.Engine.{EngineError, ResumedNodeAttempt, Environment, EngineWorkflow}
use pi_workflows.Engine.Scopes.{is_transition}
use pi_workflows.Transitions.{Step, RunState}
use pi_workflows.Engine.Loop.{
  breaks, Hold, node_of, dispatch, proceeds, round, hold_while_paused, count_step, execute_step,
  LoopVariables, continues,
}
use pi_workflows.Graph.{inherited, target, CaseTarget, WorkflowNode}
use pi_workflows.Engine.Boundary.{reset_state-unpaused}

pub hold_cases :
    (h : Hold)
    → ((s : RunState) × (h ≡ proceeds s)) ⊎ ((s : RunState) × (e : EngineError) × (h ≡ breaks s e))
hold_cases (proceeds s) = inl (s, refl)
hold_cases (breaks s e) = inr (s, e, refl)

module _ (number_text : ℕ → String) (w : EngineWorkflow) where
  pub count_step-ok :
      (env : Environment) (executed total : ℕ) (id : String) (steps : List Step)
      → count_step number_text w env executed (target id) steps ≡ ok total
      → total ≡ executed + (if is_transition w.composition id then 0 else 1)
  unfolding count_step
  count_step-ok env executed total id steps h = ground arith

  hold-proceeds :
      (env : Environment) (s s' : RunState)
      → s.paused ≡ false
      → hold_while_paused number_text w env s ≡ proceeds s'
      → s' ≡ s
  unfolding hold_while_paused
  hold-proceeds env s s' running h = ground (arith, reset_state-unpaused s running)

  -- What a round that continues has passed.
  pub record Passed (env : Environment) (c : LoopVariables) (at : CaseTarget)
      (resumed : Option ResumedNodeAttempt) (c' : LoopVariables) : Type 0 where
    pub id : String
    pub node : WorkflowNode
    pub total : ℕ
    pub arrived : at ≡ target id
    pub found : lookup id w.graph.nodes ≡ some node
    pub counted : count_step number_text w env c.executed (target id) c.state.steps ≡ ok total
    pub executes :
        execute_step number_text w env total c.last_output c.state id node resumed ≡ continues c'

  dispatch-Passed :
      (env : Environment) (c c' : LoopVariables) (at : CaseTarget)
      (resumed : Option ResumedNodeAttempt)
      → dispatch number_text w env c c.state at resumed ≡ continues c'
      → Passed env c at resumed c'
  unfolding dispatch node_of
  dispatch-Passed env c c' (inherited key) resumed h = absurd (ground arith)
  dispatch-Passed env c c' (target id) resumed h = elim (Option-cases (lookup id w.graph.nodes)) [
    | inl absent ↦ absurd (ground arith)
    | inr (node, found) ↦
        elim (Outcome-cases (count_step number_text w env c.executed (target id) c.state.steps)) [
          | inl (total, counted) ↦ record {
            id = id;
            node = node;
            total = total;
            arrived = refl;
            found = found;
            counted = counted;
            executes = ground arith;
          }
          | inr (e, refused) ↦ absurd (ground arith)
        ]
  ]

  pub round-Passed :
      (env : Environment) (c c' : LoopVariables) (at : CaseTarget)
      (resumed : Option ResumedNodeAttempt)
      → c.state.paused ≡ false
      → round number_text w env c at resumed ≡ continues c'
      → Passed env c at resumed c'
  unfolding round
  round-Passed env c c' at resumed running h =
      elim (hold_cases (hold_while_paused number_text w env c.state)) [
        | inl (s, held) ↦
            let same = hold-proceeds env c.state s running held in
            dispatch-Passed env c c' at resumed (ground (arith, same, held))
        | inr (s, e, broke) ↦ absurd (ground arith)
      ]
