-- ===== src/Engine/Budget.antt =====
-- The step limit of executeGraph in src/workflows/engine.ts.
use native.Mathlib.Nat.{mul-suc}
use native.Mathlib.Numerals.{add-one}
use pi_workflows.Prelude.{
  false, ◌*◌, ◌-◌, ◌*◌, refl, zero, ap, ◌∙◌, inr, inl, suc, some, none, ◌+◌, ◌<◌, Option-cases,
  Option, ok, ◌≡◌, ◌≤◌, String, List, ℕ, arith,
}
use pi_workflows.Engine.{ResumedNodeAttempt, Environment, EngineWorkflow}
use pi_workflows.Engine.Loop.{
  start_loop, run_workflow, finish_loop, execute_run, raised, continues, round, reached_end,
  execute_graph, LoopVariables, LoopEnd, count_step,
}
use pi_workflows.Transitions.{RunState, Step}
use pi_workflows.Graph.{CaseTarget, target}
use pi_workflows.Engine.Boundary.{execute_step-Settled, IsBoundary}
use pi_workflows.Engine.Reached.{
  fresh_start, IsFresh, round-IsBoundary, Reached-IsBoundary, Reached, IsBoundary-paused,
}
use pi_workflows.Engine.Continue.{execute_graph-none}
use pi_workflows.Engine.Output.{round_cases, execute_graph-suc, after_round}
use pi_workflows.Engine.Passed.{round-Passed}
use pi_workflows.Engine.Ranked.{weight-top, weight, round-weight, IsRanked}

one_less : (n : ℕ) → 0 < n → (m : ℕ) × (n ≡ m + 1)
one_less n h = (n - 1, omega arith)

product_step : (k m n : ℕ) → n ≡ m + 1 → k * n ≡ k * m + k
product_step k m n same = rw (same, add-one, mul-suc) refl

module _ (number_text : ℕ → String) (w : EngineWorkflow) where
  count_step-within :
      (env : Environment) (executed total : ℕ) (id : String) (steps : List Step)
      → executed ≤ w.max_steps
      → count_step number_text w env executed (target id) steps ≡ ok total
      → total ≤ w.max_steps
  unfolding count_step
  count_step-within env executed total id steps within h = ground arith

  round-within :
      (env : Environment) (c c' : LoopVariables) (at : CaseTarget)
      (resumed : Option ResumedNodeAttempt)
      → c.state.paused ≡ false
      → c.executed ≤ w.max_steps
      → round number_text w env c at resumed ≡ continues c'
      → c'.executed ≤ w.max_steps
  round-within env c c' at resumed running within h =
      let p = round-Passed number_text w env c c' at resumed running h in
      let settled =
        execute_step-Settled number_text w env p.total c.last_output c.state p.id p.node resumed c'
          p.executes in
      let total = count_step-within env c.executed p.total p.id c.state.steps within p.counted in
      rw (settled.same_count) total

  execute_run-returns :
      (env : Environment) (fuel : ℕ) (c : LoopVariables)
      → (e : LoopEnd) × (execute_graph number_text w env fuel c none ≡ some e)
      → (s : RunState) × (execute_run number_text w env fuel c none ≡ some s)
  unfolding execute_run
  execute_run-returns env fuel c (e, ends) =
      (finish_loop number_text w env e, rw (execute_run, ends) refl)

  -- The loop's end from its end behind a round.
  execute_graph-continues :
      (env : Environment) (fuel : ℕ) (c c' : LoopVariables) (at : CaseTarget)
      → c.current ≡ some at
      → round number_text w env c at none ≡ continues c'
      → (e : LoopEnd) × (execute_graph number_text w env fuel c' none ≡ some e)
      → (e : LoopEnd) × (execute_graph number_text w env (suc fuel) c none ≡ some e)
  execute_graph-continues env fuel c c' at e goes_on (end, ends) = (
    end,
    execute_graph-suc number_text w env fuel c at none e
        ∙ ap (after_round number_text w env fuel) goes_on
        ∙ ends,
  )

  execute_graph-returns :
      (env : Environment) (rank : String → ℕ) (top fuel left : ℕ) (c : LoopVariables)
      → IsRanked w rank top
      → IsBoundary number_text w c
      → c.executed + left ≡ w.max_steps
      → (top + 2) * left + weight w rank c.current < fuel
      → (e : LoopEnd) × (execute_graph number_text w env fuel c none ≡ some e)
  execute_graph-returns env rank top zero left c ranked b within enough = absurd (omega arith)
  execute_graph-returns env rank top (suc fuel) left c ranked b within enough =
      elim (Option-cases c.current) [
        | inl ends ↦ (
          reached_end c.state c.last_output,
          execute_graph-none number_text w env (suc fuel) c ends,
        )
        | inr (at, e) ↦ elim (round_cases (round number_text w env c at none)) [
          | inr (s, error, raised_at) ↦ (
            raised s error,
            execute_graph-suc number_text w env fuel c at none e
                ∙ ap (after_round number_text w env fuel) raised_at,
          )
          | inl (c', goes_on) ↦
              let b' = round-IsBoundary number_text w env c c' at none b goes_on in
              execute_graph-continues env fuel c c' at e goes_on
                (elim (round-weight number_text w rank env c c' at none top ranked b e goes_on) [
                  | inr (same, falls) ↦
                      execute_graph-returns env rank top fuel left c' ranked b' (omega arith)
                        (omega arith)
                  | inl counted ↦
                      let limit =
                        round-within env c c' at none (IsBoundary-paused number_text w c b)
                          (omega arith) goes_on in
                      let (fewer, same) = one_less left (omega arith) in
                      let spent = product_step (top + 2) fewer left same in
                      let light = weight-top w rank top c'.current ranked in
                      execute_graph-returns env rank top fuel fewer c' ranked b' (omega arith)
                        (omega arith)
                ])
        ]
      ]

  -- Whatever the nodes do, a run ends: of a workflow whose entries and exits of included workflows
  -- have a rank, at most `top`, that falls along each edge from one to another, within `top + 2`
  -- rounds for each step that the limit allows, and as many for the last.
  pub run_workflow-returns :
      (env : Environment) (s : RunState) (rank : String → ℕ) (top : ℕ)
      → IsRanked w rank top
      → IsFresh s
      → (end : RunState) × (run_workflow number_text w env ((top + 2) * (w.max_steps + 1)) s
          ≡ some end)
  unfolding run_workflow
  run_workflow-returns env s rank top ranked fresh =
      let start : LoopVariables = start_loop w s in
      let spent = product_step (top + 2) w.max_steps (w.max_steps + 1) refl in
      let light = weight-top w rank top start.current ranked in
      execute_run-returns env ((top + 2) * (w.max_steps + 1)) start (
        execute_graph-returns env rank top ((top + 2) * (w.max_steps + 1)) w.max_steps start ranked
          (Reached-IsBoundary number_text w start (fresh_start s fresh)) (omega arith)
          (omega arith))
