-- ===== src/Engine/Continue.antt =====
-- resumeRun against executeGraph in src/workflows/engine.ts: a run that is interrupted goes on as
-- the loop would have.
use pi_workflows.Prelude.{
  zero, suc, inr, ◌∙◌, inl, Option-cases, ok, refl, sym, none, ap, some, ◌≡◌, String, Option, ℕ,
  arith,
}
use pi_workflows.Engine.{Environment, EngineWorkflow}
use pi_workflows.Engine.Boundary.{IsPointOf, IsBoundary}
use pi_workflows.Engine.Loop.{
  reached_end, finish_run, finish_loop, execute_graph, execute_run, LoopVariables,
}
use pi_workflows.Engine.Resume.{
  resumed_loop, resumed_attempt, resume_run, finish_resumed, continue_from, ResumePoint,
  reset_state,
}
use pi_workflows.Engine.Scopes.{count_executable_steps}
use pi_workflows.Graph.{CaseTarget}
use pi_workflows.Json.{Json}
use pi_workflows.Transitions.{EndStatus, RunState}
use pi_workflows.Engine.Output.{execute_graph-output}
use pi_workflows.Engine.Reached.{
  saved_state, resume_point_for-SavedAt, SavedAt, Reached-IsBoundary, Reached,
}

module _ (number_text : ℕ → String) (w : EngineWorkflow) where
  restarted :
      (c : LoopVariables) (at : CaseTarget) (n : ℕ) (s : RunState) (o : Option Json)
      → c.current ≡ some at
      → c.executed ≡ n
      → s ≡ c.state
      → Path LoopVariables
          (record { current = some at; executed = n; last_output = o; state = s })
          (record c { last_output = o })
  restarted c at n s o e counted same = rw (e, counted, same) refl

  pub execute_graph-none :
      (env : Environment) (fuel : ℕ) (c : LoopVariables)
      → c.current ≡ none
      → execute_graph number_text w env fuel c none ≡ some (reached_end c.state c.last_output)
  unfolding execute_graph
  execute_graph-none env zero c ends = ground arith
  execute_graph-none env (suc fuel) c ends = ground arith

  execute_run-eq :
      (env : Environment) (fuel : ℕ) (c d : LoopVariables)
      → execute_graph number_text w env fuel c none ≡ execute_graph number_text w env fuel d none
      → execute_run number_text w env fuel c none ≡ execute_run number_text w env fuel d none
  unfolding execute_run
  execute_run-eq env fuel c d same = rw (execute_run, same) refl

  execute_run-none :
      (env : Environment) (fuel : ℕ) (c : LoopVariables)
      → c.current ≡ none
      → execute_run number_text w env fuel c none
        ≡ some (finish_run c.state EndStatus.completed none c.last_output env.now)
  unfolding execute_run finish_loop
  execute_run-none env fuel c ends = rw (execute_run, execute_graph-none env fuel c ends) refl

  finish_resumed-completed :
      (env : Environment) (c : LoopVariables) (s : RunState) (p : ResumePoint)
      → s ≡ c.state
      → p.failed_result ≡ none
      → p.last_output ≡ c.last_output
      → finish_resumed number_text w env s p
        ≡ finish_run c.state EndStatus.completed none c.last_output env.now
  unfolding finish_resumed
  finish_resumed-completed env c s p same good output =
      rw (good, finish_resumed)
        (ap (λ o. finish_run s EndStatus.completed none o env.now) output
          ∙ ap (λ x. finish_run x EndStatus.completed none c.last_output env.now) same)

  continue_from-IsPointOf :
      (env : Environment) (fuel : ℕ) (c : LoopVariables) (s : RunState) (p : ResumePoint)
      → IsBoundary number_text w c
      → s ≡ c.state
      → IsPointOf number_text w c p
      → continue_from number_text w env fuel s p none ≡ execute_run number_text w env fuel c none
  unfolding continue_from resumed_loop
  continue_from-IsPointOf env fuel c s p b same h = elim (Option-cases c.current) [
    | inl ends ↦
        rw (h.same_node ∙ ends, continue_from)
          (ap some (finish_resumed-completed env c s p same h.not_failed (h.same_output ends))
            ∙ sym (execute_run-none env fuel c ends))
    | inr (at, e) ↦
        rw (h.same_node ∙ e, continue_from)
          (ap (λ d. execute_run number_text w env fuel d none)
              (restarted c at (count_executable_steps w.composition s.steps) s p.last_output e
                (ground (arith, b.counts, same)) same)
            ∙ execute_run-eq env fuel (record c { last_output = p.last_output }) c
                (execute_graph-output number_text w env fuel c p.last_output at none e))
  ]

  -- A run whose loop has reached some variables, through any rounds and any resumptions, and that
  -- is interrupted there, between two rounds or inside a node whose attempt
  -- is not kept: resuming the saved state gives just what the uninterrupted loop would have given.
  pub resume_run-execute_run :
      (env : Environment) (fuel : ℕ) (interaction : Option String) (c : LoopVariables)
      (t : RunState)
      → Reached number_text w c
      → SavedAt number_text w c t
      → resumed_attempt number_text w env interaction t ≡ ok none
      → resume_run number_text w env fuel interaction t
        ≡ ok (execute_run number_text w env fuel c none)
  unfolding resume_run
  resume_run-execute_run env fuel interaction c t reached saved dropped =
      let b = Reached-IsBoundary number_text w c reached in
      let (p, found, agrees) = resume_point_for-SavedAt number_text w c t b saved in
      rw (found, dropped, resume_run)
        (ap ok (
          continue_from-IsPointOf env fuel c (reset_state t none) p b
            (saved_state number_text w c t saved) agrees))
