-- ===== src/Engine/Output.antt =====
-- The variable `lastOutput` of executeGraph in src/workflows/engine.ts: where another node follows,
-- what it holds is never read.
use pi_workflows.Prelude.{
  sym, ◌⊎◌, ◌∙◌, refl, none, some, zero, suc, some, inr, ◌≡◌, ◌||◌, inl, String, Outcome-cases,
  Option, Bool-cases, Bool, ℕ, arith,
}
use pi_workflows.Engine.{EngineError, ResumedNodeAttempt, NodeAttempt, Environment, EngineWorkflow}
use pi_workflows.Engine.Boundary.{}
use pi_workflows.Engine.Loop.{
  raises, raised, LoopEnd, continues, round, dispatch, route_after_failure, node_of, is_cancelled,
  hold_while_paused, follow_route, execute_step, execute_graph, count_step, Round, LoopVariables,
}
use pi_workflows.Engine.Node.{node_attempt, begin_node, active_resume}
use pi_workflows.Engine.Record.{record_attempt}
use pi_workflows.Graph.{resolve_next_for_outcome, WorkflowNode, CaseTarget}
use pi_workflows.Json.{Json}
use pi_workflows.Transitions.{is_succeeded, RunState, NodeResult}
use pi_workflows.Transitions.Guards.{result_json}
use pi_workflows.Engine.Passed.{hold_cases}

-- Two rounds that differ in no more than an output that is not read.
data SameRound : Round → Round → Type 0 where
  same : {r : Round} → SameRound r r
  differs :
      {c : LoopVariables} {at : CaseTarget} (o : Option Json)
      → c.current ≡ some at
      → SameRound (continues c) (continues (record c { last_output = o }))

pub round_cases :
    (r : Round)
    → ((c : LoopVariables) × (r ≡ continues c))
      ⊎ ((s : RunState) × (e : EngineError) × (r ≡ raises s e))
round_cases (continues c) = inl (c, refl)
round_cases (raises s e) = inr (s, e, refl)

module _ (number_text : ℕ → String) (w : EngineWorkflow) (env : Environment) where
  route_after_failure-SameRound :
      (executed : ℕ) (o o' : Option Json) (s : RunState) (r : NodeResult) (stopped : Bool)
      → SameRound
          (route_after_failure number_text w env executed o s r stopped)
          (route_after_failure number_text w env executed o' s r stopped)
  unfolding route_after_failure
  route_after_failure-SameRound executed o o' s r stopped =
      elim (Bool-cases (is_cancelled r.step.outcome || stopped)) [
        | inl ends ↦ rw ends same
        | inr goes_on ↦
            elim (Outcome-cases (
              resolve_next_for_outcome number_text w.graph.edges r.step.node_id
                (some (result_json r)))) [
                  | inr (e, routed) ↦ rw (goes_on, routed) same
                  | inl (none, routed) ↦ rw (goes_on, routed) same
                  | inl (some next, routed) ↦ rw (goes_on, routed) (differs o' refl)
                ]
      ]

  follow_route-SameRound :
      (executed : ℕ) (o o' : Option Json) (s : RunState) (r : NodeResult) (stopped : Bool)
      → SameRound
          (follow_route number_text w env executed o s r stopped)
          (follow_route number_text w env executed o' s r stopped)
  unfolding follow_route
  follow_route-SameRound executed o o' s r stopped =
      elim (Bool-cases (is_succeeded r.step.outcome)) [
        | inl good ↦ rw good same
        | inr bad ↦ rw bad (route_after_failure-SameRound executed o o' s r stopped)
      ]

  execute_step-SameRound :
      (executed : ℕ) (o o' : Option Json) (s : RunState) (id : String) (node : WorkflowNode)
      (resumed : Option ResumedNodeAttempt)
      → SameRound
          (execute_step number_text w env executed o s id node resumed)
          (execute_step number_text w env executed o' s id node resumed)
  unfolding execute_step
  execute_step-SameRound executed o o' s id node resumed =
      let begun : RunState = begin_node env s id node (active_resume resumed id) in
      let attempt : NodeAttempt = node_attempt begun id node (env.run_node begun) in
      elim (Bool-cases (env.run_node begun).after.parked) [
        | inl parked ↦ rw parked same
        | inr goes_on ↦ rw goes_on (
            follow_route-SameRound executed o o' (record_attempt w.composition begun attempt)
              attempt.result (env.run_node begun).after.cancelled)
      ]

  dispatch-SameRound :
      (c : LoopVariables) (o : Option Json) (s : RunState) (at : CaseTarget)
      (resumed : Option ResumedNodeAttempt)
      → SameRound
          (dispatch number_text w env c s at resumed)
          (dispatch number_text w env (record c { last_output = o }) s at resumed)
  unfolding dispatch
  dispatch-SameRound c o s at resumed =
      elim (Outcome-cases (count_step number_text w env c.executed at s.steps)) [
        | inr (e, refused) ↦ rw (refused, dispatch) same
        | inl (executed, counted) ↦ elim (Outcome-cases (node_of number_text w env at)) [
          | inr (e, absent) ↦ rw (counted, absent, dispatch) same
          | inl ((id, node), found) ↦
              rw (counted, found, dispatch)
                (execute_step-SameRound executed c.last_output o s id node resumed)
        ]
      ]

  round-SameRound :
      (c : LoopVariables) (o : Option Json) (at : CaseTarget) (resumed : Option ResumedNodeAttempt)
      → SameRound
          (round number_text w env c at resumed)
          (round number_text w env (record c { last_output = o }) at resumed)
  unfolding round
  round-SameRound c o at resumed = elim (hold_cases (hold_while_paused number_text w env c.state)) [
    | inr (s, e, broke) ↦ rw (broke, round) same
    | inl (s, held) ↦ rw (held, round) (dispatch-SameRound c o s at resumed)
  ]

  -- The loop behind a round.
  abbrev pub after_round : ℕ → Round → Option LoopEnd
  after_round fuel (raises s e) = some (raised s e)
  after_round fuel (continues c) = execute_graph number_text w env fuel c none

  pub execute_graph-suc :
      (fuel : ℕ) (c : LoopVariables) (at : CaseTarget) (resumed : Option ResumedNodeAttempt)
      → c.current ≡ some at
      → execute_graph number_text w env (suc fuel) c resumed
        ≡ after_round fuel (round number_text w env c at resumed)
  unfolding execute_graph
  execute_graph-suc fuel c at resumed e =
      elim (round_cases (round number_text w env c at resumed)) [
        | inl (c', goes_on) ↦ ground arith
        | inr (s, error, stopped) ↦ ground arith
      ]

  after_round-SameRound :
      (fuel : ℕ) (r r' : Round)
      → ((c : LoopVariables) (o : Option Json) (at : CaseTarget)
          → c.current ≡ some at
          → execute_graph number_text w env fuel (record c { last_output = o }) none
            ≡ execute_graph number_text w env fuel c none)
      → SameRound r r'
      → after_round fuel r' ≡ after_round fuel r
  after_round-SameRound fuel r r' later same = refl
  after_round-SameRound fuel r r' later (differs {c = c} {at = at} o e) = later c o at e

  -- The end of the loop does not depend on the output that it starts with.
  pub execute_graph-output :
      (fuel : ℕ) (c : LoopVariables) (o : Option Json) (at : CaseTarget)
      (resumed : Option ResumedNodeAttempt)
      → c.current ≡ some at
      → execute_graph number_text w env fuel (record c { last_output = o }) resumed
        ≡ execute_graph number_text w env fuel c resumed
  unfolding execute_graph
  execute_graph-output zero c o at resumed e = ground arith
  execute_graph-output (suc fuel) c o at resumed e =
      execute_graph-suc fuel (record c { last_output = o }) at resumed e
      ∙ after_round-SameRound fuel (round number_text w env c at resumed)
          (round number_text w env (record c { last_output = o }) at resumed)
          (λ c o at. execute_graph-output fuel c o at none) (round-SameRound c o at resumed)
      ∙ sym (execute_graph-suc fuel c at resumed e)
