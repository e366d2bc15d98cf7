-- ===== src/Engine/Boundary.antt =====
-- What holds between two rounds of executeGraph in src/workflows/engine.ts.
use pi_workflows.Prelude.{
  last-append, inr, inl, ◌∙◌, sym, ok, last, insert, ap, refl, false, Bool-cases, Bool,
  if◌then◌else◌, ◌+◌, none, some, [], ◌≡◌, ◌∷◌, ◌++◌, lookup, lookup-insert, eq_iff, String, Option,
  List, ℕ, arith,
}
use pi_workflows.Engine.{
  ResumedNodeAttempt, Environment, EngineWorkflow, NodeAttempt, CompositionMetadata,
}
use pi_workflows.Engine.Record.{step_record, set_outputs, exit_of, record_attempt, mirror_exit}
use pi_workflows.Engine.Scopes.{is_transition, count_executable_steps}
use pi_workflows.Transitions.{is_succeeded, Step, RunState, NodeResult}
use pi_workflows.Engine.Loop.{
  execute_step, follow_route, LoopVariables, continues, route_after_success, route_after_failure,
}
use pi_workflows.Engine.Resume.{reset_state, point_from_steps, point_after, ResumePoint}
use pi_workflows.Json.{Json}
use pi_workflows.Engine.Node.{node_attempt, active_resume, begin_node}
use pi_workflows.Graph.{WorkflowNode}
use mathlib.Core.Path.{subst}

count_executable_steps-append :
    (m : Option CompositionMetadata) (steps : List Step) (step : Step)
    → count_executable_steps m (steps ++ step ∷ [])
      ≡ count_executable_steps m steps + (if is_transition m step.node_id then 0 else 1)
unfolding count_executable_steps
count_executable_steps-append m [] step = ground arith
count_executable_steps-append m (x ∷ steps) step =
    ground (arith, count_executable_steps-append m steps step)

-- A mirrored exit keeps the result of the node itself.
mirror_exit-lookup :
    (path : Option String) (r : NodeResult) (s : RunState)
    → lookup r.step.node_id s.results ≡ some r
    → lookup r.step.node_id (mirror_exit path r s).results ≡ some r
unfolding mirror_exit
mirror_exit-lookup none r s h = h
mirror_exit-lookup (some path) r s h = ground (
  arith,
  lookup-insert path r.step.node_id (record r { step = record (r.step) { node_id = path } })
      s.results,
  eq_iff path r.step.node_id,
)

pub record_attempt-lookup :
    (m : Option CompositionMetadata) (s : RunState) (a : NodeAttempt)
    → lookup a.result.step.node_id (record_attempt m s a).results ≡ some a.result
unfolding record_attempt
record_attempt-lookup m s a =
    mirror_exit-lookup (exit_of m a.result.step.node_id) a.result
      (record s {
        results = insert a.result.step.node_id a.result s.results;
        outputs = set_outputs a.result s.outputs;
      })
      (ground (
        arith,
        lookup-insert a.result.step.node_id a.result.step.node_id a.result s.results,
        eq_iff a.result.step.node_id a.result.step.node_id,
      ))

mirror_exit-paused :
    (path : Option String) (r : NodeResult) (s : RunState)
    → (mirror_exit path r s).paused ≡ s.paused
unfolding mirror_exit
mirror_exit-paused none r s = refl
mirror_exit-paused (some path) r s = ground arith

pub reset_state-unpaused : (s : RunState) → s.paused ≡ false → record s { paused = false } ≡ s
reset_state-unpaused s h = ap (λ b. record s { paused = b }) (sym h)

pub record_attempt-reset :
    (m : Option CompositionMetadata) (s : RunState) (a : NodeAttempt)
    → s.paused ≡ false
    → reset_state (record_attempt m s a) none ≡ record_attempt m s a
unfolding record_attempt reset_state
record_attempt-reset m s a h = reset_state-unpaused (record_attempt m s a) (
    mirror_exit-paused (exit_of m a.result.step.node_id) a.result (record s {
      results = insert a.result.step.node_id a.result s.results;
      outputs = set_outputs a.result s.outputs;
    })
    ∙ h)

pub record_attempt-steps :
    (m : Option CompositionMetadata) (s : RunState) (a : NodeAttempt)
    → (record_attempt m s a).steps ≡ s.steps ++ step_record a ∷ []
unfolding record_attempt
record_attempt-steps m s a = refl

module _ (number_text : ℕ → String) (w : EngineWorkflow) where
  -- The route from the last recorded step is the loop's next node, with the loop's output where
  -- there is none.
  pub record IsPointOf (c : LoopVariables) (p : ResumePoint) : Type 0 where
    pub same_node : p.node ≡ c.current
    pub not_failed : p.failed_result ≡ none
    pub same_output : c.current ≡ none → p.last_output ≡ c.last_output

  pub record IsBoundary (c : LoopVariables) : Type 0 where
    pub counts : c.executed ≡ count_executable_steps w.composition c.state.steps
    pub clean : reset_state c.state none ≡ c.state
    pub point : ResumePoint
    pub routed : point_from_steps number_text w (last c.state.steps) c.state ≡ ok point
    pub agrees : IsPointOf c point

  pub record Settled (executed : ℕ) (s : RunState) (r : NodeResult) (c : LoopVariables)
      : Type 0 where
    pub same_state : c.state ≡ s
    pub same_count : c.executed ≡ executed
    pub point : ResumePoint
    pub routed : point_after number_text w r r.step.node_id ≡ ok point
    pub agrees : IsPointOf c point

  follow_route-Settled :
      (env : Environment) (executed : ℕ) (output : Option Json) (s : RunState) (r : NodeResult)
      (stopped : Bool) (c : LoopVariables)
      → follow_route number_text w env executed output s r stopped ≡ continues c
      → Settled executed s r c
  unfolding follow_route route_after_success route_after_failure point_after
  follow_route-Settled env executed output s r stopped c h =
      elim (Bool-cases (is_succeeded r.step.outcome)) [
        | inl good ↦ record {
          same_state = ground arith;
          same_count = ground arith;
          point = record { node = c.current; last_output = c.last_output; failed_result = none };
          routed = ground arith;
          agrees = record { same_node = refl; not_failed = refl; same_output = λ _. refl };
        }
        | inr bad ↦ record {
          same_state = ground arith;
          same_count = ground arith;
          point = record { node = c.current; last_output = none; failed_result = none };
          routed = ground arith;
          agrees = record {
            same_node = refl;
            not_failed = refl;
            same_output = λ e. absurd (ground arith);
          };
        }
      ]

  begin_node-steps :
      (env : Environment) (s : RunState) (id : String) (node : WorkflowNode)
      (resumed : Option ResumedNodeAttempt)
      → ((begin_node env s id node resumed).steps ≡ s.steps)
        × ((begin_node env s id node resumed).paused ≡ s.paused)
  unfolding begin_node
  begin_node-steps env s id node resumed = (ground arith, ground arith)

  point_from_steps-result :
      (o : Option Step) (s : RunState) (step : Step) (r : NodeResult)
      → o ≡ some step
      → lookup step.node_id s.results ≡ some r
      → point_from_steps number_text w o s ≡ point_after number_text w r step.node_id
  unfolding point_from_steps
  point_from_steps-result o s step r e h = rw (e, point_from_steps, h) refl

  pub point_from_steps-record_attempt :
      (m : Option CompositionMetadata) (s : RunState) (a : NodeAttempt)
      → point_from_steps number_text w (last (record_attempt m s a).steps) (record_attempt m s a)
        ≡ point_after number_text w a.result a.result.step.node_id
  point_from_steps-record_attempt m s a =
      point_from_steps-result (last (record_attempt m s a).steps) (record_attempt m s a)
        (step_record a) a.result
        (ap last (record_attempt-steps m s a) ∙ last-append s.steps (step_record a))
        (record_attempt-lookup m s a)

  -- A recorded attempt, followed by its route, leads to a boundary.
  recorded-IsBoundary :
      (s : RunState) (a : NodeAttempt) (c : LoopVariables)
      → s.paused ≡ false
      → Settled
          (count_executable_steps w.composition s.steps
            + (if is_transition w.composition a.result.step.node_id then 0 else 1))
          (record_attempt w.composition s a)
          a.result
          c
      → IsBoundary c
  recorded-IsBoundary s a c running h = record {
    counts =
        rw
          (
            h.same_state,
            h.same_count,
            record_attempt-steps w.composition s a,
            count_executable_steps-append w.composition s.steps (step_record a),
          )
          refl;
    clean = rw (h.same_state) (record_attempt-reset w.composition s a running);
    point = h.point;
    routed = rw (h.same_state, point_from_steps-record_attempt w.composition s a) h.routed;
    agrees = h.agrees;
  }

  pub execute_step-Settled :
      (env : Environment) (executed : ℕ) (output : Option Json) (s : RunState) (id : String)
      (node : WorkflowNode) (resumed : Option ResumedNodeAttempt) (c : LoopVariables)
      → execute_step number_text w env executed output s id node resumed ≡ continues c
      → let begun = begin_node env s id node (active_resume resumed id) in
        let attempt = node_attempt begun id node (env.run_node begun) in
        Settled executed (record_attempt w.composition begun attempt) attempt.result c
  unfolding execute_step
  execute_step-Settled env executed output s id node resumed c h =
      let begun : RunState = begin_node env s id node (active_resume resumed id) in
      let attempt : NodeAttempt = node_attempt begun id node (env.run_node begun) in
      elim (Bool-cases (env.run_node begun).after.parked) [
        | inl parked ↦ absurd (ground arith)
        | inr goes_on ↦
            follow_route-Settled env executed output (record_attempt w.composition begun attempt)
              attempt.result (env.run_node begun).after.cancelled c (ground arith)
      ]

  pub execute_step-IsBoundary :
      (env : Environment) (executed : ℕ) (output : Option Json) (s : RunState) (id : String)
      (node : WorkflowNode) (resumed : Option ResumedNodeAttempt) (c : LoopVariables)
      → s.paused ≡ false
      → executed
        ≡ count_executable_steps w.composition s.steps
          + (if is_transition w.composition id then 0 else 1)
      → execute_step number_text w env executed output s id node resumed ≡ continues c
      → IsBoundary c
  unfolding node_attempt
  execute_step-IsBoundary env executed output s id node resumed c running counted h =
      let begun : RunState = begin_node env s id node (active_resume resumed id) in
      let steps = begin_node-steps env s id node (active_resume resumed id) in
      let attempt : NodeAttempt = node_attempt begun id node (env.run_node begun) in
      recorded-IsBoundary begun attempt c (ground arith) (
        subst (λ n. Settled n (record_attempt w.composition begun attempt) attempt.result c)
          (counted
            ∙ ap
                (λ steps.
                  count_executable_steps w.composition steps
                  + (if is_transition w.composition id then 0 else 1))
                (sym steps.0))
          (execute_step-Settled env executed output s id node resumed c h))
