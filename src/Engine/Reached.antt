-- ===== src/Engine/Reached.antt =====
-- What the loop of executeGraph in src/workflows/engine.ts reaches, and what it may have saved
-- there.
use pi_workflows.Prelude.{
  ◌∙◌, last, ok, lookup, true, has, refl, sym, none, ap, some, false, [], ◌≡◌, String, Option, ℕ,
  arith,
}
use pi_workflows.Engine.{ResumedNodeAttempt, Environment, EngineWorkflow}
use pi_workflows.Engine.Boundary.{IsPointOf, execute_step-IsBoundary, IsBoundary}
use pi_workflows.Engine.Loop.{continues, round, start_loop, LoopVariables}
use pi_workflows.Engine.Resume.{
  resumed_loop, resume_point_for, ResumePoint, reset_state, point_from_steps, at_node,
}
use pi_workflows.Engine.Scopes.{count_executable_steps}
use pi_workflows.Graph.{target, CaseTarget}
use pi_workflows.Transitions.{Step, RunState}
use pi_workflows.Engine.Passed.{round-Passed, count_step-ok}

pub IsBoundary-paused :
    (number_text : ℕ → String) (w : EngineWorkflow) (c : LoopVariables)
    → IsBoundary number_text w c
    → c.state.paused ≡ false
unfolding reset_state
IsBoundary-paused number_text w c b = ap (λ s. s.paused) (sym b.clean)

-- The state that createRunState makes, and nothing in it that belongs to an attempt.
pub record IsFresh (s : RunState) : Type 0 where
  pub no_steps : s.steps ≡ []
  pub clean : reset_state s none ≡ s

module _ (number_text : ℕ → String) (w : EngineWorkflow) where
  -- A state that the loop may have saved at its variables `c`: between two rounds, or while a node
  -- of the workflow is executed or held back.
  pub data SavedAt (c : LoopVariables) (t : RunState) : Type 0 where
    between : t.current_node ≡ none → reset_state t none ≡ c.state → SavedAt c t
    in_flight :
        (id : String)
        → t.current_node ≡ some id
        → c.current ≡ some (target id)
        → has id w.graph.nodes ≡ true
        → reset_state t none ≡ c.state
        → SavedAt c t

  -- The variables that the loop reaches, whatever happens around it, runs that were interrupted and
  -- resumed included.
  pub data Reached : LoopVariables → Type 0 where
    fresh_start : (s : RunState) → IsFresh s → Reached (start_loop w s)
    moves :
        (env : Environment) (c c' : LoopVariables) (at : CaseTarget)
        (resumed : Option ResumedNodeAttempt)
        → Reached c
        → c.current ≡ some at
        → round number_text w env c at resumed ≡ continues c'
        → Reached c'
    -- A resumption that drops the attempt.
    resumes :
        (c : LoopVariables) (t : RunState) (p : ResumePoint) (at : CaseTarget)
        → Reached c
        → SavedAt c t
        → resume_point_for number_text w t ≡ ok p
        → p.node ≡ some at
        → Reached (resumed_loop number_text w (reset_state t none) p at)
    -- A resumption that keeps the attempt, and its round.
    resumes_attempt :
        (env : Environment) (c c' : LoopVariables) (t : RunState) (p : ResumePoint)
        (at : CaseTarget) (kept : ResumedNodeAttempt)
        → Reached c
        → SavedAt c t
        → resume_point_for number_text w t ≡ ok p
        → p.node ≡ some at
        → round number_text w env
            (resumed_loop number_text w (reset_state t (some kept)) p at)
            at
            (some kept)
          ≡ continues c'
        → Reached c'

  pub saved_state : (c : LoopVariables) (t : RunState) → SavedAt c t → reset_state t none ≡ c.state
  saved_state c t (between idle same) = same
  saved_state c t (in_flight id busy waits known same) = same

  point_from_steps-results :
      (o : Option Step) (s t : RunState)
      → s.results ≡ t.results
      → point_from_steps number_text w o s ≡ point_from_steps number_text w o t
  unfolding point_from_steps
  point_from_steps-results none s t e = refl
  point_from_steps-results (some step) s t e =
      rw (ap (lookup step.node_id) e, point_from_steps) refl

  -- Where the saved state continues.
  pub resume_point_for-SavedAt :
      (c : LoopVariables) (t : RunState)
      → IsBoundary number_text w c
      → SavedAt c t
      → (p : ResumePoint) × (resume_point_for number_text w t ≡ ok p) × IsPointOf number_text w c p
  unfolding resume_point_for reset_state
  resume_point_for-SavedAt c t b (between idle same) = (
    b.point,
    rw (idle, resume_point_for)
        (ap (λ steps. point_from_steps number_text w (last steps) t) (ap (λ s. s.steps) same)
          ∙ point_from_steps-results (last c.state.steps) t c.state (ap (λ s. s.results) same)
          ∙ b.routed),
    b.agrees,
  )
  resume_point_for-SavedAt c t b (in_flight id busy waits known same) = (
    at_node number_text w id,
    rw (busy, resume_point_for, known) refl,
    record { same_node = sym waits; not_failed = refl; same_output = λ e. absurd (ground arith) },
  )

  -- A round needs no more of its variables than their count.
  counted-IsBoundary :
      (env : Environment) (c c' : LoopVariables) (at : CaseTarget)
      (resumed : Option ResumedNodeAttempt)
      → c.state.paused ≡ false
      → c.executed ≡ count_executable_steps w.composition c.state.steps
      → round number_text w env c at resumed ≡ continues c'
      → IsBoundary number_text w c'
  counted-IsBoundary env c c' at resumed running counts h =
      let p = round-Passed number_text w env c c' at resumed running h in
      execute_step-IsBoundary number_text w env p.total c.last_output c.state p.id p.node resumed c'
        running
        (ground (
          arith,
          counts,
          count_step-ok number_text w env c.executed p.total p.id c.state.steps p.counted,
        ))
        p.executes

  pub round-IsBoundary :
      (env : Environment) (c c' : LoopVariables) (at : CaseTarget)
      (resumed : Option ResumedNodeAttempt)
      → IsBoundary number_text w c
      → round number_text w env c at resumed ≡ continues c'
      → IsBoundary number_text w c'
  round-IsBoundary env c c' at resumed b h =
      counted-IsBoundary env c c' at resumed (IsBoundary-paused number_text w c b) b.counts h

  start-IsBoundary : (s : RunState) → IsFresh s → IsBoundary number_text w (start_loop w s)
  unfolding point_from_steps count_executable_steps
  start-IsBoundary s fresh = record {
    counts = rw (fresh.no_steps) refl;
    clean = fresh.clean;
    point = at_node number_text w w.graph.start_at;
    routed = rw (fresh.no_steps) refl;
    agrees = record {
      same_node = refl;
      not_failed = refl;
      same_output = λ e. absurd (ground arith);
    };
  }

  resumed_loop-IsBoundary :
      (c : LoopVariables) (t : RunState) (p : ResumePoint) (at : CaseTarget)
      → IsBoundary number_text w c
      → SavedAt c t
      → resume_point_for number_text w t ≡ ok p
      → p.node ≡ some at
      → IsBoundary number_text w (resumed_loop number_text w (reset_state t none) p at)
  unfolding resumed_loop
  resumed_loop-IsBoundary c t p at b saved found e =
      let (q, found', agrees) = resume_point_for-SavedAt c t b saved in
      let same : p ≡ q = cc in
      record {
        counts = refl;
        clean =
            ap (λ s. reset_state s none) (saved_state c t saved)
            ∙ b.clean
            ∙ sym (saved_state c t saved);
        point = b.point;
        routed =
            ap (λ s. point_from_steps number_text w (last s.steps) s) (saved_state c t saved)
            ∙ b.routed;
        agrees = record {
          same_node = b.agrees.same_node ∙ sym agrees.same_node ∙ ap (λ r. r.node) (sym same) ∙ e;
          not_failed = b.agrees.not_failed;
          same_output = λ ends. absurd (ground arith);
        };
      }

  pub Reached-IsBoundary : (c : LoopVariables) → Reached c → IsBoundary number_text w c
  unfolding resumed_loop reset_state
  Reached-IsBoundary c (fresh_start s fresh) = start-IsBoundary s fresh
  Reached-IsBoundary c (moves env d _ at resumed before e h) =
      round-IsBoundary env d c at resumed (Reached-IsBoundary d before) h
  Reached-IsBoundary _ (resumes c t p at before saved found e) =
      resumed_loop-IsBoundary c t p at (Reached-IsBoundary c before) saved found e
  Reached-IsBoundary c' (resumes_attempt env c _ t p at kept before saved found e h) =
      counted-IsBoundary env (resumed_loop number_text w (reset_state t (some kept)) p at) c' at
        (some kept) refl refl h
