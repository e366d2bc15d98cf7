-- ===== src/Transitions/Path.antt =====
-- The accepted steps of a run follow the graph: applyExecutionTransition and nextNode of
-- src/workflows/transitions.ts.
use pi_workflows.Prelude.{
  opt_eq-eq, lookup-insert, eq_iff, true, last-append, ◌∙◌, refl, Assoc, throw, ◌∷◌, ◌++◌, inr,
  lookup, inl, [], Outcome, ◌⊎◌, last, Option, List, Bool, String, ℕ, ◌≡◌, arith, ok, some, none,
}
use mathlib.Core.Path.{subst, subst₂}
use pi_workflows.Prelude.{sym, or_else}
use pi_workflows.Transitions.{
  waiting, running, RequestKind, EndStatus, TransitionError, TraceEvent, NodeResult, Step, RunState,
}
use pi_workflows.Graph.{inherited, CaseTarget, GraphError, target, WorkflowDefinition}
use pi_workflows.Transitions.Guards.{
  is_target, route_after, set_settings, node_after, next_node, lift_route,
}
use pi_workflows.Transitions.Apply.{
  step_matches, record_binding, commit_step, apply_wait, apply_set_timeout,
  apply_resume_interaction, apply_resume, apply_pause, apply_finish_attempt, apply_finish,
  apply_start,
}
use pi_workflows.Transitions.Shape.{IsShaped}
use pi_workflows.Json.{Json}

module _ (number_text : ℕ → String) (milliseconds : String → String → ℕ)
    (def : WorkflowDefinition) where
  -- The result that the code keeps of a step.
  abbrev pub result_of : Step → NodeResult
  result_of step = record {
    step = step;
    duration_ms = milliseconds step.finished_at step.started_at;
  }

  -- Where the graph goes after the steps: to the start node, or along the last step's result.
  abbrev pub route_of : Option Step → Outcome GraphError (Option CaseTarget)
  route_of none = ok (some (target def.start_at))
  route_of (some step) = route_after number_text def (result_of step)

  -- Each step is at the node to which the graph goes after the steps before it.
  pub data IsPath : List Step → Type 0 where
    empty : IsPath []
    extend :
        {steps all : List Step} (step : Step)
        → IsPath steps
        → route_of (last steps) ≡ ok (some (target step.node_id))
        → all ≡ steps ++ step ∷ []
        → IsPath all

  abbrev pub HasResult : Option Step → Assoc NodeResult → Type 0
  HasResult none results = Unit
  HasResult (some step) results = lookup step.node_id results ≡ some (result_of step)

  abbrev pub Active : Option String → List Step → Type 0
  Active none steps = Unit
  Active (some id) steps = route_of (last steps) ≡ ok (some (target id))

  pub record IsRouted (s : RunState) : Type 0 where
    pub path : IsPath s.steps
    pub has_result : HasResult (last s.steps) s.results
    pub active : Active s.current_node s.steps

  node_after_lem :
      (o : Option Step) (s : RunState)
      → HasResult o s.results
      → node_after number_text def o s ≡ lift_route (route_of o)
  unfolding node_after lift_route
  node_after_lem none s h = refl
  node_after_lem (some step) s h = rw h

  -- nextNode never misses a result, and goes where the graph goes after the steps.
  pub next_node_lem :
      (s : RunState)
      → IsRouted s
      → next_node number_text def s ≡ lift_route (route_of (last s.steps))
  unfolding next_node
  next_node_lem s h = node_after_lem (last s.steps) s h.has_result

  pub lift_route-ok :
      (o : Outcome GraphError (Option CaseTarget)) (t : Option CaseTarget)
      → lift_route o ≡ ok t
      → o ≡ ok t
  unfolding lift_route
  lift_route-ok (ok a) t h = ground arith
  lift_route-ok (throw e) t h = absurd (ground arith)

  -- A change that leaves the steps alone, and clears the active node or keeps it.
  pub record Leaves (s s' : RunState) : Type 0 where
    pub steps : s'.steps ≡ s.steps
    pub results : s'.results ≡ s.results
    pub node : (s'.current_node ≡ none) ⊎ (s'.current_node ≡ s.current_node)

  pub Leaves-IsRouted : (s s' : RunState) → Leaves s s' → IsRouted s → IsRouted s'
  Leaves-IsRouted s s' k h = record {
    path = subst IsPath (sym k.steps) h.path;
    has_result =
        subst₂ (λ steps results. HasResult (last steps) results) (sym k.steps) (sym k.results)
          h.has_result;
    active = subst (Active s'.current_node) (sym k.steps) (elim k.node [
      | inl cleared ↦ subst (λ id. Active id s.steps) (sym cleared) tt
      | inr same ↦ subst (λ id. Active id s.steps) (sym same) h.active
    ]);
  }

  is_target-eq :
      (o : Option CaseTarget) (id : String) → is_target o id ≡ true → o ≡ some (target id)
  is_target-eq none id h = absurd (ground arith)
  is_target-eq (some (target t)) id h = ground (arith, eq_iff t id)
  is_target-eq (some (inherited k)) id h = absurd (ground arith)

  abbrev value_of : Outcome TransitionError (Option CaseTarget) → Option CaseTarget
  value_of (ok t) = t
  value_of (throw e) = none

  module _ (is_date : String → Bool) (s s' : RunState) (e : TraceEvent) where
    abbrev started_node : String
    started_node = or_else e.node_id ""

    apply_start_lem :
        (at : String)
        → apply_start number_text is_date milliseconds def s e at ≡ ok s'
        → (s'.steps ≡ s.steps)
          × (s'.results ≡ s.results)
          × (s'.current_node ≡ some started_node)
          × (next_node number_text def s ≡ ok (some (target started_node)))
    unfolding apply_start set_settings
    apply_start_lem at a =
        ground (arith, is_target-eq (value_of (next_node number_text def s)) started_node)

    pub apply_start-IsRouted :
        (at : String)
        → IsRouted s
        → apply_start number_text is_date milliseconds def s e at ≡ ok s'
        → IsRouted s'
    apply_start-IsRouted at h a =
        let (steps, results, node, next) = apply_start_lem at a in
        record {
          path = subst IsPath (sym steps) h.path;
          has_result =
              subst₂ (λ steps results. HasResult (last steps) results) (sym steps) (sym results)
                h.has_result;
          active = subst₂ Active (sym node) (sym steps) (
              lift_route-ok (route_of (last s.steps)) (some (target started_node))
                (sym (next_node_lem s h) ∙ next));
        }

    -- An accepted result is that of the active attempt.
    pub finished_lem :
        (step : Step)
        → apply_finish_attempt number_text is_date milliseconds def s e step ≡ ok s'
        → (s' ≡ commit_step number_text is_date milliseconds def s step)
          × (s.current_node ≡ some step.node_id)
    unfolding apply_finish_attempt step_matches
    finished_lem step a =
        ground (arith, opt_eq-eq s.current_node e.node_id, opt_eq-eq e.node_id (some step.node_id))

    committed :
        (step : Step)
        → IsRouted s
        → s.current_node ≡ some step.node_id
        → IsRouted (commit_step number_text is_date milliseconds def s step)
    unfolding commit_step
    committed step h node = record {
      path = extend step h.path (rw node at h.active) refl;
      has_result =
          rw (last-append s.steps step)
            (rw lookup-insert (rw ((eq_iff step.node_id step.node_id).1 refl)));
      active = tt;
    }

    pub apply_finish_attempt-IsRouted :
        (step : Step)
        → IsRouted s
        → apply_finish_attempt number_text is_date milliseconds def s e step ≡ ok s'
        → IsRouted s'
    apply_finish_attempt-IsRouted step h a =
        let (same, node) = finished_lem step a in subst IsRouted (sym same) (committed step h node)

    pub apply_set_timeout-Leaves :
        (ms : Option ℕ)
        → apply_set_timeout number_text is_date milliseconds def s e ms ≡ ok s'
        → Leaves s s'
    unfolding apply_set_timeout
    apply_set_timeout-Leaves ms a = ground arith

    pub apply_resume-Leaves :
        (id : Option String)
        → apply_resume number_text is_date milliseconds def s e id ≡ ok s'
        → Leaves s s'
    unfolding apply_resume
    apply_resume-Leaves none a = ground arith
    apply_resume-Leaves (some id) a = ground arith

    pub apply_wait-Leaves :
        (kind : RequestKind)
        → apply_wait number_text is_date milliseconds def s e kind ≡ ok s'
        → Leaves s s'
    unfolding apply_wait
    apply_wait-Leaves kind a = ground arith

    pub apply_resume_interaction-Leaves :
        IsShaped s
        → (s.status ≡ running) ⊎ (s.status ≡ waiting)
        → apply_resume_interaction number_text is_date milliseconds def s e ≡ ok s'
        → Leaves s s'
    unfolding apply_resume_interaction
    apply_resume_interaction-Leaves h r a = ground (arith, opt_eq-eq s.waiting_on e.node_id)

    pub apply_pause-Leaves :
        apply_pause number_text is_date milliseconds def s e ≡ ok s' → Leaves s s'
    unfolding apply_pause
    apply_pause-Leaves a = ground arith

    pub apply_finish-Leaves :
        (status : EndStatus) (error : Option String) (output : Option Json) (now : String)
        → apply_finish number_text is_date milliseconds def s e status error output now ≡ ok s'
        → Leaves s s'
    unfolding apply_finish
    apply_finish-Leaves status error output now a = ground arith

    pub record_binding-Leaves : record_binding s e ≡ ok s' → Leaves s s'
    unfolding record_binding
    record_binding-Leaves a = ground arith
