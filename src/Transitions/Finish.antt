-- ===== src/Transitions/Finish.antt =====
-- How a run ends, and what its history keeps: src/workflows/transitions.ts.
use pi_workflows.Prelude.{
  inr, sym, inl, ◌⊎◌, ◌∙◌, is_some, ap, throw, refl, Outcome, Option, false, true, ◌==◌, not, last,
  ℕ, throw_if, String, Bool, >>-eq-ok, ◌≡◌, arith, ok, some, none,
}
use pi_workflows.Transitions.{
  unfinished_attempt, is_succeeded, TransitionError, NodeOutcome, waiting, succeeded, running,
  pause, resume, finish, ended, wait_for_input, unknown_event, start_attempt, set_timeout,
  resume_interaction, record_event, finish_attempt, TraceEvent, Step, RunStatus, EndStatus, Change,
  RunState,
}
use pi_workflows.Graph.{CaseTarget, WorkflowDefinition}
use pi_workflows.Json.Equality.{deep_equal?}
use pi_workflows.Transitions.Apply.{
  check_completed, check_completion, apply_finish, record_binding, note_session, is_recorded,
  commit_step, apply_wait, apply_start, apply_set_timeout, apply_resume_interaction, apply_resume,
  apply_record, apply_pause, apply_finish_attempt, apply_change,
}
use pi_workflows.Transitions.Guards.{lift_route, next_node, is_end, set_settings}
use pi_workflows.Transitions.Path.{lift_route-ok, next_node_lem, IsRouted, route_of}
use pi_workflows.Json.{Json}
use mathlib.Core.Path.{subst}
use pi_workflows.Transitions.History.{
  here, next, Reaches-IsShaped, Reaches-IsRouted, Reaches, IsInitial,
}
use pi_workflows.Transitions.Shape.{applied}

module _ (number_text : ℕ → String) (is_date : String → Bool) (milliseconds : String → String → ℕ)
    (def : WorkflowDefinition) where
  -- What a completed run has: a last step that succeeded, at which the graph ends, and its output.
  pub record IsComplete (s : RunState) : Type 0 where
    pub step : Step
    pub is_last : last s.steps ≡ some step
    pub is_ok : step.outcome ≡ succeeded
    pub ends : route_of number_text milliseconds def (some step) ≡ ok none
    pub same_output : deep_equal? s.final_output step.output ≡ true

  abbrev pub IsOpen : RunStatus → Type 0
  IsOpen (ended status) = ⊥
  IsOpen _ = Unit

  pub record IsSettled (s : RunState) : Type 0 where
    pub open_output : IsOpen s.status → s.final_output ≡ none
    pub complete : s.status ≡ ended EndStatus.completed → IsComplete s

  record Opens (s s' : RunState) : Type 0 where
    output : s'.final_output ≡ s.final_output
    still_open : IsOpen s'.status

  apply_start-Opens :
      (s s' : RunState) (e : TraceEvent) (at : String)
      → IsOpen s.status
      → apply_start number_text is_date milliseconds def s e at ≡ ok s'
      → Opens s s'
  unfolding apply_start set_settings
  apply_start-Opens s s' e at o a = ground arith

  record_binding-Opens :
      (s s' : RunState) (e : TraceEvent) → IsOpen s.status → record_binding s e ≡ ok s' → Opens s s'
  unfolding record_binding
  record_binding-Opens s s' e o a = ground arith

  apply_record-Opens :
      (s s' : RunState) (e : TraceEvent)
      → IsOpen s.status
      → apply_record number_text is_date milliseconds def s e ≡ ok s'
      → Opens s s'
  unfolding apply_record
  apply_record-Opens s s' e o a =
      let (_, checked) = >>-eq-ok (throw_if (not (is_recorded e.event_type)) unknown_event) _ a in
      noted (e.event_type == "agent_session_required") (>>-eq-ok _ _ checked).1
    where
      noted : (b : Bool) → record_binding (note_session s b) e ≡ ok s' → Opens s s'
      noted true h = ground (arith, record_binding-Opens (note_session s true) s' e)
      noted false h = record_binding-Opens s s' e o h

  abbrev IsFinish : Change → Type 0
  IsFinish (finish status error output) = Unit
  IsFinish _ = ⊥

  apply_change-Opens :
      (c : Change) (s s' : RunState) (e : TraceEvent) (now : String)
      → IsOpen s.status
      → ¬ IsFinish c
      → apply_change number_text is_date milliseconds def c e s now ≡ ok s'
      → Opens s s'
  unfolding apply_change apply_finish_attempt commit_step apply_set_timeout apply_resume apply_wait
      apply_resume_interaction apply_pause
  apply_change-Opens (start_attempt at) s s' e now o n a = apply_start-Opens s s' e at o a
  apply_change-Opens (finish_attempt step) s s' e now o n a = ground arith
  apply_change-Opens (set_timeout ms) s s' e now o n a = ground arith
  apply_change-Opens (resume none) s s' e now o n a = ground arith
  apply_change-Opens (resume (some id)) s s' e now o n a = ground arith
  apply_change-Opens (wait_for_input kind) s s' e now o n a = ground arith
  apply_change-Opens pause s s' e now o n a = ground arith
  apply_change-Opens (finish status error output) s s' e now o n a = absurd (n tt)
  apply_change-Opens resume_interaction s s' e now o n a = ground arith
  apply_change-Opens record_event s s' e now o n a = apply_record-Opens s s' e o a

  is_end-none : (o : Option CaseTarget) → is_end o ≡ true → o ≡ none
  is_end-none none h = refl
  is_end-none (some t) h = absurd (ground arith)

  abbrev value_of : Outcome TransitionError (Option CaseTarget) → Option CaseTarget
  value_of (ok t) = t
  value_of (throw e) = none

  -- What the guard of a completion establishes.
  record IsChecked (s : RunState) (output : Option Json) : Type 0 where
    step : Step
    is_last : last s.steps ≡ some step
    is_ok : step.outcome ≡ succeeded
    ends : next_node number_text def s ≡ ok none
    same_output : deep_equal? output step.output ≡ true

  succeeded_lem : (o : NodeOutcome) → is_succeeded o ≡ true → o ≡ succeeded
  succeeded_lem succeeded h = refl
  succeeded_lem _ h = absurd (ground arith)

  check_completion-IsChecked :
      (s : RunState) (output : Option Json) (o : Option Step)
      → last s.steps ≡ o
      → check_completion number_text is_date milliseconds def s output o ≡ ok tt
      → IsChecked s output
  unfolding check_completion
  check_completion-IsChecked s output none l h = absurd (ground arith)
  check_completion-IsChecked s output (some step) l h = record {
    step = step;
    is_last = l;
    is_ok = succeeded_lem step.outcome (ground arith);
    ends = ground (arith, is_end-none (value_of (next_node number_text def s)));
    same_output = ground arith;
  }

  final_output_of :
      (output old : Option Json)
      → old ≡ none
      → (elim output [ none ↦ old | some v ↦ some v ]) ≡ output
  final_output_of none old h = h
  final_output_of (some v) old h = refl

  apply_finish_lem :
      (s s' : RunState) (e : TraceEvent) (status : EndStatus) (error : Option String)
      (output : Option Json) (now : String)
      → s.final_output ≡ none
      → apply_finish number_text is_date milliseconds def s e status error output now ≡ ok s'
      → (s'.status ≡ ended status)
        × (s'.steps ≡ s.steps)
        × (s'.final_output ≡ output)
        × (check_completed number_text is_date milliseconds def status s output ≡ ok tt)
  unfolding apply_finish
  apply_finish_lem s s' e status error output now f a =
      ground (arith, final_output_of output s.final_output f)

  check_completed-IsChecked :
      (s : RunState) (output : Option Json)
      → check_completed number_text is_date milliseconds def EndStatus.completed s output ≡ ok tt
      → IsChecked s output
  unfolding check_completed
  check_completed-IsChecked s output c =
      let (_, checked) =
        >>-eq-ok (throw_if (is_some s.current_attempt_id) unfinished_attempt) _ c in
      check_completion-IsChecked s output (last s.steps) refl checked

  IsChecked-IsComplete :
      (s s' : RunState) (output : Option Json)
      → IsRouted number_text milliseconds def s
      → s'.steps ≡ s.steps
      → s'.final_output ≡ output
      → IsChecked s output
      → IsComplete s'
  IsChecked-IsComplete s s' output h steps same c = record {
    step = c.step;
    is_last = ap last steps ∙ c.is_last;
    is_ok = c.is_ok;
    ends =
        lift_route-ok number_text milliseconds def
          (route_of number_text milliseconds def (some c.step)) none
          (ap (λ o. lift_route (route_of number_text milliseconds def o)) (sym c.is_last)
            ∙ sym (next_node_lem number_text milliseconds def s h)
            ∙ c.ends);
    same_output = subst (λ o. deep_equal? o c.step.output ≡ true) (sym same) c.same_output;
  }

  apply_finish-IsSettled :
      (s s' : RunState) (e : TraceEvent) (status : EndStatus) (error : Option String)
      (output : Option Json) (now : String)
      → IsRouted number_text milliseconds def s
      → s.final_output ≡ none
      → apply_finish number_text is_date milliseconds def s e status error output now ≡ ok s'
      → IsSettled s'
  apply_finish-IsSettled s s' e status error output now h f a =
      let (ends, steps, same, checked) = apply_finish_lem s s' e status error output now f a in
      record {
        open_output = λ o. absurd (subst IsOpen ends o);
        complete = λ c.
            let at : status ≡ EndStatus.completed = cc (ends, c) in
            IsChecked-IsComplete s s' output h steps same (
              check_completed-IsChecked s output (
                subst
                  (λ st. check_completed number_text is_date milliseconds def st s output ≡ ok tt)
                  at checked));
      }

  Opens-IsSettled : (s s' : RunState) → Opens s s' → s.final_output ≡ none → IsSettled s'
  Opens-IsSettled s s' o f = record {
    open_output = λ _. o.output ∙ f;
    complete = λ c. absurd (subst IsOpen c o.still_open);
  }

  apply_change-IsSettled :
      (c : Change) (s s' : RunState) (e : TraceEvent) (now : String)
      → IsRouted number_text milliseconds def s
      → IsOpen s.status
      → s.final_output ≡ none
      → apply_change number_text is_date milliseconds def c e s now ≡ ok s'
      → IsSettled s'
  unfolding apply_change
  apply_change-IsSettled (finish status error output) s s' e now h o f a =
      apply_finish-IsSettled s s' e status error output now h f a
  apply_change-IsSettled c s s' e now h o f a =
      Opens-IsSettled s s' (apply_change-Opens c s s' e now o (λ x. x) a) f

  IsOpen-of :
      (s : RunState) (c : Change)
      → (s.status ≡ running) ⊎ ((s.status ≡ waiting) × (c ≡ resume_interaction))
      → IsOpen s.status
  IsOpen-of s c (inl r) = subst IsOpen (sym r) tt
  IsOpen-of s c (inr (w, _)) = subst IsOpen (sym w) tt

  Reaches-IsSettled :
      (s s' : RunState)
      → IsInitial s
      → Reaches number_text is_date milliseconds def s s'
      → IsSettled s'
  Reaches-IsSettled s s' i here = record {
    open_output = λ _. i.output;
    complete = λ c. absurd (subst IsOpen (sym i.status ∙ c) tt);
  }
  Reaches-IsSettled s s' i (next {u = u} t now r a) =
      let (allowed, change) = applied number_text is_date milliseconds def u s' t now a in
      let o = IsOpen-of u t.change allowed in
      apply_change-IsSettled t.change u s' t.event now
        (Reaches-IsRouted number_text is_date milliseconds def s u i r) o
        ((Reaches-IsSettled s u i r).open_output o) change

  -- A run that reached completion from an initial state has a last step that succeeded, the graph
  -- has no next node after that step's result, the run's final output is deeply equal to the step's
  -- output, and no node and no attempt is active.
  pub completed_run :
      (s s' : RunState)
      → IsInitial s
      → Reaches number_text is_date milliseconds def s s'
      → s'.status ≡ ended EndStatus.completed
      → IsComplete s' × (s'.current_node ≡ none) × (s'.current_attempt_id ≡ none)
  completed_run s s' i r c =
      let shape = Reaches-IsShaped number_text is_date milliseconds def s s' i r in
      ((Reaches-IsSettled s s' i r).complete c, ground (arith, shape), ground (arith, shape))
