-- ===== src/Transitions/History.antt =====
-- Whole runs: sequences of accepted transitions of src/workflows/transitions.ts.
use pi_workflows.Prelude.{
  sym, false, true, ◌==◌, not, throw_if, >>-eq-ok, ◌⊎◌, Bool, [], String, ℕ, ◌≡◌, arith, ok, none,
}
use pi_workflows.Transitions.{
  pause, finish, wait_for_input, resume, record_event, set_timeout, unknown_event, finish_attempt,
  start_attempt, resume_interaction, waiting, TraceEvent, Change, Transition, running, RunState,
}
use pi_workflows.Transitions.Path.{
  empty, apply_wait-Leaves, apply_resume_interaction-Leaves, apply_resume-Leaves,
  apply_pause-Leaves, apply_finish-Leaves, apply_set_timeout-Leaves, record_binding-Leaves,
  Leaves-IsRouted, apply_finish_attempt-IsRouted, apply_start-IsRouted, Leaves, Active, IsRouted,
  IsPath,
}
use pi_workflows.Graph.{WorkflowDefinition}
use pi_workflows.Transitions.Apply.{
  is_recorded, note_session, apply_execution_transition, apply_record, apply_change,
}
use pi_workflows.Transitions.Shape.{
  apply_execution_transition-IsShaped, applied, IsShaped, AreDistinct,
}
use mathlib.Core.Path.{subst}

-- A run before its first transition, as the store creates it.
pub record IsInitial (s : RunState) : Type 0 where
  pub status : s.status ≡ running
  pub steps : s.steps ≡ []
  pub node : s.current_node ≡ none
  pub attempt : s.current_attempt_id ≡ none
  pub started : s.current_node_started_at ≡ none
  pub waits : s.waiting_on ≡ none
  pub output : s.final_output ≡ none

module _ (number_text : ℕ → String) (is_date : String → Bool) (milliseconds : String → String → ℕ)
    (def : WorkflowDefinition) where
  -- The states that accepted transitions lead to, each at a time of its own.
  pub data Reaches (s : RunState) : RunState → Type 0 where
    here : Reaches s s
    next :
        {u v : RunState} (t : Transition) (now : String)
        → Reaches s u
        → apply_execution_transition number_text is_date milliseconds def u t now ≡ ok v
        → Reaches s v

  apply_record-Leaves :
      (s s' : RunState) (e : TraceEvent)
      → apply_record number_text is_date milliseconds def s e ≡ ok s'
      → Leaves number_text milliseconds def s s'
  unfolding apply_record
  apply_record-Leaves s s' e a =
      let (_, checked) = >>-eq-ok (throw_if (not (is_recorded e.event_type)) unknown_event) _ a in
      noted (e.event_type == "agent_session_required")
        (record_binding-Leaves number_text milliseconds def is_date _ s' e (>>-eq-ok _ _ checked).1)
    where
      noted :
          (b : Bool)
          → Leaves number_text milliseconds def (note_session s b) s'
          → Leaves number_text milliseconds def s s'
      noted true h = ground arith
      noted false h = h

  apply_change-IsRouted :
      (c : Change) (s s' : RunState) (e : TraceEvent) (now : String)
      → IsShaped s
      → IsRouted number_text milliseconds def s
      → (s.status ≡ running) ⊎ ((s.status ≡ waiting) × (c ≡ resume_interaction))
      → apply_change number_text is_date milliseconds def c e s now ≡ ok s'
      → IsRouted number_text milliseconds def s'
  unfolding apply_change
  apply_change-IsRouted (start_attempt at) s s' e now shape h r a =
      apply_start-IsRouted number_text milliseconds def is_date s s' e at h a
  apply_change-IsRouted (finish_attempt step) s s' e now shape h r a =
      apply_finish_attempt-IsRouted number_text milliseconds def is_date s s' e step h a
  apply_change-IsRouted (set_timeout ms) s s' e now shape h r a =
      Leaves-IsRouted number_text milliseconds def s s'
        (apply_set_timeout-Leaves number_text milliseconds def is_date s s' e ms a) h
  apply_change-IsRouted (resume id) s s' e now shape h r a =
      Leaves-IsRouted number_text milliseconds def s s'
        (apply_resume-Leaves number_text milliseconds def is_date s s' e id a) h
  apply_change-IsRouted (wait_for_input kind) s s' e now shape h r a =
      Leaves-IsRouted number_text milliseconds def s s'
        (apply_wait-Leaves number_text milliseconds def is_date s s' e kind a) h
  apply_change-IsRouted pause s s' e now shape h r a =
      Leaves-IsRouted number_text milliseconds def s s'
        (apply_pause-Leaves number_text milliseconds def is_date s s' e a) h
  apply_change-IsRouted (finish status error output) s s' e now shape h r a =
      Leaves-IsRouted number_text milliseconds def s s'
        (apply_finish-Leaves number_text milliseconds def is_date s s' e status error output now a)
        h
  apply_change-IsRouted resume_interaction s s' e now shape h r a =
      Leaves-IsRouted number_text milliseconds def s s'
        (apply_resume_interaction-Leaves number_text milliseconds def is_date s s' e shape
          (ground arith) a)
        h
  apply_change-IsRouted record_event s s' e now shape h r a =
      Leaves-IsRouted number_text milliseconds def s s' (apply_record-Leaves s s' e a) h

  pub IsShaped-initial : (s : RunState) → IsInitial s → IsShaped s
  IsShaped-initial s i = ground arith

  IsRouted-initial : (s : RunState) → IsInitial s → IsRouted number_text milliseconds def s
  IsRouted-initial s i = record {
    path = subst (IsPath number_text milliseconds def) (sym i.steps) empty;
    has_result = ground arith;
    active = ground arith;
  }

  pub Reaches-IsShaped : (s s' : RunState) → IsInitial s → Reaches s s' → IsShaped s'
  Reaches-IsShaped s s' i here = IsShaped-initial s i
  Reaches-IsShaped s s' i (next {u = u} t now r a) =
      apply_execution_transition-IsShaped number_text is_date milliseconds def u s' t now
        (Reaches-IsShaped s u i r) a

  pub Reaches-IsRouted :
      (s s' : RunState) → IsInitial s → Reaches s s' → IsRouted number_text milliseconds def s'
  Reaches-IsRouted s s' i here = IsRouted-initial s i
  Reaches-IsRouted s s' i (next {u = u} t now r a) =
      let (allowed, change) = applied number_text is_date milliseconds def u s' t now a in
      apply_change-IsRouted t.change u s' t.event now (Reaches-IsShaped s u i r)
        (Reaches-IsRouted s u i r) allowed change

  -- In any run from an initial state, whatever transitions are proposed, the accepted steps form a
  -- path of the graph: the first is at the start node, and each later one is at the node to which
  -- the result before it routes. No attempt has two steps, and the node of the active attempt is
  -- the next one on the path.
  pub run_follows_graph :
      (s s' : RunState)
      → IsInitial s
      → Reaches s s'
      → IsPath number_text milliseconds def s'.steps
        × AreDistinct s'.steps
        × Active number_text milliseconds def s'.current_node s'.steps
  run_follows_graph s s' i r =
      let h = Reaches-IsRouted s s' i r in (h.path, (Reaches-IsShaped s s' i r).distinct, h.active)
