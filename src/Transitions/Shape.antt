-- ===== src/Transitions/Shape.antt =====
-- What every transition of src/workflows/transitions.ts keeps of the shape of a run's state.
use pi_workflows.Transitions.{
  record_event, not_executing, pause, finish, wait_for_input, unknown_event, resume, set_timeout,
  finish_attempt, start_attempt, resume_interaction, Change, Transition, RequestKind, EndStatus,
  waiting, running, ended, TraceEvent, Step, Bool, ℕ, some, String, RunStatus, Option, List,
  RunState,
}
use pi_workflows.Graph.{WorkflowDefinition}
use pi_workflows.Prelude.{
  inr, inl, >>-eq-ok, true, not, throw_if, opt_eq-eq, refl, ◌⊎◌, eq_iff, ◌++◌, [], ◌∷◌, arith, ok,
  false, ◌==◌, ◌≡◌, none, is_some, any,
}
use pi_workflows.Transitions.Apply.{
  is_recorded, note_session, can_execute, apply_change, apply_execution_transition, record_binding,
  commit_step, apply_wait, apply_resume_interaction, apply_resume, apply_record, apply_pause,
  apply_finish_attempt, apply_finish, apply_start, apply_set_timeout,
}
use pi_workflows.Transitions.Guards.{set_settings}
use pi_workflows.Json.{Json}

-- No step names the attempt.
abbrev pub IsNew : String → List Step → Type 0
IsNew id steps = any (λ step. step.attempt_id == id) steps ≡ false

-- The attempts of the steps are pairwise different.
abbrev pub AreDistinct : List Step → Type 0
AreDistinct [] = Unit
AreDistinct (step ∷ steps) = IsNew step.attempt_id steps × AreDistinct steps

abbrev NewAttempt : Option String → List Step → Type 0
NewAttempt none steps = Unit
NewAttempt (some id) steps = IsNew id steps

abbrev IsPresent {ℓ} : {A : Type ℓ} → Option A → Type 0
IsPresent none = ⊥
IsPresent (some a) = Unit

abbrev IsAbsent {ℓ} : {A : Type ℓ} → Option A → Type 0
IsAbsent none = Unit
IsAbsent (some a) = ⊥

-- What the status says of the attempt.
abbrev StatusShape : RunStatus → Option String → Option String → Type 0
StatusShape running id waiting_on = IsAbsent waiting_on
StatusShape waiting id waiting_on = (waiting_on ≡ id) × IsPresent id
StatusShape (ended status) id waiting_on = IsAbsent id

pub record IsShaped (s : RunState) : Type 0 where
  pub distinct : AreDistinct s.steps
  pub current_new : NewAttempt s.current_attempt_id s.steps
  pub together : is_some s.current_node ≡ is_some s.current_attempt_id
  pub started : is_some s.current_node_started_at ≡ is_some s.current_attempt_id
  pub status_shape : StatusShape s.status s.current_node s.waiting_on

IsNew-append :
    (id : String) (steps : List Step) (step : Step)
    → IsNew id steps
    → (step.attempt_id == id) ≡ false
    → IsNew id (steps ++ step ∷ [])
IsNew-append id [] step new other = ground arith
IsNew-append id (x ∷ steps) step new other =
    ground (arith, IsNew-append id steps step (ground arith) other)

IsNew-other :
    (id : String) (steps : List Step) (x : Step)
    → IsNew id (x ∷ steps)
    → ((x.attempt_id == id) ≡ false) × IsNew id steps
IsNew-other id steps x new = (ground arith, ground arith)

AreDistinct-append :
    (steps : List Step) (step : Step)
    → AreDistinct steps
    → IsNew step.attempt_id steps
    → AreDistinct (steps ++ step ∷ [])
AreDistinct-append [] step d new = (refl, tt)
AreDistinct-append (x ∷ steps) step (n, d) new =
    let (other, rest) = IsNew-other step.attempt_id steps x new in
    (
      IsNew-append x.attempt_id steps step n (
          ground (arith, eq_iff x.attempt_id step.attempt_id, eq_iff step.attempt_id x.attempt_id)),
      AreDistinct-append steps step d rest,
    )

module _ (number_text : ℕ → String) (is_date : String → Bool) (milliseconds : String → String → ℕ)
    (def : WorkflowDefinition) (s s' : RunState) (e : TraceEvent) (h : IsShaped s) where
  apply_start-IsShaped :
      (at : String)
      → s.status ≡ running
      → apply_start number_text is_date milliseconds def s e at ≡ ok s'
      → IsShaped s'
  unfolding apply_start set_settings
  apply_start-IsShaped at r a = ground arith

  apply_set_timeout-IsShaped :
      (ms : Option ℕ)
      → s.status ≡ running
      → apply_set_timeout number_text is_date milliseconds def s e ms ≡ ok s'
      → IsShaped s'
  unfolding apply_set_timeout
  apply_set_timeout-IsShaped ms r a = ground arith

  apply_finish_attempt-IsShaped :
      (step : Step)
      → s.status ≡ running
      → apply_finish_attempt number_text is_date milliseconds def s e step ≡ ok s'
      → IsShaped s'
  unfolding apply_finish_attempt commit_step
  apply_finish_attempt-IsShaped step r a =
      ground (arith, AreDistinct-append s.steps step h.distinct)

  apply_resume-IsShaped :
      (id : Option String)
      → s.status ≡ running
      → apply_resume number_text is_date milliseconds def s e id ≡ ok s'
      → IsShaped s'
  unfolding apply_resume
  apply_resume-IsShaped none r a = ground arith
  apply_resume-IsShaped (some id) r a = ground arith

  apply_wait-IsShaped :
      (kind : RequestKind)
      → s.status ≡ running
      → apply_wait number_text is_date milliseconds def s e kind ≡ ok s'
      → IsShaped s'
  unfolding apply_wait
  apply_wait-IsShaped kind r a = ground (arith, opt_eq-eq s.current_node e.node_id)

  apply_resume_interaction-IsShaped :
      apply_resume_interaction number_text is_date milliseconds def s e ≡ ok s'
      → (s.status ≡ running) ⊎ (s.status ≡ waiting)
      → IsShaped s'
  unfolding apply_resume_interaction
  apply_resume_interaction-IsShaped a r = ground arith

  apply_pause-IsShaped :
      s.status ≡ running
      → apply_pause number_text is_date milliseconds def s e ≡ ok s'
      → IsShaped s'
  unfolding apply_pause
  apply_pause-IsShaped r a = ground arith

  apply_finish-IsShaped :
      (status : EndStatus) (error : Option String) (output : Option Json) (now : String)
      → s.status ≡ running
      → apply_finish number_text is_date milliseconds def s e status error output now ≡ ok s'
      → IsShaped s'
  unfolding apply_finish
  apply_finish-IsShaped status error output now r a = ground arith

  record_binding-IsShaped : record_binding s e ≡ ok s' → IsShaped s'
  unfolding record_binding
  record_binding-IsShaped a = ground arith

module _ (number_text : ℕ → String) (is_date : String → Bool) (milliseconds : String → String → ℕ)
    (def : WorkflowDefinition) where
  apply_record-IsShaped :
      (s s' : RunState) (e : TraceEvent)
      → IsShaped s
      → s.status ≡ running
      → apply_record number_text is_date milliseconds def s e ≡ ok s'
      → IsShaped s'
  unfolding apply_record
  apply_record-IsShaped s s' e h r a =
      let (_, checked) = >>-eq-ok (throw_if (not (is_recorded e.event_type)) unknown_event) _ a in
      record_binding-IsShaped number_text is_date milliseconds def _ s' e
        (noted (e.event_type == "agent_session_required") h) (>>-eq-ok _ _ checked).1
    where
      noted : (b : Bool) → IsShaped s → IsShaped (note_session s b)
      noted true h = ground arith
      noted false h = h

  executing :
      (status : RunStatus) (c : Change)
      → can_execute status c ≡ true
      → (status ≡ running) ⊎ ((status ≡ waiting) × (c ≡ resume_interaction))
  unfolding can_execute
  executing running c h = inl refl
  executing (ended status) c h = absurd (ground arith)
  executing waiting resume_interaction h = inr (refl, refl)
  executing waiting _ h = absurd (ground arith)

  apply_change-IsShaped :
      (c : Change) (s s' : RunState) (e : TraceEvent) (now : String)
      → IsShaped s
      → (s.status ≡ running) ⊎ ((s.status ≡ waiting) × (c ≡ resume_interaction))
      → apply_change number_text is_date milliseconds def c e s now ≡ ok s'
      → IsShaped s'
  unfolding apply_change
  apply_change-IsShaped (start_attempt at) s s' e now h r a =
      apply_start-IsShaped number_text is_date milliseconds def s s' e h at (ground arith) a
  apply_change-IsShaped (finish_attempt step) s s' e now h r a =
      apply_finish_attempt-IsShaped number_text is_date milliseconds def s s' e h step
        (ground arith) a
  apply_change-IsShaped (set_timeout ms) s s' e now h r a =
      apply_set_timeout-IsShaped number_text is_date milliseconds def s s' e h ms (ground arith) a
  apply_change-IsShaped (resume id) s s' e now h r a =
      apply_resume-IsShaped number_text is_date milliseconds def s s' e h id (ground arith) a
  apply_change-IsShaped (wait_for_input kind) s s' e now h r a =
      apply_wait-IsShaped number_text is_date milliseconds def s s' e h kind (ground arith) a
  apply_change-IsShaped pause s s' e now h r a =
      apply_pause-IsShaped number_text is_date milliseconds def s s' e h (ground arith) a
  apply_change-IsShaped (finish status error output) s s' e now h r a =
      apply_finish-IsShaped number_text is_date milliseconds def s s' e h status error output now
        (ground arith) a
  apply_change-IsShaped resume_interaction s s' e now h r a =
      apply_resume_interaction-IsShaped number_text is_date milliseconds def s s' e h a
        (ground arith)
  apply_change-IsShaped record_event s s' e now h r a =
      apply_record-IsShaped s s' e h (ground arith) a

  -- A change is applied to a running state, or it resumes an interaction of a waiting one.
  pub applied :
      (s s' : RunState) (t : Transition) (now : String)
      → apply_execution_transition number_text is_date milliseconds def s t now ≡ ok s'
      → ((s.status ≡ running) ⊎ ((s.status ≡ waiting) × (t.change ≡ resume_interaction)))
        × (apply_change number_text is_date milliseconds def t.change t.event s now ≡ ok s')
  unfolding apply_execution_transition can_execute
  applied s s' t now a =
      let (allowed, change) =
        >>-eq-ok (throw_if (not (can_execute s.status t.change)) not_executing) _ a in
      (executing s.status t.change (ground arith), change)

  -- Every transition keeps the shape of the state: the attempts of the steps are pairwise
  -- different, the active attempt has no step yet, it is active exactly when a node and a start
  -- time are set, a waiting run waits for its active node, and an ended run has no active attempt.
  pub apply_execution_transition-IsShaped :
      (s s' : RunState) (t : Transition) (now : String)
      → IsShaped s
      → apply_execution_transition number_text is_date milliseconds def s t now ≡ ok s'
      → IsShaped s'
  apply_execution_transition-IsShaped s s' t now h a =
      let (r, change) = applied s s' t now a in
      apply_change-IsShaped t.change s s' t.event now h r change
