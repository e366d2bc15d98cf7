-- ===== src/Session/Order.antt =====
-- The order of the messages and of their blocks in the result of src/workflows/session-reducer.ts.
use mathlib.Core.Path.{subst}
use mathlib.Core.List.{append-nil, append_assoc}
use pi_workflows.Session.Runs.{
  run_seen, run_past, run_due, run_events-Formed, Formed, formed, empty_fold-Formed,
}
use pi_workflows.Session.Projected.{SortedBlocks, Keyed-sorted, finish_fold-written}
use pi_workflows.Session.Sorted.{sorted_fold}
use pi_workflows.Session.Keep.{DistinctBlocks, step_event-IsWellFormed, message_key}
use pi_workflows.Session.Step.{
  done, failed, nothing, tool_started_at, start_block, settle_message, on_message,
  message_finished_at, finish_tool, end_tool_call, end_text_block, end_text, diagnose_if,
  assistant_event_at, apply_assistant_step, AssistantStep, apply_event, message_started_at,
  non_empty, Fold,
}
use pi_workflows.Prelude.{
  map, eqb, ap, All, ltb, arith, ◌∙◌, sym, refl, leb, inr, false, ◌++◌, true, none, inl,
  if◌then◌else◌, elem, [], ◌≡◌, ◌∷◌, some, ℕ, String, Option-cases, Option, List, Bool-cases, Bool,
}
use pi_workflows.Session.{
  SessionState, tool_execution_started, tool_execution_finished, message_started, message_finished,
  assistant_event, Tool, SessionEvent, Message, EventType, Diagnostic,
}
use pi_workflows.CommandBatch.Run.{failed}
use pi_workflows.Json.{Fields}
use pi_workflows.Session.Fold.{
  step_event, run_events, resume_fold, reduce_session_events, entry_ids, enter_event, empty_fold,
}
use pi_workflows.Session.Keyed.{get_all_lem, Keyed}

-- The message that an event starts.
abbrev started_by : EventType → Option String → List String
started_by message_started (some id) = id ∷ []
started_by _ _ = []

-- The messages that the events start, one after another: an event whose number is not above those
-- before it is left out, and the first one past `through` ends the list.
abbrev pub started_ids : ℕ → List SessionEvent → ℕ → List String
started_ids last [] through = []
started_ids last (e ∷ es) through =
    if leb e.seq last
    then started_ids last es through
    else if ltb through e.seq
    then []
    else started_by e.event_type (non_empty e.message_id) ++ started_ids e.seq es through

-- Each id once, where it first stands, less those of `seen`.
abbrev pub first_ids : List String → List String → List String
first_ids seen [] = []
first_ids seen (id ∷ ids) =
    if elem id seen then first_ids seen ids else id ∷ first_ids (seen ++ id ∷ []) ids

module _ (known : List String) (e : SessionEvent) (s : Fold) where
  diagnose_if-order :
      (b : Bool) (d : Diagnostic) → (diagnose_if b s d).message_order ≡ s.message_order
  diagnose_if-order true d = refl
  diagnose_if-order false d = refl

  apply_assistant_step-order :
      (m : Message) (a : AssistantStep)
      → (apply_assistant_step s m e a).message_order ≡ s.message_order
  unfolding apply_assistant_step end_text_block
  apply_assistant_step-order m (start_block i kind) = refl
  apply_assistant_step-order m (end_text i kind type) = diagnose_if-order _ _
  apply_assistant_step-order m (end_tool_call i) = refl
  apply_assistant_step-order m done = refl
  apply_assistant_step-order m failed = refl
  apply_assistant_step-order m nothing = refl

  settle_message-order :
      (m : Message) (id : Option String)
      → (settle_message known s m id).message_order ≡ s.message_order
  unfolding settle_message
  settle_message-order m none = refl
  settle_message-order m (some id) = elim (Bool-cases (elem id known)) [
    | inl there ↦ rw there refl
    | inr missing ↦ rw missing refl
  ]

  on_message-order :
      (type : EventType) (act : Message → Fold) (id : Option String)
      → ((m : Message) → (act m).message_order ≡ s.message_order)
      → (on_message type s e act id).message_order ≡ s.message_order
  on_message-order type act none h = refl
  on_message-order type act (some id) h = elim (Option-cases (s.messages id)) [
    | inl absent ↦ rw (absent, on_message) refl
    | inr (m, found) ↦ rw (found, on_message) (h m)
  ]

  tool_started_at-order :
      (tool_id id : Option String)
      → (tool_started_at s e tool_id id).message_order ≡ s.message_order
  unfolding tool_started_at
  tool_started_at-order (some tool_id) (some id) = refl
  tool_started_at-order none id = refl
  tool_started_at-order (some tool_id) none = refl

  finish_tool-order : (tool : Option Tool) → (finish_tool s e tool).message_order ≡ s.message_order
  unfolding finish_tool
  finish_tool-order none = refl
  finish_tool-order (some tool) = refl

  message_started_at-order :
      (id : Option String)
      → Keyed message_key DistinctBlocks s.message_order s.messages
      → (message_started_at s e id).message_order
        ≡ s.message_order ++ first_ids s.message_order (started_by message_started id)
  unfolding message_started_at
  message_started_at-order none h = sym (append-nil s.message_order)
  message_started_at-order (some id) h = elim (Option-cases (s.messages id)) [
    | inl absent ↦ elim (Bool-cases (elem id s.message_order)) [
      | inl listed ↦ absurd (ground (arith, h.present id listed))
      | inr new ↦ rw (absent, new) refl
    ]
    | inr (m, found) ↦ rw (found, h.listed id m found) (sym (append-nil s.message_order))
  ]

  apply_event-order :
      (k : EventType)
      → Keyed message_key DistinctBlocks s.message_order s.messages
      → (apply_event known k e s).message_order
        ≡ s.message_order ++ first_ids s.message_order (started_by k (non_empty e.message_id))
  unfolding apply_event assistant_event_at message_finished_at
  apply_event-order message_started h = message_started_at-order _ h
  apply_event-order assistant_event h =
      on_message-order _ _ _ (λ m. apply_assistant_step-order m _)
      ∙ sym (append-nil s.message_order)
  apply_event-order message_finished h =
      on_message-order _ _ _ (λ m. settle_message-order m _) ∙ sym (append-nil s.message_order)
  apply_event-order tool_execution_started h =
      tool_started_at-order _ _ ∙ sym (append-nil s.message_order)
  apply_event-order tool_execution_finished h =
      finish_tool-order _ ∙ sym (append-nil s.message_order)
  apply_event-order _ h = sym (append-nil s.message_order)

first_ids-append :
    (seen xs ys : List String)
    → first_ids seen (xs ++ ys) ≡ first_ids seen xs ++ first_ids (seen ++ first_ids seen xs) ys
first_ids-append seen [] ys = ap (λ l. first_ids l ys) (sym (append-nil seen))
first_ids-append seen (x ∷ xs) ys = elim (Bool-cases (elem x seen)) [
  | inl old ↦ rw old (first_ids-append seen xs ys)
  | inr new ↦ rw new (
      ap (λ l. x ∷ l)
        (first_ids-append (seen ++ x ∷ []) xs ys
          ∙ ap (λ l. first_ids (seen ++ x ∷ []) xs ++ first_ids l ys)
              (append_assoc seen (x ∷ []) (first_ids (seen ++ x ∷ []) xs))))
]

step_event-order :
    (known : List String) (e : SessionEvent) (s : Fold)
    → Keyed message_key DistinctBlocks s.message_order s.messages
    → (step_event known e s).message_order
      ≡ s.message_order
        ++ first_ids s.message_order (started_by e.event_type (non_empty e.message_id))
unfolding step_event enter_event
step_event-order known e s h = elim (Bool-cases (eqb e.seq s.expected_seq)) [
  | inl expected ↦ rw expected (apply_event-order known e _ e.event_type h)
  | inr other ↦ rw other (apply_event-order known e _ e.event_type h)
]

run_events-order :
    (known : List String) (es : List SessionEvent) (through : ℕ) (s : Fold)
    → Formed s
    → (run_events known es through s).message_order
      ≡ s.message_order ++ first_ids s.message_order (started_ids s.last_seq es through)
run_events-order known [] through s h = unfold run_events in sym (append-nil s.message_order)
run_events-order known (e ∷ es) through s h = elim (Bool-cases (leb e.seq s.last_seq)) [
  | inl seen ↦
      ap (λ t. t.message_order) (run_seen known e es through s seen)
      ∙ rw seen (run_events-order known es through s h)
  | inr unseen ↦ elim (Bool-cases (ltb through e.seq)) [
    | inl past ↦
        ap (λ t. t.message_order) (run_past known e es through s unseen past)
        ∙ rw (unseen, past) (sym (append-nil s.message_order))
    | inr due ↦
        let step = step_event-IsWellFormed known e s.last_seq s h in
        let here = started_by e.event_type (non_empty e.message_id) in
        let order = s.message_order ++ first_ids s.message_order here in
        ap (λ t. t.message_order) (run_due known e es through s unseen due)
        ∙ run_events-order known es through (step_event known e s) (formed e.seq _ step)
        ∙ ap
            (λ n.
              (step_event known e s).message_order
              ++ first_ids (step_event known e s).message_order (started_ids n es through))
            step.last
        ∙ ap (λ l. l ++ first_ids l (started_ids e.seq es through))
            (step_event-order known e s h.messages)
        ∙ append_assoc s.message_order (first_ids s.message_order here)
            (first_ids order (started_ids e.seq es through))
        ∙ rw (unseen, due)
            (ap (λ l. s.message_order ++ l)
              (sym (first_ids-append s.message_order here (started_ids e.seq es through))))
  ]
]

-- The messages of a reduced session are those that its events start, each where it is first
-- started, and the blocks of each are in strictly ascending order of their content index, whatever
-- the events are.
pub reduce_session_events-order :
    (entries : List Fields) (events : List SessionEvent) (through : ℕ)
    → (map message_key (reduce_session_events entries events through).messages
        ≡ first_ids [] (started_ids 0 events through))
      × All SortedBlocks (reduce_session_events entries events through).messages
unfolding reduce_session_events resume_fold
reduce_session_events-order entries events through =
    let known = entry_ids entries in
    let s = run_events known events through empty_fold in
    let h = run_events-Formed known events through empty_fold empty_fold-Formed in
    let sorted = Keyed-sorted s h.messages in
    let (ids, _, all_sorted) =
      get_all_lem message_key SortedBlocks (sorted_fold s).messages s.message_order sorted.at_key
        sorted.good sorted.present in
    subst
      (λ (c : SessionState).
        (map message_key c.messages ≡ first_ids [] (started_ids 0 events through))
        × All SortedBlocks c.messages)
      (sym (finish_fold-written s))
      (ids ∙ run_events-order known events through empty_fold empty_fold-Formed, all_sorted)
