-- ===== src/Session/Keep.antt =====
-- What the fold of src/workflows/session-reducer.ts keeps between two events.
use pi_workflows.Prelude.{
  sym, refl, eqb, not, inr, inl, false, ◌+◌, is_some, Option-cases, Bool-cases, true, elem, ℕ,
  String, Option, List, Bool, ◌≡◌, some, none,
}
use pi_workflows.Session.Step.{
  tool_at, on_message, tool_started_at, message_started_at, message_finished_at, finish_tool,
  diagnose_if, assistant_event_at, apply_event, nothing, failed, done, diagnose, start_block,
  settle_message, set_message, end_tool_call, end_text_block, end_text, apply_assistant_step,
  AssistantStep, Fold,
}
use pi_workflows.Session.{
  gap, tool_execution_started, tool_execution_finished, message_started, message_finished,
  assistant_event, EventType, Tool, SessionEvent, Message, Diagnostic, BlockKind,
}
use pi_workflows.Session.Blocks.{put_block-IsDistinct, IsDistinct}
use pi_workflows.Session.Keyed.{Keyed-append, Keyed-replace, Keyed}
use pi_workflows.Session.Fold.{step_event, enter_event}
use mathlib.Core.Path.{subst}

abbrev pub DistinctBlocks : Message → Type 0
DistinctBlocks m = IsDistinct m.blocks

abbrev pub AnyTool : Tool → Type 0
AnyTool t = Unit

abbrev pub message_key : Message → String
message_key m = m.message_id

abbrev pub tool_key : Tool → String
tool_key t = t.tool_call_id

-- The lists of keys and the maps agree, the blocks of each message have an index each, and `n` is the number
-- of the last event.
pub record IsWellFormed (n : ℕ) (s : Fold) : Type 0 where
  pub messages : Keyed message_key DistinctBlocks s.message_order s.messages
  pub tools : Keyed tool_key AnyTool s.tool_order s.tools
  pub last : s.last_seq ≡ n
  pub expected : s.expected_seq ≡ n + 1

module _ (n : ℕ) where
  diagnose-IsWellFormed :
      (s : Fold) (d : Diagnostic) → IsWellFormed n s → IsWellFormed n (diagnose s d)
  diagnose-IsWellFormed s d h = record {
    messages = h.messages;
    tools = h.tools;
    last = h.last;
    expected = h.expected;
  }

  diagnose_if-IsWellFormed :
      (b : Bool) (s : Fold) (d : Diagnostic) → IsWellFormed n s → IsWellFormed n (diagnose_if b s d)
  diagnose_if-IsWellFormed true s d h = diagnose-IsWellFormed s d h
  diagnose_if-IsWellFormed false s d h = h

  set_message-IsWellFormed :
      (s : Fold) (m : Message)
      → DistinctBlocks m
      → elem m.message_id s.message_order ≡ true
      → IsWellFormed n s
      → IsWellFormed n (set_message s m)
  set_message-IsWellFormed s m p old h = record {
    messages =
        Keyed-replace message_key DistinctBlocks s.message_order s.messages h.messages m p old;
    tools = h.tools;
    last = h.last;
    expected = h.expected;
  }

  set_told-IsWellFormed :
      (b : Bool) (s : Fold) (d : Diagnostic) (m : Message)
      → DistinctBlocks m
      → elem m.message_id s.message_order ≡ true
      → IsWellFormed n s
      → IsWellFormed n (set_message (diagnose_if b s d) m)
  set_told-IsWellFormed true s d m p old h =
      set_message-IsWellFormed (diagnose s d) m p old (diagnose-IsWellFormed s d h)
  set_told-IsWellFormed false s d m p old h = set_message-IsWellFormed s m p old h

  settled-IsWellFormed :
      (s : Fold) (ids : List String)
      → IsWellFormed n s
      → IsWellFormed n (record s { settled_entry_ids = ids })
  settled-IsWellFormed s ids h = record {
    messages = h.messages;
    tools = h.tools;
    last = h.last;
    expected = h.expected;
  }

  module _ (known : List String) (s : Fold) (e : SessionEvent) (m : Message) (h : IsWellFormed n s)
      (p : DistinctBlocks m) (old : elem m.message_id s.message_order ≡ true) where
    end_text_block-IsWellFormed :
        (i : ℕ) (kind : BlockKind) (type : String)
        → IsWellFormed n (end_text_block s m e i kind type)
    unfolding end_text_block
    end_text_block-IsWellFormed i kind type =
        set_told-IsWellFormed _ s _ _ (put_block-IsDistinct _ m.blocks p) old h

    apply_assistant_step-IsWellFormed :
        (a : AssistantStep) → IsWellFormed n (apply_assistant_step s m e a)
    unfolding apply_assistant_step
    apply_assistant_step-IsWellFormed (start_block i kind) =
        set_message-IsWellFormed s _ (put_block-IsDistinct _ m.blocks p) old h
    apply_assistant_step-IsWellFormed (end_text i kind type) =
        end_text_block-IsWellFormed i kind type
    apply_assistant_step-IsWellFormed (end_tool_call i) =
        set_message-IsWellFormed s _ (put_block-IsDistinct _ m.blocks p) old h
    apply_assistant_step-IsWellFormed done = set_message-IsWellFormed s _ p old h
    apply_assistant_step-IsWellFormed failed = set_message-IsWellFormed s _ p old h
    apply_assistant_step-IsWellFormed nothing = h

    assistant_event_at-IsWellFormed : IsWellFormed n (assistant_event_at s e m)
    unfolding assistant_event_at
    assistant_event_at-IsWellFormed = apply_assistant_step-IsWellFormed _

    settle_message-IsWellFormed :
        (id : Option String) → IsWellFormed n (settle_message known s m id)
    unfolding settle_message
    settle_message-IsWellFormed none = set_message-IsWellFormed s _ p old h
    settle_message-IsWellFormed (some id) =
        diagnose_if-IsWellFormed _ _ _
          (settled-IsWellFormed _ _ (set_message-IsWellFormed s _ p old h))

    message_finished_at-IsWellFormed : IsWellFormed n (message_finished_at known s e m)
    unfolding message_finished_at
    message_finished_at-IsWellFormed = settle_message-IsWellFormed _

  on_message-IsWellFormed :
      (type : EventType) (s : Fold) (e : SessionEvent) (act : Message → Fold) (id : Option String)
      → IsWellFormed n s
      → ((m : Message)
          → DistinctBlocks m
          → elem m.message_id s.message_order ≡ true
          → IsWellFormed n (act m))
      → IsWellFormed n (on_message type s e act id)
  on_message-IsWellFormed type s e act none h use_it = diagnose-IsWellFormed s _ h
  on_message-IsWellFormed type s e act (some id) h acts = elim (Option-cases (s.messages id)) [
    | inl absent ↦ rw (absent, on_message) (diagnose-IsWellFormed s _ h)
    | inr (m, e) ↦
        rw (e, on_message)
          (acts m (h.messages.good id m e) (
            subst (λ k. elem k s.message_order ≡ true) (sym (h.messages.at_key id m e))
              (h.messages.listed id m e)))
  ]

  message_started_at-IsWellFormed :
      (s : Fold) (e : SessionEvent) (id : Option String)
      → IsWellFormed n s
      → IsWellFormed n (message_started_at s e id)
  unfolding message_started_at
  message_started_at-IsWellFormed s e none h = diagnose-IsWellFormed s _ h
  message_started_at-IsWellFormed s e (some id) h = elim (Bool-cases (is_some (s.messages id))) [
    | inl old ↦ rw old h
    | inr new ↦ rw new (record {
      messages = Keyed-append message_key DistinctBlocks s.message_order s.messages h.messages _ tt;
      tools = h.tools;
      last = h.last;
      expected = h.expected;
    })
  ]

  tool_started_at-IsWellFormed :
      (s : Fold) (e : SessionEvent) (tool_id message_id : Option String)
      → IsWellFormed n s
      → IsWellFormed n (tool_started_at s e tool_id message_id)
  unfolding tool_started_at
  tool_started_at-IsWellFormed s e (some tool_id) (some message_id) h = record {
    messages = h.messages;
    tools = Keyed-append tool_key AnyTool s.tool_order s.tools h.tools _ tt;
    last = h.last;
    expected = h.expected;
  }
  tool_started_at-IsWellFormed s e _ _ h = diagnose-IsWellFormed s _ h

  finish_tool-IsWellFormed :
      (s : Fold) (e : SessionEvent) (id : Option String)
      → IsWellFormed n s
      → IsWellFormed n (finish_tool s e (tool_at s id))
  unfolding finish_tool
  finish_tool-IsWellFormed s e none h = diagnose-IsWellFormed s _ h
  finish_tool-IsWellFormed s e (some id) h = elim (Option-cases (s.tools id)) [
    | inl absent ↦ rw (absent, finish_tool) (diagnose-IsWellFormed s _ h)
    | inr (tool, at) ↦
        rw (at, finish_tool)
          (record {
            messages = h.messages;
            tools = Keyed-replace tool_key AnyTool s.tool_order s.tools h.tools _ tt (
                subst (λ k. elem k s.tool_order ≡ true) (sym (h.tools.at_key id tool at))
                  (h.tools.listed id tool at));
            last = h.last;
            expected = h.expected;
          })
  ]

  apply_event-IsWellFormed :
      (known : List String) (k : EventType) (e : SessionEvent) (s : Fold)
      → IsWellFormed n s
      → IsWellFormed n (apply_event known k e s)
  unfolding apply_event
  apply_event-IsWellFormed known message_started e s h = message_started_at-IsWellFormed s e _ h
  apply_event-IsWellFormed known assistant_event e s h =
      on_message-IsWellFormed _ s e _ _ h
        (λ m p old. assistant_event_at-IsWellFormed known s e m h p old)
  apply_event-IsWellFormed known message_finished e s h =
      on_message-IsWellFormed _ s e _ _ h
        (λ m p old. message_finished_at-IsWellFormed known s e m h p old)
  apply_event-IsWellFormed known tool_execution_started e s h =
      tool_started_at-IsWellFormed s e _ _ h
  apply_event-IsWellFormed known tool_execution_finished e s h = finish_tool-IsWellFormed s e _ h
  apply_event-IsWellFormed known _ e s h = h

-- An event's step keeps the form, and moves the place to the event's number.
pub step_event-IsWellFormed :
    (known : List String) (e : SessionEvent) (n : ℕ) (s : Fold)
    → IsWellFormed n s
    → IsWellFormed e.seq (step_event known e s)
unfolding step_event enter_event
step_event-IsWellFormed known e n s h =
    apply_event-IsWellFormed e.seq known e.event_type e _ (entered (not (eqb e.seq s.expected_seq)))
  where
    entered :
        (b : Bool)
        → IsWellFormed e.seq (record (diagnose_if b s (gap s.expected_seq)) {
          expected_seq = e.seq + 1;
          last_seq = e.seq;
        })
    entered true = record { messages = h.messages; tools = h.tools; last = refl; expected = refl }
    entered false = record { messages = h.messages; tools = h.tools; last = refl; expected = refl }
