-- ===== src/Session/Sorted.antt =====
-- The fold of src/workflows/session-reducer.ts from a state whose blocks are sorted, as a checkpoint
-- has them: each event leads to what it leads to from the unsorted blocks, up to their order.
use mathlib.Core.Path.{fun_ext}
use pi_workflows.Session.Step.{
  update, put_block, ensure_block, block_at, on_message, tool_started_at, message_started_at,
  message_finished_at, finish_tool, diagnose_if, assistant_event_at, apply_event, nothing, failed,
  done, diagnose, start_block, settle_message, set_message, end_tool_call, end_text_block, end_text,
  apply_assistant_step, AssistantStep, Fold,
}
use pi_workflows.Session.{
  settled, errored, unsettled, finished, tool_call, Block, tool_execution_started,
  tool_execution_finished, message_started, message_finished, assistant_event, EventType, Tool,
  SessionEvent, Message, Diagnostic, BlockKind,
}
use pi_workflows.Session.Blocks.{
  sort_blocks-put_block, sort_blocks-sorted, sort_blocks-IsSorted, find_block-sort_blocks,
}
use pi_workflows.Prelude.{
  ◌∙◌, elem, [], ◌∷◌, refl, not, inr, false, ◌==◌, ◌++◌, true, none, inl, some, ap, ◌≡◌, ℕ, String,
  Option-cases, Option, List, Bool-cases, Bool,
}
use pi_workflows.Session.Fold.{sort_blocks, finish_message}
use pi_workflows.Session.Keep.{message_key, DistinctBlocks}

abbrev pub finish_option : Option Message → Option Message
finish_option none = none
finish_option (some m) = some (finish_message m)

-- The blocks of each message are sorted.
abbrev pub sorted_fold : Fold → Fold
sorted_fold s = record s { messages = λ id. finish_option (s.messages id) }

abbrev pub HasDistinct : Fold → Type 0
HasDistinct s = (id : String) (m : Message) → s.messages id ≡ some m → DistinctBlocks m

-- The same up to the order of the blocks.
abbrev pub Agree : Fold → Fold → Type 0
Agree s t = sorted_fold s ≡ sorted_fold t

finish_message-twice :
    (m : Message) → DistinctBlocks m → finish_message (finish_message m) ≡ finish_message m
finish_message-twice m d = λ i. record m {
  blocks = sort_blocks-sorted (sort_blocks m.blocks) (sort_blocks-IsSorted m.blocks d) i;
}

finish_option-twice :
    (o : Option Message)
    → ((m : Message) → o ≡ some m → DistinctBlocks m)
    → finish_option (finish_option o) ≡ finish_option o
finish_option-twice none d = refl
finish_option-twice (some m) d = ap some (finish_message-twice m (d m refl))

pub sorted_fold-twice : (s : Fold) → HasDistinct s → Agree (sorted_fold s) s
sorted_fold-twice s d = λ i. record (sorted_fold s) {
  messages = fun_ext (λ id. finish_option-twice (s.messages id) (d id)) i;
}

block_at-sorted :
    (m : Message) (i : ℕ) (kind : BlockKind)
    → DistinctBlocks m
    → block_at (sort_blocks m.blocks) i kind ≡ block_at m.blocks i kind
unfolding block_at
block_at-sorted m i kind d = rw (find_block-sort_blocks i m.blocks d) refl

-- A block set into the sorted blocks of a message.
finish_message-put_block :
    (m : Message) (b : Block)
    → DistinctBlocks m
    → finish_message (record m { blocks = put_block b (sort_blocks m.blocks) })
      ≡ finish_message (record m { blocks = put_block b m.blocks })
finish_message-put_block m b d = λ i. record m { blocks = sort_blocks-put_block b m.blocks d i }

update-sorted :
    (s : Fold) (key : String) (m n : Message)
    → HasDistinct s
    → finish_message m ≡ finish_message n
    → (j : String)
    → finish_option (update (sorted_fold s).messages key m j)
      ≡ finish_option (update s.messages key n j)
update-sorted s key m n d same j = elim (Bool-cases (key == j)) [
  | inl here ↦ rw here (ap some same)
  | inr there ↦ rw there (finish_option-twice (s.messages j) (d j))
]

updates-sorted :
    (s : Fold) (m n : Message)
    → HasDistinct s
    → finish_message m ≡ finish_message n
    → Path
        (String → Option Message)
        (λ j. finish_option (update (sorted_fold s).messages m.message_id m j))
        (λ j. finish_option (update s.messages n.message_id n j))
updates-sorted s m n d same =
    ap (λ key j. finish_option (update (sorted_fold s).messages key m j)) (ap message_key same)
    ∙ fun_ext (update-sorted s n.message_id m n d same)

set_message-Agree :
    (s : Fold) (m n : Message)
    → HasDistinct s
    → finish_message m ≡ finish_message n
    → Agree (set_message (sorted_fold s) m) (set_message s n)
set_message-Agree s m n d same =
    λ i. record (sorted_fold s) { messages = updates-sorted s m n d same i }

diagnose-Agree :
    (s : Fold) (x : Diagnostic) → HasDistinct s → Agree (diagnose (sorted_fold s) x) (diagnose s x)
diagnose-Agree s x d = ap (λ u. diagnose u x) (sorted_fold-twice s d)

diagnose_if-Agree :
    (b : Bool) (s t : Fold) (x : Diagnostic)
    → Agree s t
    → Agree (diagnose_if b s x) (diagnose_if b t x)
diagnose_if-Agree true s t x same = ap (λ u. diagnose u x) same
diagnose_if-Agree false s t x same = same

set_told-Agree :
    (b : Bool) (s : Fold) (x : Diagnostic) (m n : Message)
    → HasDistinct s
    → finish_message m ≡ finish_message n
    → Agree (set_message (diagnose_if b (sorted_fold s) x) m) (set_message (diagnose_if b s x) n)
set_told-Agree true s x m n d same = ap (λ u. diagnose u x) (set_message-Agree s m n d same)
set_told-Agree false s x m n d same = set_message-Agree s m n d same

module _ (known : List String) (s : Fold) (e : SessionEvent) (d : HasDistinct s) where
  module _ (m : Message) (p : DistinctBlocks m) where
    end_text_block-Agree :
        (i : ℕ) (kind : BlockKind) (type : String)
        → Agree
            (end_text_block (sorted_fold s) (finish_message m) e i kind type)
            (end_text_block s m e i kind type)
    unfolding end_text_block
    end_text_block-Agree i kind type =
        rw (block_at-sorted m i kind p)
          (set_told-Agree _ s _ _ _ d (finish_message-put_block m _ p))

    apply_assistant_step-Agree :
        (a : AssistantStep)
        → Agree
            (apply_assistant_step (sorted_fold s) (finish_message m) e a)
            (apply_assistant_step s m e a)
    unfolding apply_assistant_step ensure_block
    apply_assistant_step-Agree (start_block i kind) =
        rw (block_at-sorted m i kind p) (set_message-Agree s _ _ d (finish_message-put_block m _ p))
    apply_assistant_step-Agree (end_text i kind type) = end_text_block-Agree i kind type
    apply_assistant_step-Agree (end_tool_call i) =
        rw (block_at-sorted m i tool_call p)
          (set_message-Agree s _ _ d (finish_message-put_block m _ p))
    apply_assistant_step-Agree done =
        set_message-Agree s _ _ d
          (ap {A = Message} (λ x. record x { status = finished }) (finish_message-twice m p))
    apply_assistant_step-Agree failed =
        set_message-Agree s _ _ d
          (ap {A = Message} (λ x. record x { status = errored }) (finish_message-twice m p))
    apply_assistant_step-Agree nothing = sorted_fold-twice s d

    settle_message-Agree :
        (id : Option String)
        → Agree
            (settle_message known (sorted_fold s) (finish_message m) id)
            (settle_message known s m id)
    unfolding settle_message
    settle_message-Agree none =
        set_message-Agree s _ _ d
          (ap {A = Message} (λ x. record x { status = unsettled }) (finish_message-twice m p))
    settle_message-Agree (some id) = diagnose_if-Agree (not (elem id known)) _ _ _ (
        ap {A = Fold} (λ u. record u { settled_entry_ids = s.settled_entry_ids ++ id ∷ [] })
          (set_message-Agree s _ _ d (
            ap {A = Message} (λ x. record x { status = settled; entry_id = some id })
              (finish_message-twice m p))))

  on_message-Agree :
      (type : EventType) (act act' : Message → Fold) (id : Option String)
      → ((m : Message) → DistinctBlocks m → Agree (act' (finish_message m)) (act m))
      → Agree (on_message type (sorted_fold s) e act' id) (on_message type s e act id)
  on_message-Agree type act act' none h = diagnose-Agree s _ d
  on_message-Agree type act act' (some id) h = elim (Option-cases (s.messages id)) [
    | inl absent ↦ rw (absent, on_message) (diagnose-Agree s _ d)
    | inr (m, found) ↦ rw (found, on_message) (h m (d id m found))
  ]

  message_started_at-Agree :
      (id : Option String)
      → Agree (message_started_at (sorted_fold s) e id) (message_started_at s e id)
  unfolding message_started_at
  message_started_at-Agree none = diagnose-Agree s _ d
  message_started_at-Agree (some id) = elim (Option-cases (s.messages id)) [
    | inl absent ↦ rw absent (
        ap {A = Fold} (λ u. record u { message_order = s.message_order ++ id ∷ [] })
          (set_message-Agree s _ _ d refl))
    | inr (m, found) ↦ rw found (sorted_fold-twice s d)
  ]

  tool_started_at-Agree :
      (tool_id id : Option String)
      → Agree (tool_started_at (sorted_fold s) e tool_id id) (tool_started_at s e tool_id id)
  unfolding tool_started_at
  tool_started_at-Agree (some tool_id) (some id) =
      ap {A = Fold}
        (λ u. record u {
          tools = (tool_started_at s e (some tool_id) (some id)).tools;
          tool_order = s.tool_order ++ tool_id ∷ [];
        })
        (sorted_fold-twice s d)
  tool_started_at-Agree none id = diagnose-Agree s _ d
  tool_started_at-Agree (some tool_id) none = diagnose-Agree s _ d

  finish_tool-Agree :
      (tool : Option Tool) → Agree (finish_tool (sorted_fold s) e tool) (finish_tool s e tool)
  unfolding finish_tool
  finish_tool-Agree none = diagnose-Agree s _ d
  finish_tool-Agree (some tool) =
      ap {A = Fold} (λ u. record u { tools = (finish_tool s e (some tool)).tools })
        (sorted_fold-twice s d)

  pub apply_event-Agree :
      (k : EventType) → Agree (apply_event known k e (sorted_fold s)) (apply_event known k e s)
  unfolding apply_event assistant_event_at message_finished_at
  apply_event-Agree message_started = message_started_at-Agree _
  apply_event-Agree assistant_event =
      on_message-Agree _ _ _ _ (λ m p. apply_assistant_step-Agree m p _)
  apply_event-Agree message_finished = on_message-Agree _ _ _ _ (λ m p. settle_message-Agree m p _)
  apply_event-Agree tool_execution_started = tool_started_at-Agree _ _
  apply_event-Agree tool_execution_finished = finish_tool-Agree _
  apply_event-Agree _ = sorted_fold-twice s d
