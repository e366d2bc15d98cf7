-- ===== src/Session/Step.antt =====
-- One event of foldSessionEvents in src/workflows/session-reducer.ts. The maps of messages and of
-- tools are functions, since only the lists of their keys are walked. The map of a message's blocks
-- is the list of its values in the order in which their keys were first set.
use pi_workflows.Prelude.{
  true, ◌&&◌, elem, ◌==◌, not, false, eqb, ◌∷◌, ◌++◌, if◌then◌else◌, ℕ, or_else, is_some, [],
  String, Option, List, Bool, some, none,
}
use pi_workflows.Session.{
  thinking, mismatch, text, uncorrelated, streaming, settled, errored, unsettled, finished,
  tool_running, tool_finished, tool_failed, tool_execution_started, tool_execution_finished,
  tool_call, precedes_start, no_message_id, message_started, message_finished, entry_missing,
  assistant_event, Tool, SessionEvent, Message, EventType, Diagnostic, BlockKind, Block,
}
use pi_workflows.Json.{bool, get_field, as_text, as_number, Json, Fields}
use pi_workflows.Json.{safe_natural}

-- The variables of the fold.
pub record Fold : Type 0 where
  pub messages : String → Option Message
  pub message_order : List String
  pub tools : String → Option Tool
  pub tool_order : List String
  pub settled_entry_ids : List String
  pub diagnostics : List Diagnostic
  pub expected_seq : ℕ
  pub last_seq : ℕ

-- `map.set(key, value)`
abbrev pub update {ℓ} : {V : Type ℓ} → (String → Option V) → String → V → String → Option V
update map key value j = if key == j then some value else map j

-- `if (!value)` on a text: undefined and the empty text are alike.
abbrev pub non_empty : Option String → Option String
non_empty none = none
non_empty (some s) = if s == "" then none else some s

abbrev pub payload_string : Fields → String → Option String
payload_string payload key = as_text (get_field key payload)

abbrev natural? : Option ℕ → Option ℕ
natural? none = none
natural? (some n) = safe_natural n

unfoldable pub payload_index : Fields → Option ℕ
payload_index payload = natural? (as_number (get_field "contentIndex" payload))

-- `blocks.get(index)`
unfoldable pub find_block : ℕ → List Block → Option Block
find_block i [] = none
find_block i (b ∷ bs) = if eqb b.content_index i then some b else find_block i bs

-- `blocks.set(block.contentIndex, block)`: a key that is there keeps its place.
unfoldable pub put_block : Block → List Block → List Block
put_block b [] = b ∷ []
put_block b (c ∷ bs) =
    let later = c ∷ put_block b bs in if eqb b.content_index c.content_index then b ∷ bs else later

abbrev new_block : ℕ → BlockKind → Block
new_block i kind = record { content_index = i; kind = kind; content = ""; value = none }

-- ensureBlock: the block, new or old
unfoldable pub block_at : List Block → ℕ → BlockKind → Block
block_at bs i kind = or_else (find_block i bs) (new_block i kind)

unfoldable pub ensure_block : Message → ℕ → BlockKind → Message
unfolding block_at
ensure_block m i kind = record m { blocks = put_block (block_at m.blocks i kind) m.blocks }

abbrev pub diagnose : Fold → Diagnostic → Fold
diagnose s d = record s { diagnostics = s.diagnostics ++ d ∷ [] }

abbrev pub diagnose_if : Bool → Fold → Diagnostic → Fold
diagnose_if true s d = diagnose s d
diagnose_if false s d = s

abbrev pub set_message : Fold → Message → Fold
set_message s m = record s { messages = update s.messages m.message_id m }

-- What an assistant event asks for, by its `type` and its content index.
pub data AssistantStep : Type 0 where
  start_block : ℕ → BlockKind → AssistantStep
  end_text : ℕ → BlockKind → (type : String) → AssistantStep
  end_tool_call : ℕ → AssistantStep
  done failed nothing : AssistantStep

abbrev block_step : String → ℕ → Option AssistantStep
block_step type i =
    if type == "text_start"
    then some (start_block i text)
    else if type == "thinking_start"
    then some (start_block i thinking)
    else if type == "toolcall_start"
    then some (start_block i tool_call)
    else if type == "text_end"
    then some (end_text i text type)
    else if type == "thinking_end"
    then some (end_text i thinking type)
    else if type == "toolcall_end"
    then some (end_tool_call i)
    else none

abbrev status_step : String → AssistantStep
status_step type = if type == "done" then done else if type == "error" then failed else nothing

unfoldable pub assistant_step : Option String → Option ℕ → AssistantStep
assistant_step none i = nothing
assistant_step (some type) none = status_step type
assistant_step (some type) (some i) = or_else (block_step type i) (status_step type)

unfoldable pub end_text_block : Fold → Message → SessionEvent → ℕ → BlockKind → String → Fold
unfolding block_at
end_text_block s m e i kind type =
    let block = block_at m.blocks i kind in
    let content = or_else (payload_string e.payload "content") "" in
    let told =
      diagnose_if (not (block.content == "") && not (block.content == content)) s
        (mismatch type m.message_id i) in
    set_message told (record m { blocks = put_block (record block { content = content }) m.blocks })

unfoldable pub apply_assistant_step : Fold → Message → SessionEvent → AssistantStep → Fold
unfolding ensure_block end_text_block
apply_assistant_step s m e (start_block i kind) = set_message s (ensure_block m i kind)
apply_assistant_step s m e (end_text i kind type) = end_text_block s m e i kind type
apply_assistant_step s m e (end_tool_call i) = set_message s (record m {
  blocks =
      put_block (record (block_at m.blocks i tool_call) { value = get_field "toolCall" e.payload })
        m.blocks;
})
apply_assistant_step s m e done = set_message s (record m { status = finished })
apply_assistant_step s m e failed = set_message s (record m { status = errored })
apply_assistant_step s m e nothing = s

unfoldable pub message_started_at : Fold → SessionEvent → Option String → Fold
message_started_at s e none = diagnose s (no_message_id message_started e.seq)
message_started_at s e (some id) = if is_some (s.messages id) then s else record s {
  messages = update s.messages id (record {
    message_id = id;
    role = or_else (payload_string e.payload "role") "unknown";
    status = streaming;
    entry_id = none;
    blocks = [];
  });
  message_order = s.message_order ++ id ∷ [];
}

abbrev pub on_message : EventType → Fold → SessionEvent → (Message → Fold) → Option String → Fold
on_message type s e act none = diagnose s (no_message_id type e.seq)
on_message type s e act (some id) = elim (s.messages id) [
  | none ↦ diagnose s (precedes_start type e.seq)
  | some m ↦ act m
]

unfoldable pub assistant_event_at : Fold → SessionEvent → Message → Fold
unfolding assistant_step apply_assistant_step payload_index
assistant_event_at s e m =
    apply_assistant_step s m e
      (assistant_step (payload_string e.payload "type") (payload_index e.payload))

abbrev is_true : Option Json → Bool
is_true (some (bool b)) = b
is_true _ = false

unfoldable pub settle_message : List String → Fold → Message → Option String → Fold
settle_message known s m none = set_message s (record m { status = unsettled })
settle_message known s m (some id) =
    let settles = record (set_message s (record m { status = settled; entry_id = some id })) {
      settled_entry_ids = s.settled_entry_ids ++ id ∷ [];
    } in
    diagnose_if (not (elem id known)) settles (entry_missing id)

unfoldable pub message_finished_at : List String → Fold → SessionEvent → Message → Fold
unfolding settle_message
message_finished_at known s e m = settle_message known s m (
    if is_true (get_field "settled" e.payload)
    then non_empty (payload_string e.payload "entryId")
    else none)

unfoldable pub tool_started_at : Fold → SessionEvent → Option String → Option String → Fold
tool_started_at s e (some tool_id) (some message_id) = record s {
  tools = update s.tools tool_id (record {
    tool_call_id = tool_id;
    message_id = message_id;
    tool_name = or_else (payload_string e.payload "toolName") "tool";
    status = tool_running;
    args = get_field "args" e.payload;
    result = none;
  });
  tool_order = s.tool_order ++ tool_id ∷ [];
}
tool_started_at s e _ _ = diagnose s (uncorrelated e.seq)

abbrev pub tool_at : Fold → Option String → Option Tool
tool_at s none = none
tool_at s (some id) = s.tools id

abbrev or_old : Option Json → Option Json → Option Json
or_old none old = old
or_old (some v) old = some v

unfoldable pub finish_tool : Fold → SessionEvent → Option Tool → Fold
finish_tool s e none = diagnose s (precedes_start tool_execution_finished e.seq)
finish_tool s e (some tool) = record s {
  tools = update s.tools tool.tool_call_id (record tool {
    status = if is_true (get_field "isError" e.payload) then tool_failed else tool_finished;
    result = or_old (get_field "result" e.payload) tool.result;
  });
}

-- The `switch` on the event's type.
unfoldable pub apply_event : List String → EventType → SessionEvent → Fold → Fold
unfolding message_started_at assistant_event_at message_finished_at tool_started_at finish_tool
apply_event known message_started e s = message_started_at s e (non_empty e.message_id)
apply_event known assistant_event e s =
    on_message assistant_event s e (assistant_event_at s e) (non_empty e.message_id)
apply_event known message_finished e s =
    on_message message_finished s e (message_finished_at known s e) (non_empty e.message_id)
apply_event known tool_execution_started e s =
    tool_started_at s e (non_empty e.tool_call_id) (non_empty e.message_id)
apply_event known tool_execution_finished e s =
    finish_tool s e (tool_at s (non_empty e.tool_call_id))
apply_event known _ e s = s
