-- ===== src/Session/Fold.antt =====
-- foldSessionEvents in src/workflows/session-reducer.ts: the loop over the events, and the state
-- before and after it, with or without a checkpoint.
use pi_workflows.Prelude.{
  map, not, ◌++◌, ltb, leb, eqb, ◌∷◌, ◌+◌, if◌then◌else◌, [], ℕ, String, Option, List, some, none,
}
use pi_workflows.Session.{gap, Tool, SessionState, SessionEvent, Message, Block}
use pi_workflows.Session.Step.{diagnose_if, update, put_block, apply_event, Fold}
use pi_workflows.Json.{get_field, as_text, Fields}

-- The check of the sequence, before the `switch`.
unfoldable pub enter_event : SessionEvent → Fold → Fold
enter_event e s =
    let told = diagnose_if (not (eqb e.seq s.expected_seq)) s (gap s.expected_seq) in
    record told { expected_seq = e.seq + 1; last_seq = e.seq }

unfoldable pub step_event : List String → SessionEvent → Fold → Fold
unfolding enter_event apply_event
step_event known e s = apply_event known e.event_type e (enter_event e s)

-- The loop over the events: those seen before are skipped, and the first one past `through` ends it.
unfoldable pub run_events : List String → List SessionEvent → ℕ → Fold → Fold
unfolding step_event
run_events known [] through s = s
run_events known (e ∷ es) through s =
    let next = run_events known es through (step_event known e s) in
    let skipped = run_events known es through s in
    if leb e.seq s.last_seq then skipped else if ltb through e.seq then s else next

-- The map of a checkpoint's blocks, set one after another.
unfoldable pub rebuild_blocks : List Block → List Block → List Block
unfolding put_block
rebuild_blocks [] set = set
rebuild_blocks (b ∷ bs) set = rebuild_blocks bs (put_block b set)

abbrev pub rebuild_message : Message → Message
rebuild_message m = record m { blocks = rebuild_blocks m.blocks [] }

unfoldable pub add_messages : List Message → Fold → Fold
add_messages [] s = s
add_messages (m ∷ ms) s = add_messages ms (record s {
  messages = update s.messages m.message_id (rebuild_message m);
  message_order = s.message_order ++ m.message_id ∷ [];
})

unfoldable pub add_tools : List Tool → Fold → Fold
add_tools [] s = s
add_tools (t ∷ ts) s = add_tools ts (record s {
  tools = update s.tools t.tool_call_id t;
  tool_order = s.tool_order ++ t.tool_call_id ∷ [];
})

abbrev pub empty_fold : Fold
empty_fold = record {
  messages = λ id. none;
  message_order = [];
  tools = λ id. none;
  tool_order = [];
  settled_entry_ids = [];
  diagnostics = [];
  expected_seq = 1;
  last_seq = 0;
}

-- The variables as they stand before the loop, without or with a checkpoint.
unfoldable pub resume_fold : Option SessionState → Fold
unfolding add_messages add_tools rebuild_blocks
resume_fold none = empty_fold
resume_fold (some c) = add_tools c.tools (
    add_messages c.messages (record empty_fold {
      settled_entry_ids = c.settled_entry_ids;
      diagnostics = c.diagnostics;
      expected_seq = c.through_seq + 1;
      last_seq = c.through_seq;
    }))

-- `order.map((id) => map.get(id)!)`; an id with no entry, which never happens, is passed over.
unfoldable pub get_all : {V : Type 0} → List String → (String → Option V) → List V
get_all [] map = []
get_all (id ∷ ids) map = elim (map id) [ none ↦ get_all ids map | some v ↦ v ∷ get_all ids map ]

-- `toSorted` by the content index: blocks of one index keep their order.
unfoldable pub insert_block : Block → List Block → List Block
insert_block b [] = b ∷ []
insert_block b (c ∷ bs) =
    let later = c ∷ insert_block b bs in
    if leb b.content_index c.content_index then b ∷ c ∷ bs else later

unfoldable pub sort_blocks : List Block → List Block
unfolding insert_block
sort_blocks [] = []
sort_blocks (b ∷ bs) = insert_block b (sort_blocks bs)

abbrev pub finish_message : Message → Message
finish_message m = record m { blocks = sort_blocks m.blocks }

unfoldable pub finish_fold : Fold → SessionState
unfolding get_all sort_blocks
finish_fold s = record {
  through_seq = s.last_seq;
  messages = map finish_message (get_all s.message_order s.messages);
  tools = get_all s.tool_order s.tools;
  settled_entry_ids = s.settled_entry_ids;
  diagnostics = s.diagnostics;
}

-- entryIds: the ids of the recorded entries that are texts
unfoldable pub entry_ids : List Fields → List String
entry_ids [] = []
entry_ids (entry ∷ entries) = elim (as_text (get_field "id" entry)) [
  | none ↦ entry_ids entries
  | some id ↦ id ∷ entry_ids entries
]

unfoldable pub fold_session_events :
    List Fields → List SessionEvent → ℕ → Option SessionState → SessionState
unfolding run_events resume_fold finish_fold entry_ids
fold_session_events entries events through initial =
    finish_fold (run_events (entry_ids entries) events through (resume_fold initial))

-- reduceSessionEvents
unfoldable pub reduce_session_events : List Fields → List SessionEvent → ℕ → SessionState
unfolding fold_session_events
reduce_session_events entries events through = fold_session_events entries events through none

-- reduceSessionEventsFromCheckpoint
unfoldable pub reduce_session_events_from_checkpoint :
    List Fields → List SessionEvent → ℕ → SessionState → SessionState
unfolding fold_session_events
reduce_session_events_from_checkpoint entries events through checkpoint =
    fold_session_events entries events through (some checkpoint)
