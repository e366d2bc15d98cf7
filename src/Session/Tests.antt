-- ===== src/Session/Tests.antt =====
-- A short recorded session, and the theorems on src/workflows/session-reducer.ts at it.
use pi_workflows.Prelude.{
  map, All, true, ◌∷◌, arith, [], ℕ, String, Option, List, ◌≡◌, refl, some, none,
}
use pi_workflows.Session.{
  gap, text, thinking, settled, tool_running, tool_execution_started, message_started,
  message_finished, entry_missing, assistant_event, EventType, SessionEvent,
}
use pi_workflows.Json.{bool, num, end, str, field, safe_natural, get_field, Fields}
use pi_workflows.Session.Continue.{reduce_from_checkpoint-reduce}
use pi_workflows.Session.Fold.{
  resume_fold, reduce_session_events_from_checkpoint, reduce_session_events,
}
use pi_workflows.Session.Seek.{timestamps_from, state_at_seq, seq_of, seq_at_or_before, build_index}
use pi_workflows.Session.Seek.Bisect.{seq_at_or_before_lem, last_at_or_before}
use pi_workflows.Session.Seek.Exact.{state_at_seq-reduce}
use pi_workflows.Session.Step.{payload_index, find_block, assistant_step, apply_assistant_step}
use pi_workflows.Session.Keep.{message_key}
use pi_workflows.Session.Order.{started_ids, reduce_session_events-order, first_ids}
use pi_workflows.Session.Projected.{SortedBlocks}

abbrev event : ℕ → EventType → Fields → SessionEvent
event n type payload = record {
  seq = n;
  at = "t";
  event_type = type;
  message_id = some "m1";
  tool_call_id = some "c1";
  payload = payload;
}

abbrev block_payload : String → ℕ → Fields → Fields
block_payload type i rest = field "type" (str type) (field "contentIndex" (num i) rest)

-- The doubles 0 and 1.
abbrev session : List SessionEvent
session =
    event 1 message_started (field "role" (str "assistant") end)
    ∷ event 2 assistant_event (block_payload "text_start" 0x3ff0000000000000 end)
    ∷ event 3 assistant_event
        (block_payload "text_end" 0x3ff0000000000000 (field "content" (str "hi") end))
    ∷ event 4 assistant_event (block_payload "thinking_start" 0 end)
    ∷ event 5 message_finished (field "settled" (bool true) (field "entryId" (str "e1") end))
    ∷ event 7 tool_execution_started (field "toolName" (str "bash") end)
    ∷ []

folded : reduce_session_events [] session 9 ≡ record {
  through_seq = 7;
  messages =
      record {
        message_id = "m1";
        role = "assistant";
        status = settled;
        entry_id = some "e1";
        blocks =
            record { content_index = 0; kind = thinking; content = ""; value = none }
            ∷ record { content_index = 1; kind = text; content = "hi"; value = none }
            ∷ [];
      }
      ∷ [];
  tools =
      record {
        tool_call_id = "c1";
        message_id = "m1";
        tool_name = "bash";
        status = tool_running;
        args = none;
        result = none;
      }
      ∷ [];
  settled_entry_ids = "e1" ∷ [];
  diagnostics = entry_missing "e1" ∷ gap 6 ∷ [];
}
unfolding reduce_session_events apply_assistant_step safe_natural get_field payload_index
    assistant_step find_block resume_fold
folded = refl

reduce_from_checkpoint-reduce_example :
    reduce_session_events_from_checkpoint [] session 7 (reduce_session_events [] session 3)
    ≡ reduce_session_events [] session 7
reduce_from_checkpoint-reduce_example = reduce_from_checkpoint-reduce [] session 3 7 (omega arith)

abbrev dated : String → Option ℕ
dated s = some 5

state_at_seq-reduce_example :
    state_at_seq (build_index dated [] session 2) 5 ≡ reduce_session_events [] session 5
state_at_seq-reduce_example = state_at_seq-reduce dated [] session 2 5 (omega arith)

seq_at_or_before_lem_example :
    seq_at_or_before (build_index dated [] session 2) 6
    ≡ seq_of (last_at_or_before 6 (timestamps_from dated none session))
seq_at_or_before_lem_example = seq_at_or_before_lem dated 6 [] session 2

reduce_session_events-order_example :
    (map message_key (reduce_session_events [] session 9).messages
      ≡ first_ids [] (started_ids 0 session 9))
    × All SortedBlocks (reduce_session_events [] session 9).messages
reduce_session_events-order_example = reduce_session_events-order [] session 9
