-- ===== src/Session/Continue.antt =====
-- A fold continued from a checkpoint: reduceSessionEvents and reduceSessionEventsFromCheckpoint in
-- src/workflows/session-reducer.ts.
use mathlib.Core.List.{append-nil, append_assoc}
use pi_workflows.Prelude.{
  map, ◌++◌, ◌∙◌, ap, All, ltb, inr, inl, sym, leb, [], ◌≤◌, ◌∷◌, ℕ, String, List, Bool-cases, ◌≡◌,
  arith, some,
}
use pi_workflows.Session.Step.{update, Fold}
use pi_workflows.Session.{Tool, Message, SessionEvent}
use pi_workflows.Session.Fold.{
  rebuild_message, resume_fold, reduce_session_events_from_checkpoint, reduce_session_events,
  get_all, finish_fold, entry_ids, empty_fold, add_tools, add_messages, step_event, run_events,
}
use pi_workflows.Session.Keep.{tool_key, message_key, AnyTool, step_event-IsWellFormed}
use pi_workflows.Json.{Fields}
use pi_workflows.Session.Blocks.{rebuild_blocks-sorted}
use pi_workflows.Session.Keyed.{puts, puts-get_all, get_all_lem}
use pi_workflows.Session.Projected.{
  step_event-Agree, sorted_fold-IsWellFormed, finish_fold-written, finish_fold-Agree, SortedBlocks,
  Keyed-sorted,
}
use pi_workflows.Session.Sorted.{sorted_fold-twice, sorted_fold, Agree}
use pi_workflows.Session.Runs.{
  formed, run_seen, run_past, run_events_twice, run_events-Formed, run_due, empty_fold-Formed,
  Formed,
}

rebuild_message-sorted : (m : Message) → SortedBlocks m → rebuild_message m ≡ m
rebuild_message-sorted m p = λ i. record {
  message_id = m.message_id;
  role = m.role;
  status = m.status;
  entry_id = m.entry_id;
  blocks = rebuild_blocks-sorted m.blocks p i;
}

add_messages_lem :
    (ms : List Message) (s : Fold)
    → All SortedBlocks ms
    → add_messages ms s ≡ record s {
      messages = puts message_key ms s.messages;
      message_order = s.message_order ++ map message_key ms;
    }
unfolding add_messages puts
add_messages_lem [] s a = λ i. record s { message_order = sym (append-nil s.message_order) i }
add_messages_lem (m ∷ ms) s (p, a) = rw (rebuild_message-sorted m p) (
    add_messages_lem ms _ a ∙ (λ i. record s {
      messages = puts message_key ms (update s.messages m.message_id m);
      message_order = append_assoc s.message_order (m.message_id ∷ []) (map message_key ms) i;
    }))

add_tools_lem :
    (ts : List Tool) (s : Fold)
    → add_tools ts s
      ≡ record s { tools = puts tool_key ts s.tools; tool_order = s.tool_order ++ map tool_key ts }
unfolding add_tools puts
add_tools_lem [] s = λ i. record s { tool_order = sym (append-nil s.tool_order) i }
add_tools_lem (t ∷ ts) s = add_tools_lem ts _ ∙ (λ i. record s {
  tools = puts tool_key ts (update s.tools t.tool_call_id t);
  tool_order = append_assoc s.tool_order (t.tool_call_id ∷ []) (map tool_key ts) i;
})

-- What the fold writes into a checkpoint is all that it needs to go on, its blocks sorted.
resume_fold-finish_fold : (s : Fold) → Formed s → resume_fold (some (finish_fold s)) ≡ sorted_fold s
unfolding resume_fold
resume_fold-finish_fold s h =
    let t = sorted_fold s in
    let sorted = Keyed-sorted s h.messages in
    let (ids, _, all_sorted) =
      get_all_lem message_key SortedBlocks t.messages s.message_order sorted.at_key sorted.good
        sorted.present in
    let (tool_ids, _, _) =
      get_all_lem tool_key AnyTool s.tools s.tool_order h.tools.at_key h.tools.good
        h.tools.present in
    ap (λ c. resume_fold (some c)) (finish_fold-written s)
    ∙ ap (add_tools (get_all s.tool_order s.tools))
        (add_messages_lem (get_all s.message_order t.messages) _ all_sorted)
    ∙ add_tools_lem (get_all s.tool_order s.tools) _
    ∙ (λ i. record {
      messages = puts-get_all message_key SortedBlocks s.message_order t.messages sorted i;
      message_order = ids i;
      tools = puts-get_all tool_key AnyTool s.tool_order s.tools h.tools i;
      tool_order = tool_ids i;
      settled_entry_ids = s.settled_entry_ids;
      diagnostics = s.diagnostics;
      expected_seq = sym h.expected i;
      last_seq = s.last_seq;
    })

-- States that agree lead to states that agree.
run_events-Agree :
    (known : List String) (es : List SessionEvent) (through : ℕ) (s t : Fold)
    → Formed s
    → Formed t
    → Agree s t
    → Agree (run_events known es through s) (run_events known es through t)
run_events-Agree known [] through s t h h' same = unfold run_events in same
run_events-Agree known (e ∷ es) through s t h h' same =
    let place : s.last_seq ≡ t.last_seq = ap (λ u. u.last_seq) same in
    elim (Bool-cases (leb e.seq s.last_seq)) [
      | inl seen ↦
          ap sorted_fold (run_seen known e es through s seen)
          ∙ run_events-Agree known es through s t h h' same
          ∙ ap sorted_fold (sym (run_seen known e es through t (ground (arith, place))))
      | inr unseen ↦ elim (Bool-cases (ltb through e.seq)) [
        | inl past ↦
            ap sorted_fold (run_past known e es through s unseen past)
            ∙ same
            ∙ ap sorted_fold (sym (run_past known e es through t (ground (arith, place)) past))
        | inr due ↦
            let step = step_event-IsWellFormed known e s.last_seq s h in
            let step' = step_event-IsWellFormed known e t.last_seq t h' in
            ap sorted_fold (run_due known e es through s unseen due)
            ∙ run_events-Agree known es through (step_event known e s) (step_event known e t)
                (formed e.seq _ step) (formed e.seq _ step')
                (step_event-Agree known e s t h.messages.good h'.messages.good same)
            ∙ ap sorted_fold (sym (run_due known e es through t (ground (arith, place)) due))
      ]
    ]

-- A fold through `k`, continued from its state through a later `through` over the same events, gives
-- what one fold through `through` gives, whatever the events are.
pub reduce_from_checkpoint-reduce :
    (entries : List Fields) (events : List SessionEvent) (k through : ℕ)
    → k ≤ through
    → reduce_session_events_from_checkpoint entries events through
        (reduce_session_events entries events k)
      ≡ reduce_session_events entries events through
unfolding reduce_session_events reduce_session_events_from_checkpoint resume_fold
reduce_from_checkpoint-reduce entries events k through le =
    let known = entry_ids entries in
    let first = run_events known events k empty_fold in
    let h = run_events-Formed known events k empty_fold empty_fold-Formed in
    let sorted = sorted_fold-IsWellFormed first.last_seq first h in
    ap (λ s. finish_fold (run_events known events through s)) (resume_fold-finish_fold first h)
    ∙ finish_fold-Agree _ _ (
        run_events-Agree known events through (sorted_fold first) first sorted h
          (sorted_fold-twice first h.messages.good))
    ∙ ap finish_fold (run_events_twice known events k through empty_fold empty_fold-Formed le)
