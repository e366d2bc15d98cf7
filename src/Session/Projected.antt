-- ===== src/Session/Projected.antt =====
-- The result of the fold in src/workflows/session-reducer.ts as the sorted state gives it, and one
-- step on states that agree.
use mathlib.Core.Path.{subst}
use pi_workflows.Session.Sorted.{sorted_fold, HasDistinct, Agree, apply_event-Agree, finish_option}
use pi_workflows.Session.Keep.{message_key, DistinctBlocks, IsWellFormed}
use pi_workflows.Session.Blocks.{sort_blocks-IsSorted, IsSorted-IsDistinct, IsSorted}
use pi_workflows.Prelude.{
  refl, [], none, inr, inl, arith, ◌∷◌, ◌∙◌, some, eqb, ◌≡◌, sym, map, ap, ℕ, String, Option-cases,
  Option, List, Bool-cases,
}
use pi_workflows.Session.{SessionState, SessionEvent, Message}
use pi_workflows.Session.Fold.{step_event, get_all, finish_message, finish_fold, enter_event}
use pi_workflows.Session.Keyed.{Keyed}
use pi_workflows.Session.Step.{apply_event, Fold}

abbrev pub SortedBlocks : Message → Type 0
SortedBlocks m = IsSorted m.blocks

enter_event-sorted :
    (e : SessionEvent) (s : Fold) → enter_event e (sorted_fold s) ≡ sorted_fold (enter_event e s)
unfolding enter_event
enter_event-sorted e s = elim (Bool-cases (eqb e.seq s.expected_seq)) [
  | inl expected ↦ rw expected refl
  | inr other ↦ rw other refl
]

enter_event-messages : (e : SessionEvent) (s : Fold) → (enter_event e s).messages ≡ s.messages
unfolding enter_event
enter_event-messages e s = elim (Bool-cases (eqb e.seq s.expected_seq)) [
  | inl expected ↦ rw expected refl
  | inr other ↦ rw other refl
]

step_event-sorted :
    (known : List String) (e : SessionEvent) (s : Fold)
    → HasDistinct s
    → Agree (step_event known e (sorted_fold s)) (step_event known e s)
unfolding step_event
step_event-sorted known e s d =
    ap (λ u. sorted_fold (apply_event known e.event_type e u)) (enter_event-sorted e s)
    ∙ apply_event-Agree known (enter_event e s) e
        (λ id m found. d id m (ap (λ f. f id) (sym (enter_event-messages e s)) ∙ found))
        e.event_type

pub step_event-Agree :
    (known : List String) (e : SessionEvent) (s t : Fold)
    → HasDistinct s
    → HasDistinct t
    → Agree s t
    → Agree (step_event known e s) (step_event known e t)
step_event-Agree known e s t d d' same =
    sym (step_event-sorted known e s d)
    ∙ ap (λ u. sorted_fold (step_event known e u)) same
    ∙ step_event-sorted known e t d'

get_all-sorted :
    (ids : List String) (messages : String → Option Message)
    → map finish_message (get_all ids messages) ≡ get_all ids (λ id. finish_option (messages id))
unfolding get_all
get_all-sorted [] messages = refl
get_all-sorted (id ∷ ids) messages = elim (Option-cases (messages id)) [
  | inl absent ↦ rw (absent, get_all) (get_all-sorted ids messages)
  | inr (m, found) ↦
      rw (found, get_all) (ap (λ l. finish_message m ∷ l) (get_all-sorted ids messages))
]

-- The result of a state whose blocks are sorted already.
abbrev pub written : Fold → SessionState
written s = record {
  through_seq = s.last_seq;
  messages = get_all s.message_order s.messages;
  tools = get_all s.tool_order s.tools;
  settled_entry_ids = s.settled_entry_ids;
  diagnostics = s.diagnostics;
}

pub finish_fold-written : (s : Fold) → finish_fold s ≡ written (sorted_fold s)
unfolding finish_fold
finish_fold-written s =
    λ i. record (written s) { messages = get_all-sorted s.message_order s.messages i }

pub finish_fold-Agree : (s t : Fold) → Agree s t → finish_fold s ≡ finish_fold t
finish_fold-Agree s t same = finish_fold-written s ∙ ap written same ∙ sym (finish_fold-written t)

finish_option-some :
    (o : Option Message) (m : Message)
    → finish_option o ≡ some m
    → (n : Message) × (o ≡ some n) × (finish_message n ≡ m)
finish_option-some none m e = absurd (ground arith)
finish_option-some (some n) m e = (n, refl, cc e)

pub Keyed-sorted :
    (s : Fold)
    → Keyed message_key DistinctBlocks s.message_order s.messages
    → Keyed message_key SortedBlocks s.message_order (sorted_fold s).messages
Keyed-sorted s h = record {
  at_key = λ id m e.
      let (n, found, same) = finish_option-some (s.messages id) m e in
      ap message_key (sym same) ∙ h.at_key id n found;
  good = λ id m e.
      let (n, found, same) = finish_option-some (s.messages id) m e in
      subst SortedBlocks same (sort_blocks-IsSorted n.blocks (h.good id n found));
  listed = λ id m e.
      let (n, found, same) = finish_option-some (s.messages id) m e in h.listed id n found;
  present = λ id m. elim (Option-cases (s.messages id)) [
    | inl absent ↦ absurd (ground (arith, h.present id m))
    | inr (n, found) ↦ rw found refl
  ];
}

pub sorted_fold-IsWellFormed :
    (n : ℕ) (s : Fold) → IsWellFormed n s → IsWellFormed n (sorted_fold s)
sorted_fold-IsWellFormed n s h =
    let sorted = Keyed-sorted s h.messages in
    record {
      messages = record {
        at_key = sorted.at_key;
        good = λ id m e. IsSorted-IsDistinct m.blocks (sorted.good id m e);
        listed = sorted.listed;
        present = sorted.present;
      };
      tools = h.tools;
      last = h.last;
      expected = h.expected;
    }
