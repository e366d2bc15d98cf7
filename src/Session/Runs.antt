-- ===== src/Session/Runs.antt =====
-- Runs of the loop over the events in src/workflows/session-reducer.ts.
use pi_workflows.Prelude.{
  true, false, ◌∙◌, ap, refl, ltb, inr, inl, sym, leb, [], ◌≤◌, ◌∷◌, ℕ, String, List, Bool-cases,
  ◌≡◌, arith,
}
use pi_workflows.Session.Step.{Fold}
use pi_workflows.Session.{SessionEvent}
use pi_workflows.Session.Fold.{empty_fold, step_event, run_events}
use pi_workflows.Session.Keep.{
  DistinctBlocks, tool_key, message_key, AnyTool, step_event-IsWellFormed, IsWellFormed,
}
use mathlib.Core.Path.{subst}
use pi_workflows.Session.Keyed.{Keyed-empty}

abbrev pub Formed : Fold → Type 0
Formed s = IsWellFormed s.last_seq s

pub formed : (n : ℕ) (s : Fold) → IsWellFormed n s → Formed s
formed n s h = subst (λ k. IsWellFormed k s) (sym h.last) h

pub run_events-Formed :
    (known : List String) (es : List SessionEvent) (through : ℕ) (s : Fold)
    → Formed s
    → Formed (run_events known es through s)
unfolding run_events
run_events-Formed known [] through s h = h
run_events-Formed known (e ∷ es) through s h = elim (Bool-cases (leb e.seq s.last_seq)) [
  | inl seen ↦ rw seen (run_events-Formed known es through s h)
  | inr unseen ↦ elim (Bool-cases (ltb through e.seq)) [
    | inl past ↦ rw (unseen, past) h
    | inr due ↦
        rw (unseen, due)
          (run_events-Formed known es through (step_event known e s)
            (formed e.seq (step_event known e s) (step_event-IsWellFormed known e s.last_seq s h)))
  ]
]

-- The place in the sequence only grows.
last_seq-run_events :
    (known : List String) (es : List SessionEvent) (through : ℕ) (s : Fold)
    → Formed s
    → s.last_seq ≤ (run_events known es through s).last_seq
unfolding run_events
last_seq-run_events known [] through s h = omega arith
last_seq-run_events known (e ∷ es) through s h =
    let stepped = step_event-IsWellFormed known e s.last_seq s h in
    ground (
      arith,
      last_seq-run_events known es through s h,
      last_seq-run_events known es through (step_event known e s)
          (formed e.seq (step_event known e s) stepped),
      stepped.last,
    )

module _ (known : List String) (e : SessionEvent) (es : List SessionEvent) (through : ℕ)
    (s : Fold) where
  pub run_seen :
      leb e.seq s.last_seq ≡ true
      → run_events known (e ∷ es) through s ≡ run_events known es through s
  unfolding run_events
  run_seen seen = rw seen

  pub run_past :
      leb e.seq s.last_seq ≡ false
      → ltb through e.seq ≡ true
      → run_events known (e ∷ es) through s ≡ s
  unfolding run_events
  run_past unseen past = rw (unseen, past)

  pub run_due :
      leb e.seq s.last_seq ≡ false
      → ltb through e.seq ≡ false
      → run_events known (e ∷ es) through s ≡ run_events known es through (step_event known e s)
  unfolding run_events
  run_due unseen due = rw (unseen, due)

-- To run to `k` and on to `through` is to run to `through`.
pub run_events_twice :
    (known : List String) (es : List SessionEvent) (k through : ℕ) (s : Fold)
    → Formed s
    → k ≤ through
    → run_events known es through (run_events known es k s) ≡ run_events known es through s
run_events_twice known [] k through s h le = unfold run_events in refl
run_events_twice known (e ∷ es) k through s h le = elim (Bool-cases (leb e.seq s.last_seq)) [
  | inl seen ↦
      ap (run_events known (e ∷ es) through) (run_seen known e es k s seen)
      ∙ run_seen known e es through _ (ground (arith, last_seq-run_events known es k s h))
      ∙ run_events_twice known es k through s h le
      ∙ sym (run_seen known e es through s seen)
  | inr unseen ↦ elim (Bool-cases (ltb k e.seq)) [
    | inl past ↦ ap (run_events known (e ∷ es) through) (run_past known e es k s unseen past)
    | inr due ↦
        let step = step_event-IsWellFormed known e s.last_seq s h in
        let stepped = formed e.seq (step_event known e s) step in
        ap (run_events known (e ∷ es) through) (run_due known e es k s unseen due)
        ∙ run_seen known e es through _ (
            ground
              (arith, last_seq-run_events known es k (step_event known e s) stepped, step.last))
        ∙ run_events_twice known es k through (step_event known e s) stepped le
        ∙ sym (run_due known e es through s unseen (ground arith))
  ]
]

pub empty_fold-Formed : Formed empty_fold
empty_fold-Formed = record {
  messages = Keyed-empty message_key DistinctBlocks;
  tools = Keyed-empty tool_key AnyTool;
  last = refl;
  expected = refl;
}
