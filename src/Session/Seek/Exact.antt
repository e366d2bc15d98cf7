-- ===== src/Session/Seek/Exact.antt =====
-- The seek by sequence number: stateAtSeq in src/workflows/session-reducer.ts.
use pi_workflows.Prelude.{
  refl, ◌-◌, ◌∙◌, inr, leb, inl, ap, [], ◌≤◌, ◌∷◌, true, ℕ, String, Option-cases, Option, List,
  Bool-cases, Bool, All, ◌≡◌, arith, some, none,
}
use pi_workflows.Session.{SessionState, SessionEvent}
use pi_workflows.Session.Seek.{
  state_of, state_at_seq, checkpoints_from, build_index, Checkpoint, Ascending, find_last,
}
use pi_workflows.Json.{Fields}
use pi_workflows.Session.Continue.{reduce_from_checkpoint-reduce}
use pi_workflows.Session.Fold.{
  reduce_session_events_from_checkpoint, reduce_session_events, fold_session_events,
}
use mathlib.Core.Path.{subst}

Ascending-weaken : (p q : ℕ) (es : List SessionEvent) → p ≤ q → Ascending q es → Ascending p es
Ascending-weaken p q [] h a = tt
Ascending-weaken p q (e ∷ es) h (l, a) = (omega arith, a)

find_last-All :
    {A : Type 0} (P : A → Type 0) (test : A → Bool) (xs : List A) (y : A)
    → All P xs
    → find_last test xs ≡ some y
    → P y × (test y ≡ true)
unfolding find_last
find_last-All P test [] y a h = absurd (ground arith)
find_last-All P test (x ∷ xs) y (p, a) h = elim (Option-cases (find_last test xs)) [
  | inl absent ↦ elim (Bool-cases (test x)) [
    | inl fits ↦
        let same : x ≡ y = cc (rw (absent, fits, find_last) at h) in
        subst (λ z. P z × (test z ≡ true)) same (p, fits)
    | inr not_it ↦ absurd (ground arith)
  ]
  | inr (z, found) ↦ find_last-All P test xs y a (found ∙ (rw (found, find_last) at h))
]

module _ (parse_date : String → Option ℕ) (entries : List Fields) (events : List SessionEvent)
    (interval : ℕ) where
  abbrev IsExact : Checkpoint → Type 0
  IsExact c = c.state ≡ reduce_session_events entries events c.seq

  continued :
      (p q : ℕ) (state : SessionState)
      → p ≤ q
      → state ≡ reduce_session_events entries events p
      → fold_session_events entries events q (some state) ≡ reduce_session_events entries events q
  continued p q state le exact =
      ap (λ s. fold_session_events entries events q (some s)) exact
      ∙ unfold reduce_session_events_from_checkpoint in
        reduce_from_checkpoint-reduce entries events p q le

  checkpoints_from-IsExact :
      (left p : ℕ) (es : List SessionEvent) (state : SessionState)
      → Ascending p es
      → state ≡ reduce_session_events entries events p
      → All IsExact (checkpoints_from parse_date entries events interval left es state)
  unfolding checkpoints_from
  checkpoints_from-IsExact left p [] state a exact = tt
  checkpoints_from-IsExact left p (e ∷ es) state (le, a) exact = elim (Bool-cases (leb left 1)) [
    | inl at_end ↦
        let next = continued p e.seq state le exact in
        rw at_end (next, checkpoints_from-IsExact interval e.seq es _ a next)
    | inr before ↦
        rw before
          (checkpoints_from-IsExact (left - 1) p es state (Ascending-weaken p e.seq es le a) exact)
  ]

  -- For events in ascending order, the state that the index seeks for a sequence number is the
  -- fold of all the events through it, whatever the interval of the checkpoints.
  pub state_at_seq-reduce :
      (through : ℕ)
      → Ascending 0 events
      → state_at_seq (build_index parse_date entries events interval) through
        ≡ reduce_session_events entries events through
  unfolding state_at_seq build_index
  state_at_seq-reduce through a =
      let start = fold_session_events entries events 0 none in
      let all : List Checkpoint =
        record { seq = 0; state = start }
        ∷ checkpoints_from parse_date entries events interval interval events start in
      let exact : All IsExact all = (
        unfold reduce_session_events in refl,
        checkpoints_from-IsExact interval 0 events start a (unfold reduce_session_events in refl),
      ) in
      elim (Option-cases (find_last (λ c. leb c.seq through) all)) [
        | inl absent ↦
            ap (λ o. fold_session_events entries events through (state_of o)) absent
            ∙ (unfold reduce_session_events in refl)
        | inr (c, found) ↦
            let (same, fits) = find_last-All IsExact (λ c. leb c.seq through) all c exact found in
            ap (λ o. fold_session_events entries events through (state_of o)) found
            ∙ continued c.seq through c.state (ground arith) same
      ]
