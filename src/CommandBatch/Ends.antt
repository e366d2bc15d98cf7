-- ===== src/CommandBatch/Ends.antt =====
-- Every run of a batch ends: each piece of it lowers a measure, and there is one while a slot has
-- not returned.
use pi_workflows.CommandBatch.{CommandBatchItem, CommandBatchRequest}
use pi_workflows.CommandBatch.Run.{
  settled_state, settle, start_batch, settle_at, notified_at, loop_at, finish_batch, batch_result,
  CommandBatchResult, BatchReaches, notified, settles, notifying, loops, looping, aborts, stopped,
  busy, step_batch, is_stopped, enter_loop, Slot, ShellOutcome, BatchState, BatchEvent,
}
use pi_workflows.Prelude.{
  none, Option, inr, inl, leb, ◌||◌, zero, refl, ◌⊎◌, suc, ◌-◌, set, arith, [], ◌+◌, some, length,
  false, ◌≡◌, ◌∷◌, ◌<◌, ◌*◌, true, all, ℕ, get_elem?, List, Bool-cases, Bool,
}
use pi_workflows.CommandBatch.Finish.{BatchReaches-IsFair}
use pi_workflows.CommandBatch.Once.{workers-set, IsFair}
use mathlib.Core.Path.{subst}

abbrev weight : Slot → ℕ
weight stopped = 0
weight looping = 1
weight notifying = 2
weight (busy i) = 3

abbrev pub weights : List Slot → ℕ
weights [] = 0
weights (s ∷ ss) = weight s + weights ss

abbrev pub is_abort : BatchEvent → Bool
is_abort aborts = true
is_abort _ = false

weights-set :
    (k : ℕ) (s t : Slot) (ss : List Slot)
    → get_elem? ss k ≡ some s
    → weights (set ss k t) + weight s ≡ weights ss + weight t
weights-set k s t [] h = absurd (ground arith)
weights-set zero s t (u ∷ ss) h = ground arith
weights-set (suc k) s t (u ∷ ss) h = omega (arith, weights-set k s t ss h)

unstopped :
    (ss : List Slot)
    → all is_stopped ss ≡ false
    → (k : ℕ) × (s : Slot) × (get_elem? ss k ≡ some s) × (is_stopped s ≡ false)
unstopped [] h = absurd (ground arith)
unstopped (looping ∷ ss) h = (0, looping, refl, refl)
unstopped (notifying ∷ ss) h = (0, notifying, refl, refl)
unstopped (busy i ∷ ss) h = (0, busy i, refl, refl)
unstopped (stopped ∷ ss) h = let (k, s, at, on) = unstopped ss h in (suc k, s, at, on)

get_elem?-some {ℓ} :
    {A : Type ℓ} (xs : List A) (i : ℕ) → i < length xs → (x : A) × (get_elem? xs i ≡ some x)
get_elem?-some [] i l = absurd (omega arith)
get_elem?-some (x ∷ xs) zero l = (x, refl)
get_elem?-some (x ∷ xs) (suc i) l = get_elem?-some xs i (omega arith)

module _ (r : CommandBatchRequest) where
  -- The pieces that are left to a run at most: three for an unclaimed item, and what the slots
  -- still have to do.
  unfoldable pub work_left : BatchState → ℕ
  work_left s = 3 * (length r.items - s.next_index) + weights s.slots

  module _ (s : BatchState) (k : ℕ) where
    enter_loop-work_left :
        get_elem? s.slots k ≡ some looping → suc (work_left (enter_loop r k s)) ≡ work_left s
    unfolding enter_loop work_left
    enter_loop-work_left at = elim (Bool-cases (s.aborted || leb (length r.items) s.next_index)) [
      | inl over ↦ rw over (ground (arith, weights-set k looping stopped s.slots at))
      | inr on ↦ rw on (ground (arith, weights-set k looping (busy s.next_index) s.slots at))
    ]

    loop_at-work_left :
        (s' : BatchState) (o : Option Slot)
        → get_elem? s.slots k ≡ o
        → loop_at r k o s ≡ some s'
        → suc (work_left s') ≡ work_left s
    loop_at-work_left s' (some looping) at step =
        subst (λ v. suc (work_left v) ≡ work_left s) (ground arith) (enter_loop-work_left at)
    loop_at-work_left s' none at step = absurd (ground arith)
    loop_at-work_left s' (some notifying) at step = absurd (ground arith)
    loop_at-work_left s' (some stopped) at step = absurd (ground arith)
    loop_at-work_left s' (some (busy i)) at step = absurd (ground arith)

    notified_at-work_left :
        (s' : BatchState) (o : Option Slot)
        → get_elem? s.slots k ≡ o
        → notified_at r k o s ≡ some s'
        → suc (work_left s') ≡ work_left s
    unfolding work_left
    notified_at-work_left s' (some notifying) at step =
        let is : record s { slots = set s.slots k looping } ≡ s' = ground arith in
        subst (λ v. suc (work_left v) ≡ work_left s) is
          (omega (arith, weights-set k notifying looping s.slots at))
    notified_at-work_left s' none at step = absurd (ground arith)
    notified_at-work_left s' (some looping) at step = absurd (ground arith)
    notified_at-work_left s' (some stopped) at step = absurd (ground arith)
    notified_at-work_left s' (some (busy i)) at step = absurd (ground arith)

    settle-work_left :
        (s' : BatchState) (i : ℕ) (o : ShellOutcome) (it : Option CommandBatchItem)
        → get_elem? s.slots k ≡ some (busy i)
        → settle r k i it o s ≡ some s'
        → suc (work_left s') ≡ work_left s
    unfolding work_left
    settle-work_left s' i o none at step = absurd (ground arith)
    settle-work_left s' i o (some it) at step =
        let is : settled_state r s k i it o ≡ s' = ground arith in
        subst (λ v. suc (work_left v) ≡ work_left s) is
          (omega (arith, weights-set k (busy i) notifying s.slots at))

    settle_at-work_left :
        (s' : BatchState) (slot : Option Slot) (o : ShellOutcome)
        → get_elem? s.slots k ≡ slot
        → settle_at r k slot o s ≡ some s'
        → suc (work_left s') ≡ work_left s
    settle_at-work_left s' (some (busy i)) o at step =
        settle-work_left s' i o (get_elem? r.items i) at step
    settle_at-work_left s' none o at step = absurd (ground arith)
    settle_at-work_left s' (some looping) o at step = absurd (ground arith)
    settle_at-work_left s' (some stopped) o at step = absurd (ground arith)
    settle_at-work_left s' (some notifying) o at step = absurd (ground arith)

    -- A slot that has not returned has a piece to run, however its command ends.
    slot_steps :
        (o : ShellOutcome) (slot : Slot)
        → IsFair r s
        → get_elem? s.slots k ≡ some slot
        → is_stopped slot ≡ false
        → (e : BatchEvent) × (s' : BatchState) × (is_abort e ≡ false) × (step_batch r e s ≡ some s')
    unfolding step_batch
    slot_steps o stopped h at on = absurd (ground arith)
    slot_steps o looping h at on = (loops k, enter_loop r k s, refl, rw at)
    slot_steps o notifying h at on =
        (notified k, record s { slots = set s.slots k looping }, refl, rw at)
    slot_steps o (busy i) h at on =
        let in_range : i < s.next_index =
          ground (arith, workers-set i k (busy i) notifying s.slots at, h.once i) in
        let (it, found) = get_elem?-some r.items i (omega (arith, h.bounded)) in
        (settles k o, settled_state r s k i it o, refl, rw (at, found))

  -- Each piece of a run but an abort lowers the measure by one.
  step_batch-work_left :
      (e : BatchEvent) (s s' : BatchState)
      → is_abort e ≡ false
      → step_batch r e s ≡ some s'
      → suc (work_left s') ≡ work_left s
  unfolding step_batch
  step_batch-work_left aborts s s' calm step = absurd (ground arith)
  step_batch-work_left (loops k) s s' calm step =
      loop_at-work_left s k s' (get_elem? s.slots k) refl step
  step_batch-work_left (settles k o) s s' calm step =
      settle_at-work_left s k s' (get_elem? s.slots k) o refl step
  step_batch-work_left (notified k) s s' calm step =
      notified_at-work_left s k s' (get_elem? s.slots k) refl step

  -- A batch cannot hang: in every state of a run, either it returns its result, or a piece other
  -- than an abort can run, whichever way the commands end; and every piece other than an abort that
  -- can run takes just one from the work left, so no run has more than `work_left` of them.
  pub batch_ends :
      (aborted : Bool) (s : BatchState) (o : ShellOutcome)
      → BatchReaches r (start_batch r aborted) s
      → (((result : CommandBatchResult) × (finish_batch r s ≡ some result))
          ⊎ ((e : BatchEvent) × (s' : BatchState) × (is_abort e ≡ false)
              × (step_batch r e s ≡ some s')))
        × ((e : BatchEvent) (s' : BatchState)
            → is_abort e ≡ false
            → step_batch r e s ≡ some s'
            → suc (work_left s') ≡ work_left s)
  unfolding finish_batch
  batch_ends aborted s o reached = (
    elim (Bool-cases (all is_stopped s.slots)) [
      | inl over ↦ inl (batch_result r s, rw over)
      | inr on ↦
          let (k, slot, at, moving) = unstopped s.slots on in
          let (e, s', calm, step) =
            slot_steps s k o slot (BatchReaches-IsFair r aborted s reached) at moving in
          inr (e, s', calm, step)
    ],
    λ e s' calm step. step_batch-work_left e s s' calm step,
  )
