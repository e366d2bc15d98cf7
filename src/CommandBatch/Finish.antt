-- ===== src/CommandBatch/Finish.antt =====
-- What a batch returns, whatever the order in which its commands end.
use pi_workflows.CommandBatch.{CommandBatchItem, CommandBatchRequest}
use pi_workflows.CommandBatch.Once.{
  settle-IsFair, notified-IsFair, indicator, enter_loop-IsFair, workers, settled, has_result,
  IsFair, Answers,
}
use pi_workflows.CommandBatch.Run.{
  batch_result, aborts, notified, begins, steps, settles, settle, settle_at, notified_at, loops,
  loop_at, finish_batch, ShellOutcome, CommandBatchResult, BatchReaches, notifying, stopped, busy,
  looping, repeat, step_batch, start_batch, item_result, is_stopped, fill_results, cancelled_result,
  Slot, CommandBatchItemResult, BatchState, BatchEvent,
}
use pi_workflows.Prelude.{
  inr, ◌⊎◌, ◌∙◌, Bool-cases, ◌≤◌, ◌+◌, inl, get_elem?, zero, sym, refl, suc, false, arith, ap, [],
  ◌∷◌, true, some, none, ltb, length, leb, ◌≡◌, map, if◌then◌else◌, any, all, ℕ, Option, List, Bool,
}
use mathlib.Core.Path.{subst}

workers-repeat : (i n : ℕ) → workers i (repeat n looping) ≡ 0
workers-repeat i zero = refl
workers-repeat i (suc n) = omega (arith, workers-repeat i n)

length-repeat {ℓ} : {A : Type ℓ} (n : ℕ) (x : A) → length (repeat n x) ≡ n
length-repeat zero x = refl
length-repeat (suc n) x = ap suc (length-repeat n x)

any-repeat : (n : ℕ) → any is_stopped (repeat n looping) ≡ false
any-repeat zero = refl
any-repeat (suc n) = any-repeat n

has_result-repeat : (i n : ℕ) → has_result i (repeat n none) ≡ 0
has_result-repeat i zero = refl
has_result-repeat zero (suc n) = refl
has_result-repeat (suc i) (suc n) = has_result-repeat i n

settled-repeat : (n : ℕ) → settled (repeat n none) ≡ 0
settled-repeat zero = refl
settled-repeat (suc n) = settled-repeat n

repeat-Answers : (is : List CommandBatchItem) → Answers is (repeat (length is) none)
repeat-Answers [] = tt
repeat-Answers (i ∷ is) = repeat-Answers is

workers-stopped : (i : ℕ) (ss : List Slot) → all is_stopped ss ≡ true → workers i ss ≡ 0
workers-stopped i [] h = refl
workers-stopped i (stopped ∷ ss) h = omega (arith, workers-stopped i ss h)
workers-stopped i (looping ∷ ss) h = absurd (ground arith)
workers-stopped i (notifying ∷ ss) h = absurd (ground arith)
workers-stopped i (busy j ∷ ss) h = absurd (ground arith)

-- A state as far as the results go: the first `n` are there.
settled_first :
    (n : ℕ) (rs : List (Option CommandBatchItemResult))
    → ((i : ℕ) → has_result i rs ≡ indicator (ltb i n))
    → settled rs ≡ n
settled_first zero [] h = refl
settled_first (suc n) [] h = absurd (ground (arith, h 0))
settled_first zero (none ∷ rs) h = settled_first zero rs (λ i. ground (arith, h (suc i)))
settled_first (suc n) (none ∷ rs) h = absurd (ground (arith, h 0))
settled_first zero (some r ∷ rs) h = absurd (ground (arith, h 0))
settled_first (suc n) (some r ∷ rs) h = ap suc (settled_first n rs (λ i. ground (arith, h (suc i))))

fill_results-id :
    (is : List CommandBatchItem) (rs : List (Option CommandBatchItemResult))
    → Answers is rs
    → map CommandBatchItemResult.id (fill_results is rs) ≡ map CommandBatchItem.id is
unfolding fill_results cancelled_result item_result
fill_results-id [] rs a = refl
fill_results-id (i ∷ is) [] a = absurd a
fill_results-id (i ∷ is) (none ∷ rs) a = ap (λ ids. i.id ∷ ids) (fill_results-id is rs a)
fill_results-id (i ∷ is) (some r ∷ rs) a = cc (a.0, fill_results-id is rs a.1)

any-all {ℓ} :
    {A : Type ℓ} (p : A → Bool) (xs : List A)
    → all p xs ≡ true
    → (length xs ≡ 0) ⊎ (any p xs ≡ true)
any-all p [] h = inl refl
any-all p (x ∷ xs) h = ground arith

module _ (r : CommandBatchRequest) where
  start_batch-IsFair : (aborted : Bool) → IsFair r (start_batch r aborted)
  unfolding start_batch
  start_batch-IsFair aborted =
      let n =
        if leb r.max_concurrency (length r.items) then r.max_concurrency else length r.items in
      record {
        once = λ i. ground (arith, workers-repeat i n, has_result-repeat i (length r.items));
        answers = repeat-Answers r.items;
        counted = sym (settled-repeat (length r.items));
        bounded = omega arith;
        ends = λ e. absurd (ground (arith, any-repeat n));
        manned = λ m. ground (arith, length-repeat n looping);
      }

  module _ (s s' : BatchState) (h : IsFair r s) (k : ℕ) where
    loop_at-IsFair :
        (o : Option Slot) → get_elem? s.slots k ≡ o → loop_at r k o s ≡ some s' → IsFair r s'
    loop_at-IsFair (some looping) at step =
        subst (IsFair r) (ground arith) (enter_loop-IsFair r s h k at)
    loop_at-IsFair none at step = absurd (ground arith)
    loop_at-IsFair (some notifying) at step = absurd (ground arith)
    loop_at-IsFair (some stopped) at step = absurd (ground arith)
    loop_at-IsFair (some (busy i)) at step = absurd (ground arith)

    notified_at-IsFair :
        (o : Option Slot) → get_elem? s.slots k ≡ o → notified_at r k o s ≡ some s' → IsFair r s'
    notified_at-IsFair (some notifying) at step =
        subst (IsFair r) (ground arith) (notified-IsFair r s h k at)
    notified_at-IsFair none at step = absurd (ground arith)
    notified_at-IsFair (some looping) at step = absurd (ground arith)
    notified_at-IsFair (some stopped) at step = absurd (ground arith)
    notified_at-IsFair (some (busy i)) at step = absurd (ground arith)

    settle_item-IsFair :
        (i : ℕ) (o : ShellOutcome) (it : Option CommandBatchItem)
        → get_elem? s.slots k ≡ some (busy i)
        → get_elem? r.items i ≡ it
        → settle r k i it o s ≡ some s'
        → IsFair r s'
    settle_item-IsFair i o none at item step = absurd (ground arith)
    settle_item-IsFair i o (some it) at item step =
        subst (IsFair r) (ground arith) (settle-IsFair r s h k i it o at item)

    settle_at-IsFair :
        (slot : Option Slot) (o : ShellOutcome)
        → get_elem? s.slots k ≡ slot
        → settle_at r k slot o s ≡ some s'
        → IsFair r s'
    settle_at-IsFair (some (busy i)) o at step =
        settle_item-IsFair i o (get_elem? r.items i) at refl step
    settle_at-IsFair none o at step = absurd (ground arith)
    settle_at-IsFair (some looping) o at step = absurd (ground arith)
    settle_at-IsFair (some stopped) o at step = absurd (ground arith)
    settle_at-IsFair (some notifying) o at step = absurd (ground arith)

  abort-IsFair : (s : BatchState) → IsFair r s → IsFair r (record s { aborted = true })
  abort-IsFair s h = record {
    once = h.once;
    answers = h.answers;
    counted = h.counted;
    bounded = h.bounded;
    ends = λ e. inl refl;
    manned = h.manned;
  }

  step_batch-IsFair :
      (e : BatchEvent) (s s' : BatchState) → IsFair r s → step_batch r e s ≡ some s' → IsFair r s'
  unfolding step_batch
  step_batch-IsFair (loops k) s s' h step = loop_at-IsFair s s' h k (get_elem? s.slots k) refl step
  step_batch-IsFair (settles k o) s s' h step =
      settle_at-IsFair s s' h k (get_elem? s.slots k) o refl step
  step_batch-IsFair (notified k) s s' h step =
      notified_at-IsFair s s' h k (get_elem? s.slots k) refl step
  step_batch-IsFair aborts s s' h step = subst (IsFair r) (ground arith) (abort-IsFair s h)

  pub BatchReaches-IsFair :
      (aborted : Bool) (s : BatchState) → BatchReaches r (start_batch r aborted) s → IsFair r s
  BatchReaches-IsFair aborted s begins = start_batch-IsFair aborted
  BatchReaches-IsFair aborted s (steps {u} e reached step) =
      step_batch-IsFair e u s (BatchReaches-IsFair aborted u reached) step

  -- In any interleaving of the slots, no two of them run the same item, and none runs an item that
  -- has a result.
  pub items_run_once :
      (aborted : Bool) (s : BatchState) (i : ℕ)
      → BatchReaches r (start_batch r aborted) s
      → workers i s.slots + has_result i s.results ≤ 1
  items_run_once aborted s i reached =
      ground (arith, (BatchReaches-IsFair aborted s reached).once i)

  settled_next :
      (s : BatchState) → IsFair r s → all is_stopped s.slots ≡ true → s.completed ≡ s.next_index
  settled_next s h over =
      h.counted
      ∙ settled_first s.next_index s.results
          (λ i. omega (arith, workers-stopped i s.slots over, h.once i))

  finished :
      (s : BatchState) (result : CommandBatchResult)
      → finish_batch r s ≡ some result
      → (all is_stopped s.slots ≡ true) × (batch_result r s ≡ result)
  unfolding finish_batch
  finished s result f = elim (Bool-cases (all is_stopped s.slots)) [
    | inl over ↦ (over, ground arith)
    | inr not_over ↦ absurd (ground arith)
  ]

  -- When every slot of a batch has returned, in any interleaving, the batch returns one result for
  -- each item, in the order of the items, and counts as completed the items that were started.
  pub finish_batch_lem :
      (aborted : Bool) (s : BatchState) (result : CommandBatchResult)
      → BatchReaches r (start_batch r aborted) s
      → finish_batch r s ≡ some result
      → (map CommandBatchItemResult.id result.items ≡ map CommandBatchItem.id r.items)
        × (result.completed ≡ s.next_index)
        × (result.completed ≤ result.total)
  finish_batch_lem aborted s result reached f =
      let h = BatchReaches-IsFair aborted s reached in
      let (over, is) = finished s result f in
      subst
        (λ v.
          (map CommandBatchItemResult.id v.items ≡ map CommandBatchItem.id r.items)
          × (v.completed ≡ s.next_index)
          × (v.completed ≤ v.total))
        is
        (
          fill_results-id r.items s.results h.answers,
          settled_next s h over,
          omega (arith, settled_next s h over, h.bounded),
        )

  -- A batch that nothing aborted, with a limit of at least one slot, completes every item.
  pub unaborted_batch :
      (aborted : Bool) (s : BatchState) (result : CommandBatchResult)
      → 1 ≤ r.max_concurrency
      → BatchReaches r (start_batch r aborted) s
      → finish_batch r s ≡ some result
      → s.aborted ≡ false
      → result.completed ≡ result.total
  unaborted_batch aborted s result m reached f on =
      let h = BatchReaches-IsFair aborted s reached in
      let (over, is) = finished s result f in
      subst (λ v. v.completed ≡ v.total) is
        (ground (
          arith,
          settled_next s h over,
          h.bounded,
          h.manned m,
          h.ends,
          any-all is_stopped s.slots over,
        ))
