-- ===== src/CommandBatch/Once.antt =====
-- Which items of a batch a slot works on, and which have a result.
use pi_workflows.CommandBatch.{CommandBatchItem, CommandBatchRequest}
use pi_workflows.CommandBatch.Run.{
  throws, returns, item_result, stopped, notifying, looping, busy, run_item, is_stopped, enter_loop,
  Slot, ShellOutcome, CommandBatchItemResult, BatchState,
}
use pi_workflows.Prelude.{
  none, inr, inl, leb, ◌||◌, zero, refl, ◌⊎◌, suc, eqb, ap, ◌<◌, some, set, ltb, false, arith, [],
  ◌≤◌, ◌≡◌, ◌∷◌, ◌+◌, true, length, any, ℕ, get_elem?, Option, List, Bool-cases, Bool,
}

abbrev pub indicator : Bool → ℕ
indicator true = 1
indicator false = 0

abbrev pub works_on : ℕ → Slot → ℕ
works_on i (busy j) = indicator (eqb i j)
works_on i _ = 0

-- How many slots run the item `i`.
abbrev pub workers : ℕ → List Slot → ℕ
workers i [] = 0
workers i (s ∷ ss) = works_on i s + workers i ss

abbrev pub has_result : ℕ → List (Option CommandBatchItemResult) → ℕ
has_result i [] = 0
has_result zero (none ∷ rs) = 0
has_result zero (some r ∷ rs) = 1
has_result (suc i) (r ∷ rs) = has_result i rs

-- How many items have a result.
abbrev pub settled : List (Option CommandBatchItemResult) → ℕ
settled [] = 0
settled (none ∷ rs) = settled rs
settled (some r ∷ rs) = suc (settled rs)

-- Each result stands at its item.
abbrev pub Answers : List CommandBatchItem → List (Option CommandBatchItemResult) → Type 0
Answers [] [] = Unit
Answers (it ∷ is) (none ∷ rs) = Answers is rs
Answers (it ∷ is) (some r ∷ rs) = (r.id ≡ it.id) × Answers is rs
Answers [] (r ∷ rs) = ⊥
Answers (it ∷ is) [] = ⊥

pub workers-set :
    (i k : ℕ) (s t : Slot) (ss : List Slot)
    → get_elem? ss k ≡ some s
    → workers i (set ss k t) + works_on i s ≡ workers i ss + works_on i t
workers-set i k s t [] h = absurd (ground arith)
workers-set i zero s t (u ∷ ss) h = ground arith
workers-set i (suc k) s t (u ∷ ss) h = omega (arith, workers-set i k s t ss h)

has_result-set :
    (i j : ℕ) (r : CommandBatchItemResult) (rs : List (Option CommandBatchItemResult))
    → has_result j rs ≡ 0
    → j < length rs
    → has_result i (set rs j (some r)) ≡ has_result i rs + indicator (eqb i j)
has_result-set i j r [] h l = absurd (omega arith)
has_result-set zero zero r (none ∷ rs) h l = refl
has_result-set zero zero r (some q ∷ rs) h l = absurd (omega arith)
has_result-set (suc i) zero r (q ∷ rs) h l = ground arith
has_result-set zero (suc j) r (none ∷ rs) h l = ground arith
has_result-set zero (suc j) r (some q ∷ rs) h l = ground arith
has_result-set (suc i) (suc j) r (q ∷ rs) h l =
    ground (arith, has_result-set i j r rs h (omega arith))

settled-set :
    (j : ℕ) (r : CommandBatchItemResult) (rs : List (Option CommandBatchItemResult))
    → has_result j rs ≡ 0
    → j < length rs
    → settled (set rs j (some r)) ≡ suc (settled rs)
settled-set j r [] h l = absurd (omega arith)
settled-set zero r (none ∷ rs) h l = refl
settled-set zero r (some q ∷ rs) h l = absurd (omega arith)
settled-set (suc j) r (none ∷ rs) h l = settled-set j r rs h (omega arith)
settled-set (suc j) r (some q ∷ rs) h l = ap suc (settled-set j r rs h (omega arith))

Answers-set :
    (j : ℕ) (it : CommandBatchItem) (r : CommandBatchItemResult) (is : List CommandBatchItem)
    (rs : List (Option CommandBatchItemResult))
    → Answers is rs
    → get_elem? is j ≡ some it
    → r.id ≡ it.id
    → Answers is (set rs j (some r))
Answers-set j it r [] rs a h e = absurd (ground arith)
Answers-set j it r (i ∷ is) [] a h e = absurd a
Answers-set zero it r (i ∷ is) (none ∷ rs) a h e = (ground arith, a)
Answers-set zero it r (i ∷ is) (some q ∷ rs) a h e = (ground arith, a.1)
Answers-set (suc j) it r (i ∷ is) (none ∷ rs) a h e = Answers-set j it r is rs a h e
Answers-set (suc j) it r (i ∷ is) (some q ∷ rs) a h e = (a.0, Answers-set j it r is rs a.1 h e)

pub length-set {ℓ} : {A : Type ℓ} (xs : List A) (i : ℕ) (x : A) → length (set xs i x) ≡ length xs
length-set [] i x = refl
length-set (y ∷ xs) zero x = refl
length-set (y ∷ xs) (suc i) x = ap suc (length-set xs i x)

get_elem?-lt {ℓ} :
    {A : Type ℓ} (xs : List A) (i : ℕ) (x : A) → get_elem? xs i ≡ some x → i < length xs
get_elem?-lt [] i x h = absurd (ground arith)
get_elem?-lt (y ∷ xs) zero x h = omega arith
get_elem?-lt (y ∷ xs) (suc i) x h = omega (arith, get_elem?-lt xs i x h)

Answers-length :
    (is : List CommandBatchItem) (rs : List (Option CommandBatchItemResult))
    → Answers is rs
    → length rs ≡ length is
Answers-length [] [] a = refl
Answers-length [] (r ∷ rs) a = absurd a
Answers-length (i ∷ is) [] a = absurd a
Answers-length (i ∷ is) (none ∷ rs) a = ap suc (Answers-length is rs a)
Answers-length (i ∷ is) (some r ∷ rs) a = ap suc (Answers-length is rs a.1)

any_stopped-set :
    (k : ℕ) (t : Slot) (ss : List Slot)
    → any is_stopped (set ss k t) ≡ true
    → (is_stopped t ≡ true) ⊎ (any is_stopped ss ≡ true)
any_stopped-set k t [] h = absurd (ground arith)
any_stopped-set zero t (s ∷ ss) h = ground arith
any_stopped-set (suc k) t (s ∷ ss) h = ground (arith, any_stopped-set k t ss)

run_item-id : (it : CommandBatchItem) (o : ShellOutcome) → (run_item it o).id ≡ it.id
unfolding run_item item_result
run_item-id it (returns result) = refl
run_item-id it (throws e attached message) = refl

module _ (r : CommandBatchRequest) where
  -- An item below the next index is run by one slot or has a result, and not both; an item from
  -- it on has neither.
  pub record IsFair (s : BatchState) : Type 0 where
    pub once : (i : ℕ) → workers i s.slots + has_result i s.results ≡ indicator (ltb i s.next_index)
    pub answers : Answers r.items s.results
    pub counted : s.completed ≡ settled s.results
    pub bounded : s.next_index ≤ length r.items
    pub ends : any is_stopped s.slots ≡ true → (s.aborted ≡ true) ⊎ (s.next_index ≡ length r.items)
    pub manned : 1 ≤ r.max_concurrency → (length r.items ≡ 0) ⊎ (1 ≤ length s.slots)

  module _ (s : BatchState) (h : IsFair s) (k : ℕ) where
    pub enter_loop-IsFair : get_elem? s.slots k ≡ some looping → IsFair (enter_loop r k s)
    unfolding enter_loop
    enter_loop-IsFair at = elim (Bool-cases (s.aborted || leb (length r.items) s.next_index)) [
      | inl over ↦ rw over (record {
        once = λ i. omega (arith, workers-set i k looping stopped s.slots at, h.once i);
        answers = h.answers;
        counted = h.counted;
        bounded = h.bounded;
        ends = λ e. ground (arith, h.bounded);
        manned = λ m. ground (arith, h.manned m, length-set s.slots k stopped);
      })
      | inr on ↦ rw on (record {
        once =
            λ i. ground (arith, workers-set i k looping (busy s.next_index) s.slots at, h.once i);
        answers = h.answers;
        counted = h.counted;
        bounded = ground arith;
        ends = λ e. ground (arith, h.ends, any_stopped-set k (busy s.next_index) s.slots e);
        manned = λ m. ground (arith, h.manned m, length-set s.slots k (busy s.next_index));
      })
    ]

    busy_without_result : (i : ℕ) → get_elem? s.slots k ≡ some (busy i) → has_result i s.results ≡ 0
    busy_without_result i at =
        ground (arith, workers-set i k (busy i) notifying s.slots at, h.once i)

    pub settle-IsFair :
        (i : ℕ) (it : CommandBatchItem) (o : ShellOutcome)
        → get_elem? s.slots k ≡ some (busy i)
        → get_elem? r.items i ≡ some it
        → IsFair (record s {
          results = set s.results i (some (run_item it o));
          completed = suc s.completed;
          slots = set s.slots k notifying;
        })
    settle-IsFair i it o at item =
        let fresh = busy_without_result i at in
        let inside = Answers-length r.items s.results h.answers in
        let bound = get_elem?-lt r.items i it item in
        record {
          once = λ j. omega (
            arith,
            workers-set j k (busy i) notifying s.slots at,
            h.once j,
            has_result-set j i (run_item it o) s.results fresh (omega (arith, inside, bound)),
          );
          answers =
              Answers-set i it (run_item it o) r.items s.results h.answers item (run_item-id it o);
          counted = omega (
            arith,
            h.counted,
            settled-set i (run_item it o) s.results fresh (omega (arith, inside, bound)),
          );
          bounded = h.bounded;
          ends = λ e. ground (arith, h.ends, any_stopped-set k notifying s.slots e);
          manned = λ m. ground (arith, h.manned m, length-set s.slots k notifying);
        }

    pub notified-IsFair :
        get_elem? s.slots k ≡ some notifying → IsFair (record s { slots = set s.slots k looping })
    notified-IsFair at = record {
      once = λ i. omega (arith, workers-set i k notifying looping s.slots at, h.once i);
      answers = h.answers;
      counted = h.counted;
      bounded = h.bounded;
      ends = λ e. ground (arith, h.ends, any_stopped-set k looping s.slots e);
      manned = λ m. ground (arith, h.manned m, length-set s.slots k looping);
    }
