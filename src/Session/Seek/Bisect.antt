-- ===== src/Session/Seek/Bisect.antt =====
-- The seek by time: seqAtOrBefore in src/workflows/session-reducer.ts.
use pi_workflows.Prelude.{
  ◌/◌, inr, sym, ltb, inl, ◌≤◌, ◌∙◌, ◌<◌, ◌+◌, length, get_elem?, String, Bool-cases, Bool, zero,
  true, refl, suc, false, [], ◌∷◌, ap, ℕ, Option, List, ◌≡◌, arith, some, none,
}
use pi_workflows.Session.{SessionEvent}
use pi_workflows.Session.Seek.{
  seq_at_or_before, passes, build_index, timestamps_from, later_of, entry_at_most, bisect,
  time_at_most, seq_of, seq_below, Timestamp, find_last,
}
use pi_workflows.Json.{Fields}

-- The first `n` entries are at most at the time asked for, and the others are later.
abbrev Splits : ℕ → ℕ → List Timestamp → Type 0
Splits ms n [] = n ≡ 0
Splits ms zero (t ∷ ts) = (time_at_most ms t ≡ false) × Splits ms zero ts
Splits ms (suc n) (t ∷ ts) = (time_at_most ms t ≡ true) × Splits ms n ts

-- The last entry at or before the time: the specification.
abbrev pub last_at_or_before : ℕ → List Timestamp → Option Timestamp
last_at_or_before ms times = find_last (time_at_most ms) times

none_after : (ms : ℕ) (ts : List Timestamp) → Splits ms 0 ts → last_at_or_before ms ts ≡ none
unfolding find_last
none_after ms [] s = refl
none_after ms (t ∷ ts) (no_it, s) = rw (none_after ms ts s, no_it, find_last)

last_found :
    (ms n : ℕ) (ts : List Timestamp)
    → Splits ms (suc n) ts
    → (y : Timestamp) × (get_elem? ts n ≡ some y) × (last_at_or_before ms ts ≡ some y)
unfolding find_last
last_found ms n [] s = absurd (omega arith)
last_found ms zero (t ∷ ts) (fits, s) = (t, refl, rw (none_after ms ts s, fits, find_last))
last_found ms (suc n) (t ∷ ts) (fits, s) =
    let (y, at, found) = last_found ms n ts s in (y, at, rw (found, find_last))

last_of_Splits :
    (ms n : ℕ) (ts : List Timestamp)
    → Splits ms n ts
    → seq_of (last_at_or_before ms ts) ≡ seq_below ts n
last_of_Splits ms zero [] s = ap seq_of (none_after ms [] s)
last_of_Splits ms zero (t ∷ ts) s = ap seq_of (none_after ms (t ∷ ts) s)
last_of_Splits ms (suc n) ts s =
    let (y, at, found) = last_found ms n ts s in ap seq_of (found ∙ sym at)

abbrev test : ℕ → List Timestamp → ℕ → Bool
test ms times i = entry_at_most ms (get_elem? times i)

abbrev Before : ℕ → List Timestamp → ℕ → Type 0
Before ms times n = (i : ℕ) → i < n → test ms times i ≡ true

abbrev After : ℕ → List Timestamp → ℕ → Type 0
After ms times n = (i : ℕ) → n ≤ i → test ms times i ≡ false

Splits-of_places :
    (ms n : ℕ) (ts : List Timestamp) → Before ms ts n → After ms ts n → Splits ms n ts
Splits-of_places ms zero [] b a = refl
Splits-of_places ms (suc n) [] b a = absurd (ground (arith, b 0))
Splits-of_places ms zero (t ∷ ts) b a = (
  a 0 (omega arith),
  Splits-of_places ms zero ts (λ i h. absurd (omega arith)) (λ i h. a (suc i) (omega arith)),
)
Splits-of_places ms (suc n) (t ∷ ts) b a = (
  b 0 (omega arith),
  Splits-of_places ms n ts (λ i h. b (suc i) (omega arith)) (λ i h. a (suc i) (omega arith)),
)

-- Where an entry passes the test, each entry before it does.
abbrev Monotone : ℕ → List Timestamp → Type 0
Monotone ms times = (i j : ℕ) → i ≤ j → test ms times j ≡ true → test ms times i ≡ true

module _ (ms : ℕ) (times : List Timestamp) (mono : Monotone ms times) where
  fails-After : (m : ℕ) → test ms times m ≡ false → After ms times m
  fails-After m no_it i le = elim (Bool-cases (test ms times i)) [
    | inl fits ↦ absurd (ground (arith, mono m i le fits))
    | inr no_fit ↦ no_fit
  ]

  holds-Before : (m : ℕ) → test ms times m ≡ true → Before ms times (m + 1)
  holds-Before m fits i lt = mono i m (omega arith) fits

  -- Enough fuel: the interval is at least halved in each round.
  bisect_places :
      (fuel low high : ℕ)
      → high ≤ low + fuel
      → low ≤ high
      → Before ms times low
      → After ms times high
      → Before ms times (bisect fuel times ms low high)
        × After ms times (bisect fuel times ms low high)
  unfolding bisect
  bisect_places zero low high f le b a = (b, λ i h. a i (omega arith))
  bisect_places (suc fuel) low high f le b a = elim (Bool-cases (ltb low high)) [
    | inr met ↦ rw met (b, λ i h. a i (ground arith))
    | inl apart ↦
        let lt : low < high = ground arith in
        elim (Bool-cases (test ms times ((low + high) / 2))) [
          | inl fits ↦
              rw (apart, fits)
                (bisect_places fuel ((low + high) / 2 + 1) high (omega arith) (omega arith)
                  (holds-Before ((low + high) / 2) fits) a)
          | inr fails ↦
              rw (apart, fails)
                (bisect_places fuel low ((low + high) / 2) (omega arith) (omega arith) b
                  (fails-After ((low + high) / 2) fails))
        ]
  ]

past_end : (ms : ℕ) (ts : List Timestamp) → After ms ts (length ts)
past_end ms [] i h = refl
past_end ms (t ∷ ts) zero h = absurd (omega arith)
past_end ms (t ∷ ts) (suc i) h = past_end ms ts i (omega arith)

module _ (parse_date : String → Option ℕ) (ms : ℕ) where
  passes_later :
      (last p : Option ℕ) → passes ms (later_of parse_date last p) ≡ true → passes ms last ≡ true
  passes_later none none h = refl
  passes_later none (some t) h = refl
  passes_later (some l) none h = h
  passes_later (some l) (some t) h = ground arith

  passes_first :
      (last : Option ℕ) (es : List SessionEvent) (j : ℕ)
      → test ms (timestamps_from parse_date last es) j ≡ true
      → passes ms last ≡ true
  unfolding timestamps_from
  passes_first last [] j h = absurd (ground arith)
  passes_first last (e ∷ es) zero h = passes_later last (parse_date e.at) h
  passes_first last (e ∷ es) (suc j) h =
      passes_later last (parse_date e.at)
        (passes_first (later_of parse_date last (parse_date e.at)) es j h)

  timestamps-Monotone :
      (last : Option ℕ) (es : List SessionEvent) → Monotone ms (timestamps_from parse_date last es)
  unfolding timestamps_from
  timestamps-Monotone last [] i j le h = absurd (ground arith)
  timestamps-Monotone last (e ∷ es) zero zero le h = h
  timestamps-Monotone last (e ∷ es) zero (suc j) le h =
      passes_first (later_of parse_date last (parse_date e.at)) es j h
  timestamps-Monotone last (e ∷ es) (suc i) zero le h = absurd (omega arith)
  timestamps-Monotone last (e ∷ es) (suc i) (suc j) le h =
      timestamps-Monotone (later_of parse_date last (parse_date e.at)) es i j (omega arith) h

  -- The search by time returns the number of the last event whose timestamp, made monotone by a
  -- running maximum, is at most the given time, and 0 where there is none.
  pub seq_at_or_before_lem :
      (entries : List Fields) (events : List SessionEvent) (interval : ℕ)
      → seq_at_or_before (build_index parse_date entries events interval) ms
        ≡ seq_of (last_at_or_before ms (timestamps_from parse_date none events))
  unfolding seq_at_or_before build_index
  seq_at_or_before_lem entries events interval =
      let times = timestamps_from parse_date none events in
      let n = bisect (length times) times ms 0 (length times) in
      let (before, after) =
        bisect_places ms times (timestamps-Monotone none events) (length times) 0 (length times)
          (omega arith) (omega arith) (λ i h. absurd (omega arith)) (past_end ms times) in
      sym (last_of_Splits ms n times (Splits-of_places ms n times before after))
