-- ===== src/AttemptTime/Anchors.antt =====
-- The anchors of a process under the writes of src/state/attempt-time.ts.
use pi_workflows.AttemptTime.{
  observe, close, set_anchor, sample_intervals, sample_interval, keep_anchors, is_open, is_at,
  find_anchor, close_where, TimeState, Clock, Anchor, Interval,
}
use pi_workflows.Prelude.{
  sym, refl, false, ◌&&◌, true, some, ok, inr, [], ◌≡◌, ◌∷◌, map, inl, if◌then◌else◌, arith, any, ℕ,
  or_else, is_some, find_first, eq_iff, String, Option-cases, List, Bool-cases, Bool, All,
}
use mathlib.Core.Path.{subst}

-- The interval has ended or has its anchor.
abbrev pub HasAnchor : List Anchor → Interval → Type 0
HasAnchor anchors i =
    is_open i ≡ true → is_some (find_anchor i.attempt_id i.interval_number anchors) ≡ true

abbrev pub IsAnchored : TimeState → Type 0
IsAnchored s = All (HasAnchor s.anchors) s.intervals

pub find_anchor-set_anchor :
    (id : String) (n : ℕ) (a : Anchor) (as' : List Anchor)
    → find_anchor id n (set_anchor a as')
      ≡ (if is_at a.attempt_id a.interval_number id n then some a.at else find_anchor id n as')
unfolding find_anchor set_anchor is_at
find_anchor-set_anchor id n a [] = refl
find_anchor-set_anchor id n a (b ∷ as') = ground (
  arith,
  find_anchor-set_anchor id n a as',
  eq_iff a.attempt_id id,
  eq_iff b.attempt_id a.attempt_id,
  eq_iff b.attempt_id id,
)

pub All-map {ℓ κ} :
    {A : Type ℓ} {P Q : A → Type κ} (xs : List A) → ((x : A) → P x → Q x) → All P xs → All Q xs
All-map [] f h = tt
All-map (x ∷ xs) f h = (f x (h.0), All-map xs f (h.1))

-- A new anchor takes none away.
pub HasAnchor-set_anchor :
    (a : Anchor) (as' : List Anchor) (i : Interval)
    → HasAnchor as' i
    → HasAnchor (set_anchor a as') i
HasAnchor-set_anchor a as' i h o =
    ground (arith, find_anchor-set_anchor i.attempt_id i.interval_number a as', h o)

pub new_anchor :
    (a : Anchor) (as' : List Anchor)
    → is_some (find_anchor a.attempt_id a.interval_number (set_anchor a as')) ≡ true
unfolding is_at
new_anchor a as' = ground (
  arith,
  find_anchor-set_anchor a.attempt_id a.interval_number a as',
  eq_iff a.attempt_id a.attempt_id,
)

pub find_first-holds {ℓ} :
    {A : Type ℓ} (p : A → Bool) (xs : List A) (x : A) → find_first p xs ≡ some x → p x ≡ true
find_first-holds p [] x h = absurd (ground arith)
find_first-holds p (y ∷ ys) x h = elim (Bool-cases (p y)) [
  | inl holds ↦ subst (λ z. p z ≡ true) (ground arith) holds
  | inr later ↦ find_first-holds p ys x (ground arith)
]

pub All-find_first {ℓ κ} :
    {A : Type ℓ} (P : A → Type κ) (p : A → Bool) (xs : List A) (x : A)
    → All P xs
    → find_first p xs ≡ some x
    → P x
All-find_first P p [] x h e = absurd (ground arith)
All-find_first P p (y ∷ ys) x h e = elim (Bool-cases (p y)) [
  | inl yes_here ↦ subst P (ground arith) h.0
  | inr later ↦ All-find_first P p ys x h.1 (ground arith)
]

-- What a sample does to a row that has ended or has its anchor.
abbrev pub sampled : Clock → List Anchor → Interval → Interval
sampled clock anchors i =
    if is_open i
    then observe clock (or_else (find_anchor i.attempt_id i.interval_number anchors) 0) i
    else i

pub sample_interval-ok :
    (clock : Clock) (anchors : List Anchor) (i : Interval)
    → HasAnchor anchors i
    → sample_interval clock anchors i ≡ ok (sampled clock anchors i)
unfolding sample_interval
sample_interval-ok clock anchors i h = elim (Bool-cases (is_open i)) [
  | inl opened ↦ elim (Option-cases (find_anchor i.attempt_id i.interval_number anchors)) [
    | inl missing ↦ absurd (ground (arith, h opened))
    | inr (a, found) ↦ rw (opened, found)
  ]
  | inr ended ↦ rw ended
]

pub HasAnchor-sampled :
    (clock : Clock) (anchors kept : List Anchor) (i : Interval)
    → HasAnchor kept i
    → HasAnchor kept (sampled clock anchors i)
unfolding is_open
HasAnchor-sampled clock anchors kept i h o = elim (Bool-cases (is_open i)) [
  | inl opened ↦ rw opened (h opened)
  | inr ended ↦ rw ended (h (rw ended at o))
]

pub sample_intervals-ok :
    (clock : Clock) (anchors : List Anchor) (is : List Interval)
    → All (HasAnchor anchors) is
    → sample_intervals clock anchors is ≡ ok (map (sampled clock anchors) is)
unfolding sample_intervals
sample_intervals-ok clock anchors [] h = refl
sample_intervals-ok clock anchors (i ∷ is) h =
    rw (sample_interval-ok clock anchors i (h.0), sample_intervals-ok clock anchors is (h.1))

pub close_one-IsAnchored :
    (anchors : List Anchor) (i : Interval) (b : Bool)
    → HasAnchor anchors i
    → HasAnchor anchors (if b then close i else i)
unfolding is_open
close_one-IsAnchored anchors i true h o = absurd (ground arith)
close_one-IsAnchored anchors i false h o = h o

pub close_where-IsAnchored :
    (anchors : List Anchor) (p : Interval → Bool) (is : List Interval)
    → All (HasAnchor anchors) is
    → All (HasAnchor anchors) (close_where p is)
unfolding close_where is_open
close_where-IsAnchored anchors p [] h = tt
close_where-IsAnchored anchors p (i ∷ is) h =
    (close_one-IsAnchored anchors i (p i) (h.0), close_where-IsAnchored anchors p is (h.1))

pub is_at_self : (id : String) (n : ℕ) → is_at id n id n ≡ true
unfolding is_at
is_at_self id n = ground (arith, eq_iff id id)

-- Two keys that are the same give the same answers.
pub is_at-eq :
    (id : String) (n : ℕ) (id' : String) (n' : ℕ) → is_at id n id' n' ≡ true → (id ≡ id') × (n ≡ n')
unfolding is_at
is_at-eq id n id' n' h = ((eq_iff id id').0 (ground arith), ground arith)

-- There is an open row with this key.
abbrev pub open_at : String → ℕ → List Interval → Bool
open_at id n is = any (λ i. is_open i && is_at i.attempt_id i.interval_number id n) is

pub find_anchor-keep_anchors :
    (id : String) (n : ℕ) (is : List Interval) (as' : List Anchor)
    → open_at id n is ≡ true
    → find_anchor id n (keep_anchors is as') ≡ find_anchor id n as'
unfolding find_anchor keep_anchors
find_anchor-keep_anchors id n is [] h = refl
find_anchor-keep_anchors id n is (a ∷ as') h =
    elim (Bool-cases (is_at a.attempt_id a.interval_number id n)) [
      | inl same ↦
          let (p, q) = is_at-eq a.attempt_id a.interval_number id n same in
          let held : open_at a.attempt_id a.interval_number is ≡ true =
            subst (λ k. open_at k a.interval_number is ≡ true) (sym p)
              (subst (λ m. open_at id m is ≡ true) (sym q) h) in
          rw (held, find_anchor, same)
      | inr other ↦ ground (arith, find_anchor-keep_anchors id n is as' h)
    ]

-- The rows of `is` are among those of `whole`.
pub kept_anchors :
    (anchors : List Anchor) (whole is : List Interval)
    → ((id : String) (n : ℕ) → open_at id n is ≡ true → open_at id n whole ≡ true)
    → All (HasAnchor anchors) is
    → All (HasAnchor (keep_anchors whole anchors)) is
kept_anchors anchors whole [] sub h = tt
kept_anchors anchors whole (i ∷ is) sub h =
    let here : is_open i ≡ true → open_at i.attempt_id i.interval_number (i ∷ is) ≡ true =
      λ o. ground (arith, is_at_self i.attempt_id i.interval_number) in
    (
      (λ o.
          subst (λ found. is_some found ≡ true)
            (sym (
              find_anchor-keep_anchors i.attempt_id i.interval_number whole anchors
                (sub i.attempt_id i.interval_number (here o))))
            (h.0 o)),
      kept_anchors anchors whole is (λ id n e. sub id n (ground arith)) (h.1),
    )

pub sampled-All :
    (clock : Clock) (anchors kept : List Anchor) (is : List Interval)
    → All (HasAnchor kept) is
    → All (HasAnchor kept) (map (sampled clock anchors) is)
sampled-All clock anchors kept [] h = tt
sampled-All clock anchors kept (i ∷ is) h =
    (HasAnchor-sampled clock anchors kept i (h.0), sampled-All clock anchors kept is (h.1))
