-- ===== src/Progress/History.antt =====
-- The history that appendProgressHistory of src/workflows/progress.ts keeps.
use mathlib.Core.List.{reverse, reverse-append, reverse-reverse, append_assoc}
use pi_workflows.Progress.{append_progress_history, retain, count_up, Counts, UpdateRecord}
use pi_workflows.Prelude.{
  length-append, sym, ap, ◌++◌, ◌∙◌, ◌||◌, not, inr, true, inl, ◌<◌, leb, Bool-cases, refl, length,
  arith, ◌≡◌, ◌==◌, ◌+◌, ◌≤◌, if◌then◌else◌, ℕ, eq_iff, String, List, [], ◌∷◌,
}

unfoldable pub records_of : String → List UpdateRecord → ℕ
records_of key [] = 0
records_of key (r ∷ rs) = (if r.key == key then 1 else 0) + records_of key rs

-- A record of a key can be taken out.
take_out :
    (key : String) (rs : List UpdateRecord)
    → 0 < records_of key rs
    → (less : List UpdateRecord) × ((k : String)
        → records_of k rs ≡ (if key == k then 1 else 0) + records_of k less)
      × (length rs ≡ 1 + length less)
unfolding records_of
take_out key [] h = absurd (omega (arith, h))
take_out key (r ∷ rs) h = elim (Bool-cases (r.key == key)) [
  | inl here ↦ (rs, (λ k. ground (arith, (eq_iff r.key key).0 here)), omega arith)
  | inr there ↦
      let (less, split, shorter) = take_out key rs (ground (arith, h)) in
      (r ∷ less, (λ k. ground (arith, split k)), omega (arith, shorter))
]

records_of-append :
    (key : String) (xs ys : List UpdateRecord)
    → records_of key (xs ++ ys) ≡ records_of key xs + records_of key ys
unfolding records_of
records_of-append key [] ys = omega arith
records_of-append key (x ∷ xs) ys = omega (arith, records_of-append key xs ys)

reversed :
    (key : String) (xs : List UpdateRecord)
    → (records_of key (reverse xs) ≡ records_of key xs) × (length (reverse xs) ≡ length xs)
unfolding records_of
reversed key [] = (refl, refl)
reversed key (x ∷ xs) =
    let split : reverse (x ∷ xs) ≡ reverse xs ++ x ∷ [] = reverse-append (x ∷ []) xs in
    let (counts, lengths) = reversed key xs in
    (
      ap (λ l. records_of key l) split
          ∙ records_of-append key (reverse xs) (x ∷ [])
          ∙ omega (arith, counts),
      ap (λ (l : List UpdateRecord). length l) split
          ∙ length-append (reverse xs) (x ∷ [])
          ∙ omega (arith, lengths),
    )

module _ (per max : ℕ) where
  retain-length :
      (rs : List UpdateRecord) (c : Counts) (n : ℕ)
      → n ≤ max
      → n + length (retain per max rs c n) ≤ max
  unfolding retain
  retain-length [] c n h = omega (arith, h)
  retain-length (r ∷ rs) c n h =
      ground (arith, retain-length rs (count_up r.key c) (n + 1), retain-length rs c n h)

  retain-records_of :
      (key : String) (rs : List UpdateRecord) (c : Counts) (n : ℕ)
      → c key ≤ per
      → c key + records_of key (retain per max rs c n) ≤ per
  unfolding retain records_of
  retain-records_of key [] c n h = omega (arith, h)
  retain-records_of key (r ∷ rs) c n h = ground (
    arith,
    retain-records_of key rs (count_up r.key c) (n + 1),
    retain-records_of key rs c n h,
    eq_iff r.key key,
  )

  retain-full :
      (rs : List UpdateRecord) (c : Counts) (n : ℕ) → leb max n ≡ true → retain per max rs c n ≡ []
  unfolding retain
  retain-full [] c n full = refl
  retain-full (r ∷ rs) c n full = rw full refl

  -- The second loop starts with the counts of further records.
  pub record Further (c d : Counts) (m n : ℕ) (extra : List UpdateRecord) : Type 0 where
    pub counts : (k : String) → d k ≡ c k + records_of k extra
    pub retained : n ≡ m + length extra

  up_both :
      (key : String) (c d : Counts) (m n : ℕ) (extra : List UpdateRecord)
      → Further c d m n extra
      → Further (count_up key c) (count_up key d) (m + 1) (n + 1) extra
  up_both key c d m n extra f = record {
    counts = (λ k. ground (arith, f.counts k));
    retained = omega (arith, f.retained);
  }

  one_more :
      (x : UpdateRecord) (c : Counts) (n : ℕ) (extra : List UpdateRecord)
      → Further (λ k. 0) c 0 n extra
      → Further (λ k. 0) (count_up x.key c) 0 (n + 1) (x ∷ extra)
  unfolding records_of
  one_more x c n extra f = record {
    counts = (λ k. ground (arith, f.counts k));
    retained = omega (arith, f.retained);
  }

  up_first :
      (key : String) (c d : Counts) (m n : ℕ) (extra less : List UpdateRecord)
      → Further c d m n extra
      → ((k : String) → records_of k extra ≡ (if key == k then 1 else 0) + records_of k less)
      → length extra ≡ 1 + length less
      → Further (count_up key c) d (m + 1) n less
  up_first key c d m n extra less f split shorter = record {
    counts = (λ k. ground (arith, f.counts k, split k));
    retained = omega (arith, f.retained, shorter);
  }

  -- What a first loop has dropped, a second one with further records drops too.
  retain-retain :
      (rs : List UpdateRecord) (c d : Counts) (m n : ℕ) (extra : List UpdateRecord)
      → Further c d m n extra
      → retain per max (retain per max rs c m) d n ≡ retain per max rs d n
  unfolding retain
  retain-retain [] c d m n extra f = refl
  retain-retain (r ∷ rs) c d m n extra f = elim (Bool-cases (leb max m)) [
    | inl full ↦ ground (arith, f.retained)
    | inr room ↦ elim (Bool-cases (not (r.update_type == "progress") || leb per (c r.key))) [
      | inl drops ↦
          ground (arith, f.counts r.key, retain-retain rs c d m n extra f, retain-full rs d n)
      | inr keeps ↦ elim (Bool-cases (leb per (d r.key))) [
        | inl over ↦
            let (less, split, shorter) = take_out r.key extra (ground (arith, f.counts r.key)) in
            let below =
              retain-retain rs (count_up r.key c) d (m + 1) n less
                (up_first r.key c d m n extra less f split shorter) in
            ground (arith, below)
        | inr under ↦
            let below =
              retain-retain rs (count_up r.key c) (count_up r.key d) (m + 1) (n + 1) extra
                (up_both r.key c d m n extra f) in
            ground (arith, below)
      ]
    ]
  ]

  -- The first part of a list is counted, then the rest.
  retain-append :
      (xs ys zs : List UpdateRecord) (c : Counts) (n : ℕ)
      → ((d : Counts) (m : ℕ) (extra : List UpdateRecord)
          → Further (λ k. 0) d 0 m extra
          → retain per max ys d m ≡ retain per max zs d m)
      → (extra : List UpdateRecord) → Further (λ k. 0) c 0 n extra
      → retain per max (xs ++ ys) c n ≡ retain per max (xs ++ zs) c n
  unfolding retain
  retain-append [] ys zs c n same extra f = same c n extra f
  retain-append (x ∷ xs) ys zs c n same extra f = ground (
    arith,
    retain-append xs ys zs c n same extra f,
    retain-append xs ys zs (count_up x.key c) (n + 1) same (x ∷ extra) (one_more x c n extra f),
  )

  -- Histories that are kept batch by batch are the one that is kept of all records at once: what an
  -- earlier call has dropped, no later one would have kept.
  pub append_progress_history-append :
      (history a b : List UpdateRecord)
      → append_progress_history (append_progress_history history a per max) b per max
        ≡ append_progress_history history (a ++ b) per max
  unfolding append_progress_history records_of
  append_progress_history-append history a b =
      let old = reverse (history ++ a) in
      let batches : reverse (reverse (retain per max old (λ k. 0) 0) ++ b)
          ≡ reverse b ++ retain per max old (λ k. 0) 0 =
        reverse-append (reverse (retain per max old (λ k. 0) 0)) b
        ∙ ap (λ l. reverse b ++ l) (reverse-reverse (retain per max old (λ k. 0) 0)) in
      let whole : reverse (history ++ (a ++ b)) ≡ reverse b ++ old =
        ap (λ l. reverse l) (sym (append_assoc history a b)) ∙ reverse-append (history ++ a) b in
      ap (λ l. reverse l)
        (ap (λ l. retain per max l (λ k. 0) 0) batches
          ∙ retain-append (reverse b) (retain per max old (λ k. 0) 0) old (λ k. 0) 0
              (λ d m extra f. retain-retain old (λ k. 0) d 0 m extra f) []
              (record { counts = (λ k. refl); retained = refl })
          ∙ ap (λ l. retain per max l (λ k. 0) 0) (sym whole))

  -- A history has at most the given number of records, and of each track at most the given number.
  pub length-append_progress_history :
      (history additions : List UpdateRecord) (key : String)
      → (length (append_progress_history history additions per max) ≤ max)
        × (records_of key (append_progress_history history additions per max) ≤ per)
  unfolding append_progress_history
  length-append_progress_history history additions key =
      let rows = reverse (history ++ additions) in
      let (counts, lengths) = reversed key (retain per max rows (λ k. 0) 0) in
      (
        omega (arith, lengths, retain-length rows (λ k. 0) 0 (omega arith)),
        omega (arith, counts, retain-records_of key rows (λ k. 0) 0 (omega arith)),
      )
