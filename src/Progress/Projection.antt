-- ===== src/Progress/Projection.antt =====
-- The current updates of a run, updateProjection of src/workflows/updates.ts.
use pi_workflows.Progress.{
  without_update, update_projection, sort_by_seq, insert_by_seq, is_same_update, UpdateRecord,
}
use pi_workflows.Prelude.{
  ◌++◌, sym, or_else, All-append, ◌∙◌, inr, inl, refl, ltb, true, eq_iff, arith, Bool-cases, some,
  false, ◌≡◌, if◌then◌else◌, ◌≤◌, none, Option, List, All, [], ◌∷◌,
}

-- The first record of a list with the type and key of another.
unfoldable pub find_update : UpdateRecord → List UpdateRecord → Option UpdateRecord
find_update r [] = none
find_update r (x ∷ xs) = let rest = find_update r xs in if is_same_update x r then some x else rest

-- No two records have one type and key.
abbrev pub IsUnique : List UpdateRecord → Type 0
IsUnique [] = Unit
IsUnique (x ∷ xs) = All (λ (y : UpdateRecord). is_same_update x y ≡ false) xs × IsUnique xs

-- Equal types and keys are exchanged.
same_as :
    (a b c : UpdateRecord)
    → is_same_update a b ≡ true
    → (is_same_update a c ≡ is_same_update b c) × (is_same_update c a ≡ is_same_update c b)
same_as a b c h =
    let p : a.update_type ≡ b.update_type = (eq_iff a.update_type b.update_type).0 (ground arith) in
    let q : a.key ≡ b.key = (eq_iff a.key b.key).0 (ground arith) in (cc, cc)

same_sym : (a b : UpdateRecord) → is_same_update a b ≡ is_same_update b a
same_sym a b = ground (
  arith,
  eq_iff a.update_type b.update_type,
  eq_iff b.update_type a.update_type,
  eq_iff a.key b.key,
  eq_iff b.key a.key,
)

apart :
    (r x q : UpdateRecord)
    → is_same_update r x ≡ false
    → is_same_update x q ≡ true
    → is_same_update r q ≡ false
apart r x q other same = sym ((same_as x q r same).1) ∙ other

-- In the order of their records.
abbrev pub IsSorted : List UpdateRecord → Type 0
IsSorted [] = Unit
IsSorted (x ∷ xs) = All (λ (y : UpdateRecord). x.seq ≤ y.seq) xs × IsSorted xs

All-above :
    (r x : UpdateRecord) (xs : List UpdateRecord)
    → r.seq ≤ x.seq
    → All (λ (y : UpdateRecord). x.seq ≤ y.seq) xs
    → All (λ (y : UpdateRecord). r.seq ≤ y.seq) xs
All-above r x [] p h = tt
All-above r x (y ∷ ys) p h = (omega (arith, p, h.0), All-above r x ys p h.1)

insert-All :
    (P : UpdateRecord → Type 0) (r : UpdateRecord) (xs : List UpdateRecord)
    → P r
    → All P xs
    → All P (insert_by_seq r xs)
unfolding insert_by_seq
insert-All P r [] p h = (p, tt)
insert-All P r (x ∷ xs) p h = elim (Bool-cases (ltb x.seq r.seq)) [
  | inl before ↦ rw before (h.0, insert-All P r xs p h.1)
  | inr after ↦ rw after (p, h)
]

insert-IsUnique :
    (r : UpdateRecord) (xs : List UpdateRecord)
    → All (λ (y : UpdateRecord). is_same_update r y ≡ false) xs
    → IsUnique xs
    → IsUnique (insert_by_seq r xs)
unfolding insert_by_seq
insert-IsUnique r [] other u = (tt, tt)
insert-IsUnique r (x ∷ xs) other u = elim (Bool-cases (ltb x.seq r.seq)) [
  | inl before ↦ rw before (
    insert-All (λ (y : UpdateRecord). is_same_update x y ≡ false) r xs (same_sym x r ∙ other.0) u.0,
    insert-IsUnique r xs other.1 u.1,
  )
  | inr after ↦ rw after (other, u)
]

find-insert :
    (q r : UpdateRecord) (xs : List UpdateRecord)
    → All (λ (y : UpdateRecord). is_same_update r y ≡ false) xs
    → find_update q (insert_by_seq r xs) ≡ (if is_same_update r q then some r else find_update q xs)
unfolding insert_by_seq find_update
find-insert q r [] other = refl
find-insert q r (x ∷ xs) other = ground (arith, find-insert q r xs other.1, apart r x q other.0)

sort-All : (P : UpdateRecord → Type 0) (xs : List UpdateRecord) → All P xs → All P (sort_by_seq xs)
unfolding sort_by_seq
sort-All P [] h = tt
sort-All P (x ∷ xs) h = insert-All P x (sort_by_seq xs) h.0 (sort-All P xs h.1)

find-sort :
    (q : UpdateRecord) (xs : List UpdateRecord)
    → IsUnique xs
    → find_update q (sort_by_seq xs) ≡ find_update q xs
unfolding sort_by_seq find_update
find-sort q [] u = refl
find-sort q (x ∷ xs) u =
    find-insert q x (sort_by_seq xs)
      (sort-All (λ (y : UpdateRecord). is_same_update x y ≡ false) xs u.0)
    ∙ ground (arith, find-sort q xs u.1)

sort-IsUnique : (xs : List UpdateRecord) → IsUnique xs → IsUnique (sort_by_seq xs)
unfolding sort_by_seq
sort-IsUnique [] u = tt
sort-IsUnique (x ∷ xs) u =
    insert-IsUnique x (sort_by_seq xs)
      (sort-All (λ (y : UpdateRecord). is_same_update x y ≡ false) xs u.0) (sort-IsUnique xs u.1)

without-All :
    (P : UpdateRecord → Type 0) (r : UpdateRecord) (xs : List UpdateRecord)
    → All P xs
    → All P (without_update r xs)
unfolding without_update
without-All P r [] h = tt
without-All P r (x ∷ xs) h = elim (Bool-cases (is_same_update x r)) [
  | inl gone ↦ rw gone (without-All P r xs h.1)
  | inr kept ↦ rw kept (h.0, without-All P r xs h.1)
]

-- What projecting a record puts before the sort: the others, then the record.
projected-IsUnique :
    (r : UpdateRecord) (xs : List UpdateRecord)
    → IsUnique xs
    → IsUnique (without_update r xs ++ r ∷ [])
unfolding without_update
projected-IsUnique r [] u = (tt, tt)
projected-IsUnique r (x ∷ xs) u = elim (Bool-cases (is_same_update x r)) [
  | inl gone ↦ rw gone (projected-IsUnique r xs u.1)
  | inr kept ↦ rw kept (
    All-append (λ (y : UpdateRecord). is_same_update x y ≡ false) (without_update r xs) (r ∷ [])
        (without-All (λ (y : UpdateRecord). is_same_update x y ≡ false) r xs u.0) (kept, tt),
    projected-IsUnique r xs u.1,
  )
]

find-projected :
    (q r : UpdateRecord) (xs : List UpdateRecord)
    → find_update q (without_update r xs ++ r ∷ [])
      ≡ (if is_same_update r q then some r else find_update q xs)
unfolding without_update find_update
find-projected q r [] = refl
find-projected q r (x ∷ xs) = elim (Bool-cases (is_same_update x r)) [
  | inl gone ↦ ground (arith, find-projected q r xs, (same_as x r q gone).0)
  | inr kept ↦ ground (arith, find-projected q r xs, apart r x q (same_sym r x ∙ kept))
]

insert-IsSorted :
    (r : UpdateRecord) (xs : List UpdateRecord) → IsSorted xs → IsSorted (insert_by_seq r xs)
unfolding insert_by_seq
insert-IsSorted r [] h = (tt, tt)
insert-IsSorted r (x ∷ xs) h = elim (Bool-cases (ltb x.seq r.seq)) [
  | inl before ↦ rw before (
    insert-All (λ (y : UpdateRecord). x.seq ≤ y.seq) r xs (ground arith) h.0,
    insert-IsSorted r xs h.1,
  )
  | inr after ↦ rw after ((ground arith, All-above r x xs (ground arith) h.0), h)
]

sort-IsSorted : (xs : List UpdateRecord) → IsSorted (sort_by_seq xs)
unfolding sort_by_seq
sort-IsSorted [] = tt
sort-IsSorted (x ∷ xs) = insert-IsSorted x (sort_by_seq xs) (sort-IsSorted xs)

-- If no two current updates have one type and key, projecting a record keeps this, sorts the
-- updates in the order of their records, puts the record in the place of the one with its type and
-- key, and leaves the updates with another type or key as they are.
pub update_projection_lem :
    (current : Option (List UpdateRecord)) (r q : UpdateRecord)
    → IsUnique (or_else current [])
    → IsSorted (update_projection current r)
      × IsUnique (update_projection current r)
      × (find_update q (update_projection current r)
          ≡ (if is_same_update r q then some r else find_update q (or_else current [])))
unfolding update_projection
update_projection_lem current r q u =
    let rows = without_update r (or_else current []) ++ r ∷ [] in
    let one = projected-IsUnique r (or_else current []) u in
    (
      sort-IsSorted rows,
      sort-IsUnique rows one,
      find-sort q rows one ∙ find-projected q r (or_else current []),
    )
