-- ===== src/Session/Blocks.antt =====
-- The blocks of a message in src/workflows/session-reducer.ts: those of the map, each at an index of
-- its own, and the sorted ones of the result.
use mathlib.Core.List.{append-nil, append_assoc}
use mathlib.Core.Path.{subst}
use pi_workflows.Session.{Block}
use pi_workflows.Session.Fold.{rebuild_blocks, insert_block, sort_blocks}
use pi_workflows.Session.Step.{put_block, find_block}
use pi_workflows.Prelude.{
  ap, ◌++◌, sym, inr, some, refl, inl, ◌∙◌, none, if◌then◌else◌, eqb, arith, [], ◌≡◌, ◌∷◌, ◌<◌, ℕ,
  List, Bool-cases,
}

-- No index stands twice.
abbrev pub IsDistinct : List Block → Type 0
IsDistinct [] = Unit
IsDistinct (b ∷ bs) = (find_block b.content_index bs ≡ none) × IsDistinct bs

-- Each block has a content index above `i`.
abbrev pub Above : ℕ → List Block → Type 0
Above i [] = Unit
Above i (b ∷ bs) = (i < b.content_index) × Above i bs

-- Strictly ascending, so no index stands twice.
abbrev pub IsSorted : List Block → Type 0
IsSorted [] = Unit
IsSorted (b ∷ bs) = Above b.content_index bs × IsSorted bs

Above-trans : (i j : ℕ) (bs : List Block) → i < j → Above j bs → Above i bs
Above-trans i j [] h a = tt
Above-trans i j (b ∷ bs) h (l, a) = (omega arith, Above-trans i j bs h a)

find_block-put_block :
    (i : ℕ) (b : Block) (bs : List Block)
    → find_block i (put_block b bs) ≡ (if eqb b.content_index i then some b else find_block i bs)
unfolding find_block put_block
find_block-put_block i b [] = refl
find_block-put_block i b (c ∷ bs) = ground (arith, find_block-put_block i b bs)

pub put_block-IsDistinct :
    (b : Block) (bs : List Block) → IsDistinct bs → IsDistinct (put_block b bs)
unfolding put_block find_block
put_block-IsDistinct b [] d = (refl, tt)
put_block-IsDistinct b (c ∷ bs) (free, d) =
    elim (Bool-cases (eqb b.content_index c.content_index)) [
      | inl same ↦ rw same (ground (arith, free), d)
      | inr other ↦ rw other (
        ground (arith, find_block-put_block c.content_index b bs, free),
        put_block-IsDistinct b bs d,
      )
    ]

find_block-insert_block :
    (i : ℕ) (b : Block) (bs : List Block)
    → find_block b.content_index bs ≡ none
    → find_block i (insert_block b bs) ≡ (if eqb b.content_index i then some b else find_block i bs)
unfolding find_block insert_block
find_block-insert_block i b [] free = refl
find_block-insert_block i b (c ∷ bs) free = ground (arith, find_block-insert_block i b bs)

pub find_block-sort_blocks :
    (i : ℕ) (bs : List Block) → IsDistinct bs → find_block i (sort_blocks bs) ≡ find_block i bs
unfolding sort_blocks find_block
find_block-sort_blocks i [] d = refl
find_block-sort_blocks i (b ∷ bs) (free, d) = ground (
  arith,
  find_block-insert_block i b (sort_blocks bs),
  find_block-sort_blocks i bs d,
  find_block-sort_blocks b.content_index bs d,
)

insert_block-Above :
    (i : ℕ) (b : Block) (bs : List Block)
    → i < b.content_index
    → Above i bs
    → Above i (insert_block b bs)
unfolding insert_block
insert_block-Above i b [] h a = (h, tt)
insert_block-Above i b (c ∷ bs) h (l, a) = ground (arith, insert_block-Above i b bs)

insert_block-IsSorted :
    (b : Block) (bs : List Block)
    → find_block b.content_index bs ≡ none
    → IsSorted bs
    → IsSorted (insert_block b bs)
unfolding insert_block find_block
insert_block-IsSorted b [] free s = (tt, tt)
insert_block-IsSorted b (c ∷ bs) free (a, s) = ground (
  arith,
  insert_block-IsSorted b bs,
  insert_block-Above c.content_index b bs,
  Above-trans b.content_index c.content_index bs,
)

pub sort_blocks-IsSorted : (bs : List Block) → IsDistinct bs → IsSorted (sort_blocks bs)
unfolding sort_blocks
sort_blocks-IsSorted [] d = tt
sort_blocks-IsSorted (b ∷ bs) (free, d) =
    insert_block-IsSorted b (sort_blocks bs) (find_block-sort_blocks b.content_index bs d ∙ free)
      (sort_blocks-IsSorted bs d)

insert_block-first :
    (b : Block) (bs : List Block) → Above b.content_index bs → insert_block b bs ≡ b ∷ bs
unfolding insert_block
insert_block-first b [] a = refl
insert_block-first b (c ∷ bs) (l, a) = ground arith

pub sort_blocks-sorted : (bs : List Block) → IsSorted bs → sort_blocks bs ≡ bs
unfolding sort_blocks
sort_blocks-sorted [] s = refl
sort_blocks-sorted (b ∷ bs) (a, s) = rw (sort_blocks-sorted bs s) (insert_block-first b bs a)

find_block-Above : (i : ℕ) (bs : List Block) → Above i bs → find_block i bs ≡ none
unfolding find_block
find_block-Above i [] a = refl
find_block-Above i (b ∷ bs) (l, a) = ground (arith, find_block-Above i bs a)

pub IsSorted-IsDistinct : (bs : List Block) → IsSorted bs → IsDistinct bs
IsSorted-IsDistinct [] s = tt
IsSorted-IsDistinct (b ∷ bs) (a, s) =
    (find_block-Above b.content_index bs a, IsSorted-IsDistinct bs s)

Alike : List Block → List Block → Type 0
Alike xs ys = (i : ℕ) → find_block i xs ≡ find_block i ys

Alike-tail :
    (b : Block) (xs ys : List Block)
    → Above b.content_index xs
    → Above b.content_index ys
    → Alike (b ∷ xs) (b ∷ ys)
    → Alike xs ys
unfolding Alike find_block
Alike-tail b xs ys a a' h i =
    ground
      (arith, h i, find_block-Above b.content_index xs a, find_block-Above b.content_index ys a')

-- Sorted blocks that answer alike are the same.
sorted_unique : (xs ys : List Block) → IsSorted xs → IsSorted ys → Alike xs ys → xs ≡ ys
unfolding Alike find_block
sorted_unique [] [] s s' h = refl
sorted_unique [] (c ∷ ys) s s' h = absurd (ground (arith, h c.content_index))
sorted_unique (b ∷ xs) [] s s' h = absurd (ground (arith, h b.content_index))
sorted_unique (b ∷ xs) (c ∷ ys) (a, s) (a', s') h =
    let same : b ≡ c = ground (
      arith,
      h b.content_index,
      h c.content_index,
      find_block-Above c.content_index xs,
      find_block-Above b.content_index ys,
      Above-trans b.content_index c.content_index ys,
      Above-trans c.content_index b.content_index xs,
    ) in
    let tails =
      Alike-tail b xs ys a (subst (λ x. Above x.content_index ys) (sym same) a')
        (subst (λ x. Alike (b ∷ xs) (x ∷ ys)) (sym same) h) in
    λ i. same i ∷ sorted_unique xs ys s s' tails i

-- Whether the map was sorted before a block was set is lost in the sorting.
pub sort_blocks-put_block :
    (b : Block) (bs : List Block)
    → IsDistinct bs
    → sort_blocks (put_block b (sort_blocks bs)) ≡ sort_blocks (put_block b bs)
unfolding Alike
sort_blocks-put_block b bs d =
    let sorted = IsSorted-IsDistinct (sort_blocks bs) (sort_blocks-IsSorted bs d) in
    let left = put_block-IsDistinct b (sort_blocks bs) sorted in
    let right = put_block-IsDistinct b bs d in
    sorted_unique _ _ (sort_blocks-IsSorted _ left) (sort_blocks-IsSorted _ right) (λ i. ground (
      arith,
      find_block-sort_blocks i (put_block b (sort_blocks bs)) left,
      find_block-sort_blocks i (put_block b bs) right,
      find_block-put_block i b (sort_blocks bs),
      find_block-put_block i b bs,
      find_block-sort_blocks i bs d,
    ))

-- The blocks of `bs` have indices that `set` has not.
Fresh : List Block → List Block → Type 0
Fresh set [] = Unit
Fresh set (b ∷ bs) = (find_block b.content_index set ≡ none) × Fresh set bs

put_block-last :
    (b : Block) (set : List Block)
    → find_block b.content_index set ≡ none
    → put_block b set ≡ set ++ b ∷ []
unfolding put_block find_block
put_block-last b [] free = refl
put_block-last b (c ∷ set) free = ground (arith, put_block-last b set)

Fresh-put_block :
    (b : Block) (set bs : List Block)
    → Above b.content_index bs
    → Fresh set bs
    → Fresh (put_block b set) bs
unfolding Fresh
Fresh-put_block b set [] a f = tt
Fresh-put_block b set (c ∷ bs) (l, a) (free, f) =
    (ground (arith, find_block-put_block c.content_index b set, free), Fresh-put_block b set bs a f)

Fresh-empty : (bs : List Block) → Fresh [] bs
unfolding Fresh find_block
Fresh-empty [] = tt
Fresh-empty (b ∷ bs) = (refl, Fresh-empty bs)

rebuild_blocks-append :
    (bs set : List Block) → IsSorted bs → Fresh set bs → rebuild_blocks bs set ≡ set ++ bs
unfolding rebuild_blocks Fresh
rebuild_blocks-append [] set s f = sym (append-nil set)
rebuild_blocks-append (b ∷ bs) set (a, s) (free, f) =
    rebuild_blocks-append bs (put_block b set) s (Fresh-put_block b set bs a f)
    ∙ ap (λ l. l ++ bs) (put_block-last b set free)
    ∙ append_assoc set (b ∷ []) bs

-- A checkpoint's blocks are taken up as they are.
pub rebuild_blocks-sorted : (bs : List Block) → IsSorted bs → rebuild_blocks bs [] ≡ bs
rebuild_blocks-sorted bs s = rebuild_blocks-append bs [] s (Fresh-empty bs)
