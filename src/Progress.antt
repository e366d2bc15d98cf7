-- ===== src/Progress.antt =====
-- The updates of a run in src/workflows/updates.ts and the history of its progress in
-- src/workflows/progress.ts.
pub mod History
pub mod Projection
pub mod Tests
use mathlib.Core.List.{reverse}
use pi_workflows.Json.{Json, Fields}
use pi_workflows.Prelude.{
  ◌&&◌, or_else, ltb, Option, Bool, ◌++◌, ◌||◌, not, ◌==◌, leb, ◌+◌, if◌then◌else◌, ℕ, String, List,
  [], ◌∷◌,
}

pub record UpdateRecord : Type 0 where
  pub update_id : String
  pub seq : ℕ
  pub at : String
  pub run_id : String
  pub node_id : String
  pub attempt_id : String
  pub update_type : String
  pub key : String
  pub content : Fields

-- The Map of counts, with 0 for a missing key.
abbrev pub Counts : Type 0
Counts = String → ℕ

abbrev pub count_up : String → Counts → Counts
count_up key counts k = if key == k then counts k + 1 else counts k

-- The loop of appendProgressHistory, from the last record to the first. `retained` is the length of
-- the list so far.
unfoldable pub retain :
    (max_per_track max_records : ℕ)
    → List UpdateRecord
    → Counts
    → (retained : ℕ) → List UpdateRecord
retain per max [] counts retained = []
retain per max (r ∷ rs) counts retained =
    let kept = retain per max rs (count_up r.key counts) (retained + 1) in
    let skipped = retain per max rs counts retained in
    if leb max retained
    then []
    else if not (r.update_type == "progress") || leb per (counts r.key)
    then skipped
    else r ∷ kept

unfoldable pub append_progress_history :
    List UpdateRecord → List UpdateRecord → (max_per_track max_records : ℕ) → List UpdateRecord
unfolding retain
append_progress_history history additions per max =
    reverse (retain per max (reverse (history ++ additions)) (λ k. 0) 0)

abbrev pub is_same_update : UpdateRecord → UpdateRecord → Bool
is_same_update a b = a.update_type == b.update_type && a.key == b.key

unfoldable pub without_update : UpdateRecord → List UpdateRecord → List UpdateRecord
without_update r [] = []
without_update r (x ∷ xs) =
    let rest = without_update r xs in if is_same_update x r then rest else x ∷ rest

-- `sort((a, b) => a.seq - b.seq)`, which is stable.
unfoldable pub insert_by_seq : UpdateRecord → List UpdateRecord → List UpdateRecord
insert_by_seq r [] = r ∷ []
insert_by_seq r (x ∷ xs) =
    let rest = insert_by_seq r xs in if ltb x.seq r.seq then x ∷ rest else r ∷ x ∷ xs

unfoldable pub sort_by_seq : List UpdateRecord → List UpdateRecord
unfolding insert_by_seq
sort_by_seq [] = []
sort_by_seq (x ∷ xs) = insert_by_seq x (sort_by_seq xs)

-- updateProjection
unfoldable pub update_projection : Option (List UpdateRecord) → UpdateRecord → List UpdateRecord
unfolding without_update sort_by_seq
update_projection current r = sort_by_seq (without_update r (or_else current []) ++ r ∷ [])
