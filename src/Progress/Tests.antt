-- ===== src/Progress/Tests.antt =====
-- A few updates, and the theorems on src/workflows/updates.ts and src/workflows/progress.ts at them.
use pi_workflows.Json.{end}
use pi_workflows.Progress.{
  retain, update_projection, is_same_update, append_progress_history, UpdateRecord,
}
use pi_workflows.Prelude.{
  ◌++◌, refl, if◌then◌else◌, ◌≡◌, ◌≤◌, ◌∷◌, some, [], ℕ, length, String, List,
}
use pi_workflows.Progress.History.{
  records_of, length-append_progress_history, append_progress_history-append,
}
use pi_workflows.Progress.Projection.{update_projection_lem, find_update, IsUnique, IsSorted}

abbrev update : ℕ → String → String → UpdateRecord
update n type key = record {
  update_id = "u";
  seq = n;
  at = "t";
  run_id = "r1";
  node_id = "n1";
  attempt_id = "a1";
  update_type = type;
  key = key;
  content = end;
}

abbrev first_three : List UpdateRecord
first_three = update 1 "progress" "a" ∷ update 2 "progress" "a" ∷ update 3 "note" "a" ∷ []

abbrev next_two : List UpdateRecord
next_two = update 4 "progress" "b" ∷ update 5 "progress" "a" ∷ []

keeps_the_last : append_progress_history first_three next_two 1 9 ≡ next_two
unfolding append_progress_history retain
keeps_the_last = refl

append_progress_history-append_example :
    append_progress_history (append_progress_history [] first_three 2 3) next_two 2 3
    ≡ append_progress_history [] (first_three ++ next_two) 2 3
append_progress_history-append_example = append_progress_history-append 2 3 [] first_three next_two

length-append_progress_history_example :
    (length (append_progress_history first_three next_two 1 9) ≤ 9)
    × (records_of "a" (append_progress_history first_three next_two 1 9) ≤ 1)
length-append_progress_history_example = length-append_progress_history 1 9 first_three next_two "a"

abbrev currents : List UpdateRecord
currents = update 3 "note" "a" ∷ update 4 "progress" "b" ∷ []

currents-IsUnique : IsUnique currents
currents-IsUnique = ((refl, tt), (tt, tt))

update_projection_lem_example :
    IsSorted (update_projection (some currents) (update 5 "note" "a"))
    × IsUnique (update_projection (some currents) (update 5 "note" "a"))
    × (find_update
          (update 0 "progress" "b")
          (update_projection (some currents) (update 5 "note" "a"))
        ≡ (if is_same_update (update 5 "note" "a") (update 0 "progress" "b")
            then some (update 5 "note" "a")
            else find_update (update 0 "progress" "b") currents))
update_projection_lem_example =
    update_projection_lem (some currents) (update 5 "note" "a") (update 0 "progress" "b")
      currents-IsUnique
