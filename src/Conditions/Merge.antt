-- ===== src/Conditions/Merge.antt =====
-- What the merge of src/resource-managers/conditions.ts does to each type of condition.
use pi_workflows.Prelude.{none, ◌==◌, some, ℕ, String, Option, List, find_first}
use pi_workflows.Conditions.{next_condition, ConditionInput, Condition}

abbrev pub update_for : String → List ConditionInput → Option ConditionInput
update_for t updates = find_first (λ u. u.type == t) updates

module _ (generation : ℕ) (now : String) where
  abbrev pub merged : Option Condition → Option ConditionInput → Option Condition
  merged old none = old
  merged old (some u) = some (next_condition generation now old u)
