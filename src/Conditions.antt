-- ===== src/Conditions.antt =====
-- The conditions of a managed resource and their merge, from src/resource-managers/conditions.ts.
-- The status that a resource manager keeps and its workflow run are values that the code hands on.
pub mod Keyed
pub mod Merge
mod Tests
use pi_workflows.Json.{Json}
use pi_workflows.Prelude.{
  elem, ◌>>=◌, ok, if◌then◌else◌, false, ◌∷◌, ◌>>◌, values, true, some, none, lookup, [], ℕ,
  throw_if, or_else, is_blank, insert, String, Outcome, Option, List, Bool, Assoc,
}

-- A status that is neither a Boolean nor "unknown" can come from untyped code.
pub data ConditionStatus : Type 0 where
  holds fails unknown : ConditionStatus
  other : Json → ConditionStatus

pub record ConditionInput : Type 0 where
  pub type : String
  pub status : ConditionStatus
  pub reason : String
  pub message : Option String

pub record Condition : Type 0 where
  pub type : String
  pub status : ConditionStatus
  pub reason : String
  pub message : Option String
  pub observed_generation : ℕ
  pub last_transition_time : String

pub data ConditionError : Type 0 where
  empty_type empty_reason : ConditionError
  invalid_status updated_twice : String → ConditionError

-- `===` on statuses. The status of an update was validated before, so it is never `other`.
unfoldable pub same_status : ConditionStatus → ConditionStatus → Bool
same_status holds holds = true
same_status fails fails = true
same_status unknown unknown = true
same_status _ _ = false

abbrev is_other : ConditionStatus → Bool
is_other (other v) = true
is_other _ = false

unfoldable pub validate_condition : ConditionInput → Outcome ConditionError (Unit {0})
unfolding is_blank
validate_condition c = do
  throw_if (is_blank c.type) empty_type
  throw_if (is_blank c.reason) empty_reason
  throw_if (is_other c.status) (invalid_status c.type)

unfoldable pub condition :
    String → ConditionStatus → String → Option String → Outcome ConditionError ConditionInput
unfolding validate_condition
condition type status reason message =
    let value : ConditionInput = record {
      type = type;
      status = status;
      reason = reason;
      message = message;
    } in
    validate_condition value >> ok value

unfoldable pub condition_true :
    String → String → Option String → Outcome ConditionError ConditionInput
unfolding condition
condition_true type reason message = condition type holds reason message

unfoldable pub condition_false :
    String → String → Option String → Outcome ConditionError ConditionInput
unfolding condition
condition_false type reason message = condition type fails reason message

unfoldable pub condition_unknown :
    String → String → Option String → Outcome ConditionError ConditionInput
unfolding condition
condition_unknown type reason message = condition type unknown reason message

-- `new Map(current.map((item) => [item.type, item]))`
unfoldable pub index_conditions : List Condition → Assoc Condition → Assoc Condition
unfolding insert
index_conditions [] by_type = by_type
index_conditions (c ∷ cs) by_type = index_conditions cs (insert c.type c by_type)

unfoldable pub transition_time : Option Condition → ConditionStatus → String → String
unfolding same_status
transition_time none status now = now
transition_time (some c) status now =
    if same_status c.status status then c.last_transition_time else now

module _ (generation : ℕ) (now : String) where
  unfoldable pub next_condition : Option Condition → ConditionInput → Condition
  unfolding transition_time
  next_condition previous update = record {
    type = update.type;
    status = update.status;
    reason = update.reason;
    message = update.message;
    observed_generation = generation;
    last_transition_time = transition_time previous update.status now;
  }

  unfoldable pub apply_updates :
      List String → List ConditionInput → Assoc Condition → Outcome ConditionError (Assoc Condition)
  unfolding validate_condition next_condition insert lookup
  apply_updates seen [] by_type = ok by_type
  apply_updates seen (update ∷ updates) by_type = do
    validate_condition update
    throw_if (elem update.type seen) (updated_twice update.type)
    apply_updates (update.type ∷ seen) updates
        (insert update.type (next_condition (lookup update.type by_type) update) by_type)

  unfoldable pub merge_conditions :
      List Condition → List ConditionInput → Outcome ConditionError (List Condition)
  unfolding apply_updates index_conditions values
  merge_conditions current updates =
      apply_updates [] updates (index_conditions current []) >>= λ by_type. ok (values by_type)

  pub record ResourceStatus (S R : Type 0) : Type 0 where
    pub observed : ℕ
    pub conditions : List Condition
    pub manager_status : S
    pub workflow_run : Option R

  -- A run that is `null` in the patch is taken out; one that is missing stays.
  pub data RunPatch (R : Type 0) : Type 0 where
    keep clear : RunPatch R
    set_run : R → RunPatch R

  pub record StatusPatch (S R : Type 0) : Type 0 where
    pub updates : Option (List ConditionInput)
    pub new_status : Option S
    pub run : RunPatch R

  abbrev patched_run : {R : Type 0} → RunPatch R → Option R → Option R
  patched_run keep old = old
  patched_run clear old = none
  patched_run (set_run r) old = some r

  abbrev no_patch : {S R : Type 0} → StatusPatch S R
  no_patch = record { updates = none; new_status = none; run = keep }

  unfoldable pub apply_status_patch :
      {S R : Type 0}
      → ResourceStatus S R
      → Option (StatusPatch S R)
      → Outcome ConditionError (ResourceStatus S R)
  unfolding merge_conditions
  apply_status_patch current patch? =
      let patch = or_else patch? no_patch in
      merge_conditions current.conditions (or_else patch.updates []) >>= λ conditions. ok (record {
        observed = generation;
        conditions = conditions;
        manager_status = or_else patch.new_status current.manager_status;
        workflow_run = patched_run patch.run current.workflow_run;
      })
