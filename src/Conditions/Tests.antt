-- ===== src/Conditions/Tests.antt =====
-- Two conditions and an update, and the merge of src/resource-managers/conditions.ts at them.
use pi_workflows.Conditions.{Condition, ConditionInput, holds, fails}
use pi_workflows.Prelude.{none}

abbrev ready_before : Condition
ready_before = record {
  type = "Ready";
  status = holds;
  reason = "Started";
  message = none;
  observed_generation = 1;
  last_transition_time = "t1";
}

abbrev healthy_before : Condition
healthy_before = record {
  type = "Healthy";
  status = fails;
  reason = "Probe";
  message = none;
  observed_generation = 1;
  last_transition_time = "t1";
}

abbrev ready_update : ConditionInput
ready_update = record { type = "Ready"; status = holds; reason = "Checked"; message = none }

abbrev ready_after : Condition
ready_after = record ready_before { reason = "Checked"; observed_generation = 2 }
