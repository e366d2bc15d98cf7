-- ===== src/Engine/Node.antt =====
-- executeNode and createNodeResult in src/workflows/engine.ts, around the execution of the node.
use pi_workflows.Prelude.{◌==◌, if◌then◌else◌, some, none, or_else, String, Option}
use pi_workflows.Transitions.{Step, RunState, succeeded}
use pi_workflows.Engine.{
  throws, returns, SettingsBinding, ResumedNodeAttempt, Ran, NodeAttempt, Environment,
}
use pi_workflows.Engine.Record.{outcome_for_error, node_error_message}
use pi_workflows.Graph.{WorkflowNode}
use pi_workflows.Json.{str, field, end}

abbrev pub bind_settings : Option SettingsBinding → RunState → RunState
bind_settings none s = record s {
  current_settings_scope_id = none;
  current_settings_change_number = none;
  current_settings_hash = none;
}
bind_settings (some b) s = record s {
  current_settings_scope_id = some b.scope_id;
  current_settings_change_number = some b.change_number;
  current_settings_hash = some b.settings_hash;
}

abbrev pub active_resume : Option ResumedNodeAttempt → String → Option ResumedNodeAttempt
active_resume none id = none
active_resume (some a) id = if a.node_id == id then some a else none

module _ (env : Environment) where
  -- executeNode up to the execution of the node.
  unfoldable pub begin_node :
      RunState → String → WorkflowNode → Option ResumedNodeAttempt → RunState
  begin_node s id node resumed =
      let started = env.attempt_start s id in
      let bound =
        bind_settings
          (elim resumed [
            | none ↦ started.settings
            | some a ↦ elim a.settings [ none ↦ started.settings | some b ↦ some b ]
          ])
          (record s {
            current_node = some id;
            current_attempt_id =
                some (elim resumed [ none ↦ started.attempt_id | some a ↦ a.attempt_id ]);
            current_node_started_at =
                some (elim resumed [ none ↦ started.started_at | some a ↦ a.started_at ]);
          }) in
      elim node.status_detail [
        | none ↦ bound
        | some detail ↦ record bound { status_detail = some detail }
      ]

-- The rest of executeNode, and createNodeResult.
unfoldable pub node_attempt : RunState → String → WorkflowNode → Ran → NodeAttempt
unfolding outcome_for_error
node_attempt s id node ran =
    let step : Step = record {
      attempt_id = or_else s.current_attempt_id "";
      node_id = id;
      node_type = node.node_type;
      outcome = elim ran.execution [
        | returns output ↦ succeeded
        | throws e ↦ outcome_for_error ran.after e
      ];
      started_at = or_else s.current_node_started_at "";
      finished_at = ran.finished_at;
      output = elim ran.execution [ returns output ↦ output | throws e ↦ none ];
      rest = elim ran.execution [
        | returns output ↦ end
        | throws e ↦ field "error" (str (node_error_message e)) end
      ];
    } in
    record {
      result = record { step = step; duration_ms = ran.duration_ms };
      details = elim ran.execution [
        | returns output ↦ ran.details
        | throws e ↦ field "error" (str (node_error_message e)) ran.details
      ];
    }
