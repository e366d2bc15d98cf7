-- ===== src/Engine.antt =====
-- WorkflowEngine in src/workflows/engine.ts: the loop that executes the nodes of a run, what it
-- records, how it holds, stops and ends, and where a run that was interrupted continues. What a
-- node does, the time, fresh ids and the pauses, parks and cancellations are an `Environment`;
-- `String(value)` of a number is the parameter `number_text`.
pub mod Scopes
pub mod Record
pub mod Node
pub mod Loop
pub mod Boundary
pub mod Passed
pub mod Output
pub mod Resume
pub mod Reached
pub mod Continue
pub mod Failed
pub mod Projection
pub mod Saved
pub mod Rebuilt
pub mod Ranked
pub mod Budget
mod Tests
use pi_workflows.Prelude.{ℕ, String, Option, Bool, List, Assoc}
use pi_workflows.Json.{Json, Fields}
use pi_workflows.Graph.{WorkflowDefinition, GraphError}
use pi_workflows.Transitions.{NodeResult, RunState}

-- WorkflowEntryMetadata, WorkflowExitMetadata and WorkflowScopeMetadata, as far as the loop reads
-- them.
pub record ScopeMetadata : Type 0 where
  pub path : String
  pub max_steps : Option ℕ

pub record CompositionMetadata : Type 0 where
  pub scopes : Assoc ScopeMetadata
  pub entries : Assoc String
  pub exits : Assoc String

-- A compiled workflow: its own limit or else the engine's, and its agent nodes that an assistant
-- message answers.
pub record EngineWorkflow : Type 0 where
  pub graph : WorkflowDefinition
  pub max_steps : ℕ
  pub composition : Option CompositionMetadata
  pub assistant_message_nodes : List String

pub data EngineError : Type 0 where
  run_parked run_cancelled : EngineError
  max_steps_exceeded : ℕ → EngineError
  node_missing include_entry_missing include_exceeded node_failed : String → EngineError
  route_failed : GraphError → EngineError
  resume_node_missing settings_missing : String → EngineError
  settings_incomplete settings_mismatch : EngineError

-- `this.parked`, `this.cancelled` and `this.paused`.
pub record Signals : Type 0 where
  pub parked : Bool
  pub cancelled : Bool
  pub paused : Bool

-- WorkflowSettingsScopeRecord, as far as an attempt names it.
pub record SettingsBinding : Type 0 where
  pub scope_id : String
  pub change_number : ℕ
  pub settings_hash : String

pub record ResumedNodeAttempt : Type 0 where
  pub node_id : String
  pub attempt_id : String
  pub started_at : String
  pub settings : Option SettingsBinding

-- What a new attempt takes from the process: its id, the time and its settings.
pub record AttemptStart : Type 0 where
  pub attempt_id : String
  pub started_at : String
  pub settings : Option SettingsBinding

-- What a node throws: TimeoutError, CancelledError or an AbortError, or anything else.
pub data NodeError : Type 0 where
  timeout abort other : String → NodeError

pub data Execution : Type 0 where
  returns : Option Json → Execution
  throws : NodeError → Execution

-- What an execution leaves behind: its end, the optional fields of its step, and the signals that
-- are read after it.
pub record Ran : Type 0 where
  pub execution : Execution
  pub finished_at : String
  pub duration_ms : ℕ
  pub details : Fields
  pub after : Signals

pub record Environment : Type 0 where
  pub message_text : EngineError → String
  pub now : String
  pub at_boundary : RunState → Signals
  pub woken : RunState → Signals
  pub attempt_start : RunState → String → AttemptStart
  pub run_node : RunState → Ran
  pub at_end : RunState → Signals
  pub settings_at_change : String → ℕ → Option SettingsBinding

pub record NodeAttempt : Type 0 where
  pub result : NodeResult
  pub details : Fields
