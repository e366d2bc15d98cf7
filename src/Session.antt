-- ===== src/Session.antt =====
-- src/workflows/session-reducer.ts: the fold of a recorded Pi session into messages and tools, its
-- continuation from a checkpoint, and the index that seeks in it.
-- A message's or a tool's key is its identity. The text of a diagnostic is a constructor of
-- `Diagnostic`. `event.type` other than the seven kinds is `other_event`.
pub mod Step
pub mod Fold
pub mod Keyed
pub mod Blocks
pub mod Keep
pub mod Sorted
pub mod Projected
pub mod Runs
pub mod Continue
pub mod Order
pub mod Seek
mod Tests
use pi_workflows.Prelude.{ℕ, String, Option, List, Bool}
use pi_workflows.Json.{Json, Fields}

pub data BlockKind : Type 0 where
  text thinking tool_call : BlockKind

-- TemporalContentBlock
pub record Block : Type 0 where
  pub content_index : ℕ
  pub kind : BlockKind
  pub content : String
  pub value : Option Json

pub data MessageStatus : Type 0 where
  streaming finished errored settled unsettled : MessageStatus

-- TemporalMessage; the blocks are sorted by `content_index`.
pub record Message : Type 0 where
  pub message_id : String
  pub role : String
  pub status : MessageStatus
  pub entry_id : Option String
  pub blocks : List Block

pub data ToolStatus : Type 0 where
  tool_running tool_finished tool_failed : ToolStatus

-- TemporalTool
pub record Tool : Type 0 where
  pub tool_call_id : String
  pub message_id : String
  pub tool_name : String
  pub status : ToolStatus
  pub args : Option Json
  pub result : Option Json

pub data EventType : Type 0 where
  turn_started turn_finished message_started assistant_event message_finished : EventType
  tool_execution_started tool_execution_finished other_event : EventType

pub data Diagnostic : Type 0 where
  gap : ℕ → Diagnostic
  no_message_id precedes_start : EventType → ℕ → Diagnostic
  uncorrelated : ℕ → Diagnostic
  mismatch : String → String → ℕ → Diagnostic
  entry_missing : String → Diagnostic

-- TemporalSessionState
pub record SessionState : Type 0 where
  pub through_seq : ℕ
  pub messages : List Message
  pub tools : List Tool
  pub settled_entry_ids : List String
  pub diagnostics : List Diagnostic

-- WorkflowSessionEventRecord
pub record SessionEvent : Type 0 where
  pub seq : ℕ
  pub at : String
  pub event_type : EventType
  pub message_id : Option String
  pub tool_call_id : Option String
  pub payload : Fields
