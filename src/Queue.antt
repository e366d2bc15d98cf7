-- ===== src/Queue.antt =====
-- The queue of runs, src/workflows/queue.ts: what the database has about one run, in the tables
-- run_queue, runs, run_bindings, resources, leases, node_attempts, interactive_requests, effects,
-- human_decisions and events. A text that the database keeps by its hash stands here itself. The
-- check of the table leases, in src/state/schema.ts, lets the holder's columns be set or missing
-- together only.
pub mod Claims
pub mod Parks
pub mod Ends
pub mod Store
pub mod Calls
pub mod Undone
pub mod Fencing
pub mod Final
pub mod Log
pub mod Steps
pub mod Sessions
pub mod Next
pub mod Tests
use pi_workflows.AttemptTime.{Interval}
use pi_workflows.Json.{Json, Fields}
use pi_workflows.Prelude.{
  zero, ◌==◌, suc, ltb, true, some, none, false, any, ℕ, String, Option, List, Bool,
}

pub data LaunchStatus : Type 0 where
  queued starting running parked done failed cancelled : LaunchStatus

pub data StoredStatus : Type 0 where
  run_queued run_running run_waiting run_completed run_failed run_timed_out run_cancelled :
      StoredStatus

pub data OwnerType : Type 0 where
  by_session by_server by_system by_control : OwnerType

pub record Holder : Type 0 where
  pub owner_type : OwnerType
  pub owner_id : String
  pub token_hash : String
  pub acquired_at : ℕ
  pub heartbeat_at : ℕ
  pub expires_at : ℕ

pub record QueueRow : Type 0 where
  pub status : LaunchStatus
  pub available_at : ℕ
  pub session : Option String
  pub error_code : Option String
  pub error : Option String
  pub created_at : ℕ
  pub updated_at : ℕ
  pub started_at : Option ℕ
  pub finished_at : Option ℕ

pub record RunRow : Type 0 where
  pub status : StoredStatus
  pub paused : Bool
  pub status_detail : Option String
  pub error : Option String
  pub updated_at : ℕ
  pub finished_at : Option ℕ

-- What the run is, written once.
pub record Origin : Type 0 where
  pub run_id : String
  pub project_id : String
  pub workflow_name : String
  pub workflow_ref : String
  pub session : String
  pub headless : Bool
  pub parent_run_id : Option String
  pub root_run_id : String
  pub restart_number : ℕ
  pub parent_revision : Option ℕ

pub data AttemptStatus : Type 0 where
  attempt_pending attempt_running attempt_waiting attempt_interrupted attempt_completed
        attempt_timed_out attempt_failed attempt_cancelled :
      AttemptStatus

pub record Attempt : Type 0 where
  pub attempt_id : String
  pub status : AttemptStatus
  pub error : Option String
  pub updated_at : ℕ
  pub finished_at : Option ℕ

pub data RequestStatus : Type 0 where
  request_pending request_settled request_cancelled : RequestStatus

pub record Request : Type 0 where
  pub request_id : String
  pub status : RequestStatus
  pub revision : ℕ
  pub updated_at : ℕ

-- Whether the outcome is still 'validating', and else the receipt.
pub record Submission : Type 0 where
  pub request_id : String
  pub receipt : Option String

pub record Event : Type 0 where
  pub revision : ℕ
  pub event_type : String
  pub actor_type : OwnerType
  pub actor_id : Option String
  pub generation : Option ℕ
  pub payload : Fields
  pub recorded_at : ℕ

pub data EffectStatus : Type 0 where
  effect_pending effect_applying effect_applied effect_rejected effect_ambiguous effect_cancelled :
      EffectStatus

pub record EffectAttempt : Type 0 where
  pub attempt_number : ℕ
  pub finished_at : Option ℕ
  pub outcome : Option String

-- An effect has a resource of its own, with its revision and events.
pub record Effect : Type 0 where
  pub effect_type : String
  pub of_run : Bool
  pub status : EffectStatus
  pub attempt_count : ℕ
  pub attempts : List EffectAttempt
  pub error : Option String
  pub settled_at : Option ℕ
  pub revision : ℕ
  pub events : List Event

pub record Decision : Type 0 where
  pub decision_id : String
  pub cancelled_by : Option (String × ℕ)
  pub resolved : Bool

-- Calls of other stores: the viewer's deltas and the workflow messages.
pub data StoreCall : Type 0 where
  viewer_deltas : List String → (now : ℕ) → StoreCall
  cancel_pending_messages : (now : ℕ) → StoreCall

pub record Entry : Type 0 where
  pub origin : Origin
  pub queue : QueueRow
  pub run : RunRow
  pub generation : ℕ
  pub holder : Option Holder
  pub revision : ℕ
  pub events : List Event
  pub attempts : List Attempt
  pub requests : List Request
  pub submissions : List Submission
  pub effects : List Effect
  pub decisions : List Decision
  pub intervals : List Interval
  pub calls : List StoreCall

pub data QueueError : Type 0 where
  already_reserved parent_not_found not_a_restart parent_of_other_session parent_not_terminal
        parent_revision_missing parent_revision_changed wrong_restart_number root_with_restart
        changed_during_recovery inconsistent_source_change inconsistent_effect inconsistent_cancel
        no_project :
      QueueError
  session_busy : String → QueueError

-- 'done', 'failed' and 'cancelled'.
abbrev pub is_final : LaunchStatus → Bool
is_final LaunchStatus.done = true
is_final LaunchStatus.failed = true
is_final LaunchStatus.cancelled = true
is_final _ = false

abbrev pub is_parked : LaunchStatus → Bool
is_parked LaunchStatus.parked = true
is_parked _ = false

abbrev pub is_queued_or_starting : LaunchStatus → Bool
is_queued_or_starting LaunchStatus.queued = true
is_queued_or_starting LaunchStatus.starting = true
is_queued_or_starting _ = false

abbrev pub is_launched : LaunchStatus → Bool
is_launched LaunchStatus.starting = true
is_launched LaunchStatus.running = true
is_launched LaunchStatus.parked = true
is_launched _ = false

abbrev pub launch_text : LaunchStatus → String
launch_text LaunchStatus.queued = "queued"
launch_text LaunchStatus.starting = "starting"
launch_text LaunchStatus.running = "running"
launch_text LaunchStatus.parked = "parked"
launch_text LaunchStatus.done = "done"
launch_text LaunchStatus.failed = "failed"
launch_text LaunchStatus.cancelled = "cancelled"

-- 'completed', 'failed', 'timed_out' and 'cancelled'.
abbrev pub is_ended : StoredStatus → Bool
is_ended run_completed = true
is_ended run_failed = true
is_ended run_timed_out = true
is_ended run_cancelled = true
is_ended _ = false

abbrev pub is_running : StoredStatus → Bool
is_running run_running = true
is_running _ = false

abbrev pub is_waiting : StoredStatus → Bool
is_waiting run_waiting = true
is_waiting _ = false

abbrev pub is_unsettled : AttemptStatus → Bool
is_unsettled attempt_pending = true
is_unsettled attempt_running = true
is_unsettled attempt_waiting = true
is_unsettled attempt_interrupted = true
is_unsettled _ = false

abbrev pub is_started : AttemptStatus → Bool
is_started attempt_pending = true
is_started attempt_running = true
is_started _ = false

abbrev pub is_request_pending : RequestStatus → Bool
is_request_pending request_pending = true
is_request_pending _ = false

-- `SELECT 1 FROM interactive_requests WHERE run_id = ? AND status = 'pending'`
abbrev pub has_pending_request : Entry → Bool
has_pending_request e = any (λ r. is_request_pending r.status) e.requests

-- `ownerId !== null && expiresAt !== null && expiresAt > now`
abbrev pub is_live : Option Holder → ℕ → Bool
is_live none now = false
is_live (some h) now = ltb now h.expires_at

abbrev pub owned_by : Option Holder → String → Bool
owned_by none id = false
owned_by (some h) id = h.owner_id == id

-- The holder's token has the given hash.
abbrev pub holds_hash : Option Holder → String → Bool
holds_hash none hash = false
holds_hash (some h) hash = h.token_hash == hash

abbrev pub owner_type_of : Option Holder → OwnerType
owner_type_of none = by_system
owner_type_of (some h) = h.owner_type

abbrev pub owner_id_of : Option Holder → Option String
owner_id_of none = none
owner_id_of (some h) = some h.owner_id

-- `lease.generation || undefined`
abbrev pub generation_of : ℕ → Option ℕ
generation_of zero = none
generation_of (suc g) = some (suc g)

abbrev pub is_none : Option String → Bool
is_none none = true
is_none (some s) = false
