-- ===== src/Queue/Claims.antt =====
-- The claims of src/workflows/queue.ts: taking, renewing, checking and releasing a run's lease, with
-- the log of the run's resource (src/state/project-store.ts). `false` with the entry as it was
-- stands for a refusal, and a throw undoes the transaction.
use pi_workflows.Queue.{
  viewer_deltas, owner_type_of, owner_id_of, owned_by, launch_text, is_live, is_final, holds_hash,
  has_pending_request, generation_of, effect_pending, effect_applied, by_system, by_session,
  by_server, OwnerType, EffectStatus, Effect, Entry, Holder, QueueRow, LaunchStatus,
}
use pi_workflows.Json.{end, str, num, field, double_of, Fields}
use pi_workflows.Prelude.{
  not, ◌||◌, ◌==◌, append, [], ◌∷◌, ◌+◌, ◌++◌, ◌&&◌, some, none, if◌then◌else◌, ℕ, true,
  strip_prefix, or_else, is_some, false, String, Option, List, Bool,
}

-- bumpResource, whose expected revision is the one just read, and insertEvent.
unfoldable pub log_event :
    String → OwnerType → Option String → Option ℕ → Fields → ℕ → Entry → Entry
log_event type actor_type actor_id generation payload now e = record e {
  revision = e.revision + 1;
  events =
      e.events
      ++ record {
        revision = e.revision + 1;
        event_type = type;
        actor_type = actor_type;
        actor_id = actor_id;
        generation = generation;
        payload = payload;
        recorded_at = now;
      }
        ∷ [];
  calls = e.calls ++ viewer_deltas ("summary" ∷ "graph" ∷ "replay" ∷ "inspector:run" ∷ []) now ∷ [];
}

-- recordViewerDeltas for the summary and the replay.
unfoldable pub note_viewer : ℕ → Entry → Entry
note_viewer now e = record e {
  calls = e.calls ++ viewer_deltas ("summary" ∷ "replay" ∷ []) now ∷ [];
}

abbrev pub status_payload : LaunchStatus → Fields
status_payload status = field "status" (str (launch_text status)) end

abbrev pub code_payload : String → String → Fields
code_payload status code = field "status" (str status) (field "code" (str code) end)

-- `runnerId.startsWith("server-")`
unfoldable pub owner_type_for : String → OwnerType
unfolding strip_prefix
owner_type_for runner = if is_some (strip_prefix "server-" runner) then by_server else by_session

abbrev pub set_status : LaunchStatus → ℕ → QueueRow → QueueRow
set_status status now q = record q { status = status; updated_at = now }

abbrev pub set_starting : Bool → ℕ → QueueRow → QueueRow
set_starting true now q = q
set_starting false now q = record q {
  status = LaunchStatus.starting;
  error_code = none;
  error = none;
  updated_at = now;
}

-- The options of claimRunInTransaction.
pub record ClaimOptions : Type 0 where
  pub allow_pending_interaction : Bool
  pub preserve_queue_status : Bool

abbrev pub to_run : ClaimOptions
to_run = record { allow_pending_interaction = false; preserve_queue_status = false }

abbrev pub to_validate : ClaimOptions
to_validate = record { allow_pending_interaction = true; preserve_queue_status = false }

abbrev pub to_control : ClaimOptions
to_control = record { allow_pending_interaction = true; preserve_queue_status = true }

-- `token_hash` is the hash of a token, from node:crypto.
module _ (token_hash : String → String) where
  abbrev pub new_holder : String → String → ℕ → ℕ → Holder
  new_holder runner token lease_ms now = record {
    owner_type = owner_type_for runner;
    owner_id = runner;
    token_hash = token_hash token;
    acquired_at = now;
    heartbeat_at = now;
    expires_at = now + lease_ms;
  }

  abbrev pub claimed : String → String → ℕ → ClaimOptions → ℕ → Entry → Entry
  claimed runner token lease_ms options now e =
      log_event "lease.claimed" (owner_type_for runner) (some runner)
        (generation_of (e.generation + 1))
        (field "expiresAt" (num (double_of (now + lease_ms))) end) now
        (record e {
          generation = e.generation + 1;
          holder = some (new_holder runner token lease_ms now);
          queue = set_starting options.preserve_queue_status now e.queue;
        })

  -- claimRunInTransaction; `none` is `undefined`.
  unfoldable pub claim_run : String → String → ℕ → ClaimOptions → ℕ → Entry → Option Entry
  unfolding log_event owner_type_for double_of
  claim_run runner token lease_ms options now e =
      let taken = claimed runner token lease_ms options now e in
      if is_final e.queue.status
        || (not options.allow_pending_interaction && has_pending_request e)
        || (is_live e.holder now && not (owned_by e.holder runner))
      then none
      else some taken

  unfoldable pub verify_claim : String → ℕ → Entry → Bool
  verify_claim token now e = is_live e.holder now && holds_hash e.holder (token_hash token)

  -- updateClaimedRunStatus
  unfoldable pub update_claimed_status : String → LaunchStatus → ℕ → Entry → Entry × Bool
  unfolding verify_claim log_event
  update_claimed_status token status now e =
      let marked : Entry = record e {
        queue = record (set_status status now e.queue) {
          started_at = some (or_else e.queue.started_at now);
        };
      } in
      if verify_claim token now e
      then (
        log_event (append "run.queue_" (launch_text status)) (owner_type_of e.holder)
            (owner_id_of e.holder) (generation_of e.generation) (status_payload status) now marked,
        true,
      )
      else (e, false)

  unfoldable pub mark_running : String → ℕ → Entry → Entry × Bool
  unfolding update_claimed_status
  mark_running token now e = update_claimed_status token LaunchStatus.running now e

  abbrev pub renewed : ℕ → ℕ → Holder → Holder
  renewed lease_ms now h = record h { heartbeat_at = now; expires_at = now + lease_ms }

  abbrev pub renew_holder : ℕ → ℕ → Option Holder → Option Holder
  renew_holder lease_ms now none = none
  renew_holder lease_ms now (some h) = some (renewed lease_ms now h)

  -- renewWorkflowRunClaim: the UPDATE changes a live lease with this token.
  unfoldable pub renew_claim : String → ℕ → ℕ → Entry → Entry × Bool
  unfolding verify_claim note_viewer
  renew_claim token lease_ms now e =
      let kept = note_viewer now (record e { holder = renew_holder lease_ms now e.holder }) in
      if verify_claim token now e then (kept, true) else (e, false)

  pub record Authority : Type 0 where
    pub actor_type : OwnerType
    pub owner_id : String
    pub generation : ℕ
    pub lease_ms : ℕ

  abbrev authority_of : String → ℕ → Holder → Option Authority
  authority_of token generation h =
      let found : Authority = record {
        actor_type = owner_type_for h.owner_id;
        owner_id = h.owner_id;
        generation = generation;
        lease_ms = 30000;
      } in
      if h.token_hash == token_hash token then some found else none

  -- workflowRunAuthority, which does not ask whether the lease has expired.
  unfoldable pub run_authority : String → Entry → Option Authority
  unfolding owner_type_for
  run_authority token e = elim e.holder [ none ↦ none | some h ↦ authority_of token e.generation h ]

-- settleRunEffect at one effect; its clock is read anew.
abbrev pub apply_effect : (run_id type : String) → ℕ → Effect → Effect
apply_effect run_id type wall f = record f {
  status = effect_applied;
  settled_at = some wall;
  revision = f.revision + 1;
  events =
      f.events
      ++ record {
        revision = f.revision + 1;
        event_type = "effect.applied";
        actor_type = by_system;
        actor_id = none;
        generation = none;
        payload = field "runId" (str run_id) (field "effectType" (str type) end);
        recorded_at = wall;
      }
        ∷ [];
}

abbrev pub is_effect_pending : EffectStatus → Bool
is_effect_pending effect_pending = true
is_effect_pending _ = false

unfoldable pub settle_effects : (run_id type : String) → ℕ → List Effect → List Effect
settle_effects run_id type wall [] = []
settle_effects run_id type wall (f ∷ fs) =
    (if f.effect_type == type && is_effect_pending f.status
      then apply_effect run_id type wall f
      else f)
    ∷ settle_effects run_id type wall fs

-- settleRunEffect, which asks for no token.
unfoldable pub settle_run_effect : (type : String) → ℕ → Entry → Entry
unfolding settle_effects
settle_run_effect type wall e = record e {
  effects = settle_effects e.origin.run_id type wall e.effects;
}

abbrev pub finished_when_done : LaunchStatus → ℕ → Option ℕ
finished_when_done LaunchStatus.done now = some now
finished_when_done _ now = none

abbrev pub effect_for : LaunchStatus → String
effect_for LaunchStatus.parked = "run.park_queue"
effect_for _ = "run.settle_queue"

module _ (token_hash : String → String) where
  -- releaseRunClaim: the lease whose token was checked is cleared.
  unfoldable pub release_claim : String → LaunchStatus → (now wall : ℕ) → Entry → Entry × Bool
  unfolding verify_claim log_event note_viewer settle_effects
  release_claim token status now wall e =
      let released : Entry = record e {
        queue = record (set_status status now e.queue) {
          finished_at = finished_when_done status now;
        };
        holder = none;
      } in
      let logged =
        log_event (append "run.queue_" (launch_text status)) (owner_type_of e.holder)
          (owner_id_of e.holder) (generation_of e.generation) (status_payload status) now
          released in
      let settled : Entry = record logged {
        effects = settle_effects e.origin.run_id (effect_for status) wall logged.effects;
      } in
      if verify_claim token_hash token now e then (note_viewer now settled, true) else (e, false)

  unfoldable pub park_run : String → (now wall : ℕ) → Entry → Entry × Bool
  unfolding release_claim
  park_run token now wall e = release_claim token LaunchStatus.parked now wall e

  unfoldable pub complete_run : String → (now wall : ℕ) → Entry → Entry × Bool
  unfolding release_claim
  complete_run token now wall e = release_claim token LaunchStatus.done now wall e

-- recordRunEvent, which asks for no claim.
unfoldable pub record_run_event : String → Option String → Fields → ℕ → Entry → Entry
unfolding log_event owner_type_for
record_run_event type runner payload now e =
    log_event type (elim runner [ none ↦ by_session | some id ↦ owner_type_for id ]) runner
      (generation_of e.generation) payload now e
