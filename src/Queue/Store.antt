-- ===== src/Queue/Store.antt =====
-- The whole queue of src/workflows/queue.ts: reserving a run, and taking the next one.
use pi_workflows.Queue.{
  session_busy, run_queued, owned_by, is_waiting, is_parked, is_live, is_final, is_ended,
  has_pending_request, by_session, already_reserved, parent_not_found, not_a_restart,
  parent_of_other_session, parent_not_terminal, parent_revision_missing, parent_revision_changed,
  wrong_restart_number, root_with_restart, no_project, Entry, LaunchStatus, QueueError,
}
use pi_workflows.Prelude.{
  ◌+◌, ◌>>=◌, elem, [], ◌∷◌, ok, leb, eqb, ◌||◌, ◌>>◌, ◌==◌, not, ◌&&◌, true, some, none, ltb,
  if◌then◌else◌, false, ℕ, throw_if, or_throw, or_else, opt_eq, lookup, is_some, has, String,
  Outcome, Option, List, Bool, Assoc,
}
use pi_workflows.Queue.Claims.{to_run, log_event, claim_run}
use pi_workflows.Json.{end}

pub record ReservationOptions : Type 0 where
  pub run_id : String
  pub workflow_name : String
  pub workflow_ref : String
  pub session : String
  pub headless : Bool
  pub parent_run_id : Option String
  pub restart : Bool
  pub restart_number : Option ℕ
  pub parent_revision : Option ℕ

-- 'queued', 'starting', 'running' and 'parked' hold the reservation of the session.
abbrev pub holds_session : String → Entry → Bool
holds_session session e = opt_eq e.queue.session (some session) && not (is_final e.queue.status)

unfoldable pub session_is_busy : String → Assoc Entry → Bool
session_is_busy session [] = false
session_is_busy session ((id, e) ∷ es) = holds_session session e || session_is_busy session es

pub record Lineage : Type 0 where
  pub root_run_id : String
  pub restart_number : ℕ
  pub parent_revision : Option ℕ

-- A restart names the exact state of its parent, which has ended.
unfoldable pub check_parent : ReservationOptions → Entry → Outcome QueueError Lineage
check_parent o parent = do
  throw_if (not (parent.origin.session == o.session)) parent_of_other_session
  throw_if (not (is_ended parent.run.status) || not (is_final parent.queue.status))
      parent_not_terminal
  revision ← or_throw parent_revision_missing o.parent_revision
  throw_if (not (eqb revision parent.revision)) parent_revision_changed
  throw_if
      (not (
        eqb (or_else o.restart_number (parent.origin.restart_number + 1))
          (parent.origin.restart_number + 1)))
      wrong_restart_number
  ok (record {
    root_run_id = parent.origin.root_run_id;
    restart_number = parent.origin.restart_number + 1;
    parent_revision = some revision;
  })

unfoldable pub lineage_of : ReservationOptions → Assoc Entry → Outcome QueueError Lineage
unfolding check_parent lookup
lineage_of o es = elim o.parent_run_id [
  | none ↦
      throw_if o.restart not_a_restart
      >> (throw_if (is_some o.restart_number || is_some o.parent_revision) root_with_restart
          >> ok (record { root_run_id = o.run_id; restart_number = 0; parent_revision = none }))
  | some id ↦
      throw_if (not o.restart) not_a_restart
      >> (or_throw parent_not_found (lookup id es) >>= check_parent o)
]

abbrev pub session_of : ReservationOptions → Option String
session_of o = if o.headless then none else some o.session

abbrev pub reserved_session_busy : Option String → Assoc Entry → Bool
reserved_session_busy none es = false
reserved_session_busy (some session) es = session_is_busy session es

unfoldable pub queued_entry : ReservationOptions → (project : String) → Lineage → ℕ → Entry
unfolding log_event
queued_entry o project lineage now = record {
  origin = record {
    run_id = o.run_id;
    project_id = project;
    workflow_name = o.workflow_name;
    workflow_ref = o.workflow_ref;
    session = o.session;
    headless = o.headless;
    parent_run_id = o.parent_run_id;
    root_run_id = lineage.root_run_id;
    restart_number = lineage.restart_number;
    parent_revision = lineage.parent_revision;
  };
  queue = record {
    status = LaunchStatus.queued;
    available_at = now;
    session = session_of o;
    error_code = none;
    error = none;
    created_at = now;
    updated_at = now;
    started_at = none;
    finished_at = none;
  };
  run = record {
    status = run_queued;
    paused = false;
    status_detail = none;
    error = none;
    updated_at = now;
    finished_at = none;
  };
  generation = 0;
  holder = none;
  revision = 1;
  events =
      record {
        revision = 1;
        event_type = "run.queued";
        actor_type = by_session;
        actor_id = some o.session;
        generation = none;
        payload = end;
        recorded_at = now;
      }
      ∷ [];
  attempts = [];
  requests = [];
  submissions = [];
  effects = [];
  decisions = [];
  intervals = [];
  calls = [];
}

-- reserveWorkflowRunInTransaction, with the new row put first; `project` is the store's project, if
-- it has one.
unfoldable pub reserve_run :
    (project : Option String)
    → ReservationOptions
    → ℕ
    → Assoc Entry
    → Outcome QueueError (Assoc Entry)
unfolding lineage_of session_is_busy queued_entry has
reserve_run project o now es = do
  throw_if (has o.run_id es) already_reserved
  lineage ← lineage_of o es
  throw_if (reserved_session_busy (session_of o) es) (session_busy o.session)
  project_id ← or_throw no_project project
  ok ((o.run_id, queued_entry o project_id lineage now) ∷ es)

abbrev is_stuck_code : Option String → Bool
is_stuck_code none = false
is_stuck_code (some code) = code == "workflowSourceChanged" || code == "runnerNoProgress"

abbrev in_project : Option String → Entry → Bool
in_project none e = true
in_project (some project) e = e.origin.project_id == project

-- The WHERE clause of claimNextWorkflowRun.
unfoldable pub is_claimable :
    (project : Option String) → (excluded : List String) → (runner : String) → ℕ → Entry → Bool
is_claimable project excluded runner now e =
    in_project project e
    && not (is_final e.queue.status)
    && leb e.queue.available_at now
    && (not (is_live e.holder now) || owned_by e.holder runner)
    && not (is_parked e.queue.status && (is_waiting e.run.status || e.run.paused))
    && not (has_pending_request e)
    && not (is_stuck_code e.queue.error_code)
    && not (elem e.origin.run_id excluded)

-- ORDER BY available_at, created_at.
unfoldable pub comes_before : Entry → Entry → Bool
comes_before a b =
    ltb a.queue.available_at b.queue.available_at
    || (eqb a.queue.available_at b.queue.available_at && leb a.queue.created_at b.queue.created_at)

abbrev pub earlier : Entry → Option Entry → Option Entry
earlier e none = some e
earlier e (some f) = if comes_before e f then some e else some f

-- LIMIT 1 of the rows in order; the database leaves the order of rows that tie open.
unfoldable pub first_claimable :
    (project : Option String)
    → (excluded : List String) → (runner : String) → ℕ
    → Assoc Entry
    → Option Entry
unfolding is_claimable comes_before
first_claimable project excluded runner now [] = none
first_claimable project excluded runner now ((id, e) ∷ es) =
    let rest = first_claimable project excluded runner now es in
    if is_claimable project excluded runner now e then earlier e rest else rest

module _ (token_hash : String → String) where
  unfoldable pub claim_next :
      (project : Option String)
      → (excluded : List String) → (runner token : String) → (lease_ms now : ℕ) → Assoc Entry
      → Option Entry
  unfolding first_claimable claim_run
  claim_next project excluded runner token lease_ms now es =
      elim (first_claimable project excluded runner now es) [
        | none ↦ none
        | some e ↦ claim_run token_hash runner token lease_ms to_run now e
      ]
