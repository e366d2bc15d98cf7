-- ===== src/Queue/Steps.antt =====
-- The sequences of changes of the whole queue of src/workflows/queue.ts.
use pi_workflows.Queue.{Entry, RunRow}
use pi_workflows.Prelude.{
  remove, ◌==◌, ◌+◌, ok, ◌≡◌, if◌then◌else◌, ℕ, String, Option, Assoc, All, [], ◌∷◌,
}
use pi_workflows.Queue.Calls.{queue_call, QueueCall, IsFree}
use pi_workflows.Queue.Store.{reserve_run, holds_session, ReservationOptions}

-- A write of the engine to the row of a run, src/workflows/store.ts.
unfoldable pub write_at : String → RunRow → Assoc Entry → Assoc Entry
write_at run_id run [] = []
write_at run_id run ((id, e) ∷ es) =
    (id, if id == run_id then record e { run = run } else e) ∷ write_at run_id run es

-- How many runs hold the reservation of a session.
unfoldable pub active_runs : String → Assoc Entry → ℕ
active_runs session [] = 0
active_runs session ((id, e) ∷ es) =
    (if holds_session session e then 1 else 0) + active_runs session es

abbrev pub AllFree : Assoc Entry → Type 0
AllFree es = All (λ (p : String × Entry). IsFree p.1) es

module _ (token_hash shorten : String → String) where
  -- A call on the run with an id.
  unfoldable pub call_at : String → QueueCall → ℕ → Assoc Entry → Assoc Entry
  unfolding queue_call
  call_at run_id c now [] = []
  call_at run_id c now ((id, e) ∷ es) =
      (id, if id == run_id then queue_call token_hash shorten c now e else e)
      ∷ call_at run_id c now es

  -- The whole queue's changes, from any callers at any times: a run is reserved or deleted, a call
  -- is made on one, and the engine writes to a run's row.
  pub data QueueReaches (es : Assoc Entry) : Assoc Entry → Type 0 where
    starts_there : QueueReaches es es
    reserves :
        {fs gs : Assoc Entry} (project : Option String) (o : ReservationOptions) (now : ℕ)
        → QueueReaches es fs
        → reserve_run project o now fs ≡ ok gs
        → QueueReaches es gs
    calls_on :
        {fs : Assoc Entry} (run_id : String) (c : QueueCall) (now : ℕ)
        → QueueReaches es fs
        → QueueReaches es (call_at run_id c now fs)
    deletes :
        {fs : Assoc Entry} (run_id : String)
        → QueueReaches es fs
        → QueueReaches es (remove run_id fs)
    engine_writes_to :
        {fs : Assoc Entry} (run_id : String) (run : RunRow)
        → QueueReaches es fs
        → QueueReaches es (write_at run_id run fs)
