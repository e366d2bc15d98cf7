-- ===== src/Queue/Undone.antt =====
-- What holds of an entry through cancelWorkflowRun of src/workflows/queue.ts, whose second
-- transaction may be undone.
use pi_workflows.Queue.{QueueError, Entry}
use pi_workflows.Prelude.{false, none, true, throw, some, ok, ℕ, String, Outcome, Option, Bool}
use pi_workflows.Queue.Calls.{or_undone}
use pi_workflows.Queue.Ends.{cancels, or_stale, end_run, cancel_stale, cancel_run}

module _ (token_hash : String → String) (P : Entry → Type 0) where
  or_undone_keeps :
      (e u : Entry) (r : Outcome QueueError (Entry × Bool))
      → P e
      → P (or_undone u r)
      → P (or_undone e r)
  or_undone_keeps e u (ok (after, b)) before kept = kept
  or_undone_keeps e u (throw error) before kept = before

  or_stale_keeps :
      (token : Option String) (r : Entry × Bool) (now : ℕ) (e : Entry)
      → P e
      → P r.0
      → ((u : Entry) → P u → P (or_undone u (cancel_stale token_hash "workflow-control" now u)))
      → P (or_undone e (or_stale token_hash token r now e))
  or_stale_keeps token (u, true) now e before kept stale = kept
  or_stale_keeps (some token) (u, false) now e before kept stale = kept
  or_stale_keeps none (u, false) now e before kept stale =
      or_undone_keeps e u (cancel_stale token_hash "workflow-control" now u) before (stale u kept)

  -- What both ways of cancelling keep, cancelWorkflowRun keeps.
  pub cancel_run_keeps :
      (token : Option String) (now : ℕ) (e : Entry)
      → P e
      → P (end_run token_hash token cancels "cancelled" "Workflow run cancelled" now e).0
      → ((u : Entry) → P u → P (or_undone u (cancel_stale token_hash "workflow-control" now u)))
      → P (or_undone e (cancel_run token_hash token now e))
  unfolding cancel_run
  cancel_run_keeps token now e before ended stale = or_stale_keeps token _ now e before ended stale
