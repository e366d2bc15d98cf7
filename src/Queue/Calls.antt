-- ===== src/Queue/Calls.antt =====
-- The calls of src/workflows/queue.ts on one run, by any caller at any time.
use pi_workflows.Queue.{Effect, is_final, Holder, Entry, RunRow, QueueError}
use pi_workflows.Json.{Fields}
use pi_workflows.Prelude.{
  List, true, throw, none, false, ◌≡◌, ◌==◌, some, ok, ℕ, is_some, String, Outcome, Option, Bool,
}
use pi_workflows.Queue.Claims.{
  settle_run_effect, settle_effects, renew_claim, record_run_event, park_run, mark_running,
  complete_run, claim_run, ClaimOptions,
}
use pi_workflows.Queue.Ends.{end_run, cancel_stale, cancel_run, Ending}
use pi_workflows.Queue.Parks.{
  resume_paused, request_resume, pause_parked, park_for_source_change, park_for_no_progress,
  park_for_ambiguous_effect,
}

pub data QueueCall : Type 0 where
  claims : (runner token : String) → (lease_ms : ℕ) → ClaimOptions → QueueCall
  marks_running : (token : String) → QueueCall
  renews : (token : String) → (lease_ms : ℕ) → QueueCall
  parks completes : (token : String) → (wall : ℕ) → QueueCall
  parks_no_progress parks_source_change : (token detail : String) → QueueCall
  parks_ambiguous : (token : String) → QueueCall
  pauses resumes requests_resume : QueueCall
  ends : Option String → Ending → (code error : String) → QueueCall
  cancels_run : Option String → QueueCall
  cancels_stale : (control : String) → QueueCall
  records : (type : String) → Option String → Fields → QueueCall
  settles_effect : (type : String) → QueueCall

-- The entry after a claim that may be refused, and after a transaction that may be undone.
abbrev pub or_same : Entry → Option Entry → Entry
or_same e none = e
or_same e (some e') = e'

abbrev pub or_undone : Entry → Outcome QueueError (Entry × Bool) → Entry
or_undone e (ok (e', done)) = e'
or_undone e (throw error) = e

-- An ended run has no holder.
abbrev pub IsFree : Entry → Type 0
IsFree e = is_final e.queue.status ≡ true → is_some e.holder ≡ false

module _ (token_hash shorten : String → String) where
  unfoldable pub queue_call : QueueCall → ℕ → Entry → Entry
  unfolding claim_run mark_running renew_claim park_run complete_run park_for_no_progress
      park_for_source_change park_for_ambiguous_effect pause_parked resume_paused request_resume
      end_run cancel_run cancel_stale record_run_event settle_run_effect
  queue_call (claims runner token lease_ms options) now e =
      or_same e (claim_run token_hash runner token lease_ms options now e)
  queue_call (marks_running token) now e = (mark_running token_hash token now e).0
  queue_call (renews token lease_ms) now e = (renew_claim token_hash token lease_ms now e).0
  queue_call (parks token wall) now e = (park_run token_hash token now wall e).0
  queue_call (completes token wall) now e = (complete_run token_hash token now wall e).0
  queue_call (parks_no_progress token detail) now e =
      or_undone e (park_for_no_progress token_hash shorten token detail now e)
  queue_call (parks_source_change token detail) now e =
      or_undone e (park_for_source_change token_hash shorten token detail now e)
  queue_call (parks_ambiguous token) now e =
      or_undone e (park_for_ambiguous_effect token_hash shorten token now e)
  queue_call pauses now e = (pause_parked now e).0
  queue_call resumes now e = (resume_paused now e).0
  queue_call requests_resume now e = (request_resume now e).0
  queue_call (ends token ending code error) now e =
      (end_run token_hash token ending code error now e).0
  queue_call (cancels_run token) now e = or_undone e (cancel_run token_hash token now e)
  queue_call (cancels_stale control) now e = or_undone e (cancel_stale token_hash control now e)
  queue_call (records type runner payload) now e = record_run_event type runner payload now e
  queue_call (settles_effect type) now e = settle_run_effect type now e

  -- The states of an entry: each call has a time of its own, and the engine may write to the run's row
  -- at any time (src/workflows/store.ts).
  pub data EntryReaches (e : Entry) : Entry → Type 0 where
    stays : EntryReaches e e
    after_call :
        {u : Entry} (c : QueueCall) (now : ℕ)
        → EntryReaches e u
        → EntryReaches e (queue_call c now u)
    engine_writes :
        {u : Entry} (run : RunRow) → EntryReaches e u → EntryReaches e (record u { run = run })

  -- The call is no claim of the holder's, and comes without the holder's token.
  abbrev pub IsStranger : QueueCall → Holder → Type 0
  IsStranger (claims runner token lease_ms options) h = (h.owner_id == runner) ≡ false
  IsStranger (marks_running token) h = (h.token_hash == token_hash token) ≡ false
  IsStranger (renews token lease_ms) h = (h.token_hash == token_hash token) ≡ false
  IsStranger (parks token wall) h = (h.token_hash == token_hash token) ≡ false
  IsStranger (completes token wall) h = (h.token_hash == token_hash token) ≡ false
  IsStranger (parks_no_progress token detail) h = (h.token_hash == token_hash token) ≡ false
  IsStranger (parks_source_change token detail) h = (h.token_hash == token_hash token) ≡ false
  IsStranger (parks_ambiguous token) h = (h.token_hash == token_hash token) ≡ false
  IsStranger (ends (some token) ending code error) h = (h.token_hash == token_hash token) ≡ false
  IsStranger (cancels_run (some token)) h = (h.token_hash == token_hash token) ≡ false
  IsStranger _ h = Unit

-- What settleRunEffect does, the other calls aside.
unfoldable pub after_settling : QueueCall → ℕ → Entry → Entry
unfolding settle_run_effect
after_settling (settles_effect type) now e = settle_run_effect type now e
after_settling _ now e = e

-- Pending effects of a run that settleRunEffect has applied, at any times.
pub data EffectsSettled (run_id : String) (fs : List Effect) : List Effect → Type 0 where
  none_settled : EffectsSettled run_id fs fs
  then_settled :
      {gs : List Effect} (type : String) (wall : ℕ)
      → EffectsSettled run_id fs gs
      → EffectsSettled run_id fs (settle_effects run_id type wall gs)

-- The entries differ in their log at most.
pub record Untouched (e e' : Entry) : Type 0 where
  pub same_origin : e'.origin ≡ e.origin
  pub same_holder : e'.holder ≡ e.holder
  pub same_generation : e'.generation ≡ e.generation
  pub same_queue : e'.queue ≡ e.queue
  pub same_run : e'.run ≡ e.run
  pub same_attempts : e'.attempts ≡ e.attempts
  pub same_requests : e'.requests ≡ e.requests
  pub same_effects : e'.effects ≡ e.effects
  pub same_decisions : e'.decisions ≡ e.decisions
  pub same_intervals : e'.intervals ≡ e.intervals
