-- ===== src/Queue/Log.antt =====
-- The log of the run's resource in src/workflows/queue.ts.
use native.Mathlib.Numerals.{add-one}
use pi_workflows.Queue.Ends.{cancel_stale, fails, cancels}
use pi_workflows.Queue.{LaunchStatus, Entry, Event}
use pi_workflows.Json.{Fields}
use pi_workflows.Prelude.{
  some, none, ◌+◌, arith, refl, zero, false, ap, ◌∷◌, true, suc, ◌++◌, if◌then◌else◌, [], ◌≡◌, ℕ,
  map, String, Option, List, Bool,
}
use pi_workflows.Queue.Claims.{
  settle_run_effect, claimed, ClaimOptions, update_claimed_status, renew_claim, release_claim,
  record_run_event, park_run, note_viewer, mark_running, complete_run, claim_run, log_event,
}
use pi_workflows.Queue.Calls.{
  settles_effect, stays, or_same, engine_writes, after_call, EntryReaches, resumes, pauses, records,
  ends, completes, parks, renews, claims, requests_resume, queue_call, parks_source_change,
  parks_no_progress, parks_ambiguous, or_undone, marks_running, cancels_stale, cancels_run,
  QueueCall,
}
use pi_workflows.Queue.Ends.{fail_dependents, end_run, cancel_dependents, Ending}
use pi_workflows.Queue.Parks.{
  resume_paused, request_resume, pause_parked, park_for_source_change, park_for_no_progress,
  park_for_ambiguous_effect,
}
use pi_workflows.Conditions.{fails}
use pi_workflows.Queue.Undone.{cancel_run_keeps}

unfoldable pub revisions_to : ℕ → List ℕ
revisions_to zero = []
revisions_to (suc n) = revisions_to n ++ suc n ∷ []

-- The events of the resource have the revisions 1, 2, … up to its own.
unfoldable pub IsLogged : Entry → Type 0
IsLogged e = map (λ (v : Event). v.revision) e.events ≡ revisions_to e.revision

next_revisions : (n : ℕ) → revisions_to (n + 1) ≡ revisions_to n ++ (n + 1) ∷ []
unfolding revisions_to
next_revisions n = rw add-one refl

map-append_one :
    (es : List Event) (v : Event)
    → map (λ (x : Event). x.revision) (es ++ v ∷ [])
      ≡ map (λ (x : Event). x.revision) es ++ v.revision ∷ []
map-append_one [] v = refl
map-append_one (e ∷ es) v = ap (λ l. e.revision ∷ l) (map-append_one es v)

refused_or :
    (t : Bool) (u e : Entry)
    → IsLogged u
    → IsLogged e
    → IsLogged (or_same e (if t then none else some u))
refused_or true u e after before = before
refused_or false u e after before = after

module _ (token_hash shorten : String → String) where
  end_run-IsLogged :
      (token : Option String) (ending : Ending) (code error : String) (now : ℕ) (e : Entry)
      → IsLogged e
      → IsLogged (end_run token_hash token ending code error now e).0
  unfolding IsLogged end_run log_event note_viewer cancel_dependents fail_dependents
  end_run-IsLogged token fails code error now e h = grind (arith, map-append_one, next_revisions, h)
  end_run-IsLogged token cancels code error now e h =
      grind (arith, map-append_one, next_revisions, h)

  release_claim-IsLogged :
      (token : String) (status : LaunchStatus) (now wall : ℕ) (e : Entry)
      → IsLogged e
      → IsLogged (release_claim token_hash token status now wall e).0
  unfolding IsLogged release_claim log_event note_viewer
  release_claim-IsLogged token status now wall e h =
      grind (arith, map-append_one, next_revisions, h)

  claimed-IsLogged :
      (runner token : String) (lease_ms : ℕ) (o : ClaimOptions) (now : ℕ) (e : Entry)
      → IsLogged e
      → IsLogged (claimed token_hash runner token lease_ms o now e)
  unfolding IsLogged log_event
  claimed-IsLogged runner token lease_ms o now e h =
      grind (arith, map-append_one, next_revisions, h)

  claim_run-IsLogged :
      (runner token : String) (lease_ms : ℕ) (o : ClaimOptions) (now : ℕ) (e : Entry)
      → IsLogged e
      → IsLogged (or_same e (claim_run token_hash runner token lease_ms o now e))
  unfolding claim_run
  claim_run-IsLogged runner token lease_ms o now e h =
      refused_or _ (claimed token_hash runner token lease_ms o now e) e
        (claimed-IsLogged runner token lease_ms o now e h) h

  mark_running-IsLogged :
      (token : String) (now : ℕ) (e : Entry)
      → IsLogged e
      → IsLogged ((mark_running token_hash token now e).0)
  unfolding IsLogged mark_running update_claimed_status log_event note_viewer
  mark_running-IsLogged token now e h = grind (arith, map-append_one, next_revisions, h)

  renew_claim-IsLogged :
      (token : String) (lease_ms : ℕ) (now : ℕ) (e : Entry)
      → IsLogged e
      → IsLogged ((renew_claim token_hash token lease_ms now e).0)
  unfolding IsLogged renew_claim log_event note_viewer
  renew_claim-IsLogged token lease_ms now e h = grind (arith, map-append_one, next_revisions, h)

  park_for_no_progress-IsLogged :
      (token detail : String) (now : ℕ) (e : Entry)
      → IsLogged e
      → IsLogged (or_undone e (park_for_no_progress token_hash shorten token detail now e))
  unfolding IsLogged park_for_no_progress log_event note_viewer
  park_for_no_progress-IsLogged token detail now e h =
      grind (arith, map-append_one, next_revisions, h)

  park_for_source_change-IsLogged :
      (token detail : String) (now : ℕ) (e : Entry)
      → IsLogged e
      → IsLogged (or_undone e (park_for_source_change token_hash shorten token detail now e))
  unfolding IsLogged park_for_source_change log_event note_viewer
  park_for_source_change-IsLogged token detail now e h =
      grind (arith, map-append_one, next_revisions, h)

  park_for_ambiguous_effect-IsLogged :
      (token : String) (now : ℕ) (e : Entry)
      → IsLogged e
      → IsLogged (or_undone e (park_for_ambiguous_effect token_hash shorten token now e))
  unfolding IsLogged park_for_ambiguous_effect log_event note_viewer
  park_for_ambiguous_effect-IsLogged token now e h =
      grind (arith, map-append_one, next_revisions, h)

  pause_parked-IsLogged : (now : ℕ) (e : Entry) → IsLogged e → IsLogged ((pause_parked now e).0)
  unfolding IsLogged pause_parked log_event note_viewer
  pause_parked-IsLogged now e h = grind (arith, map-append_one, next_revisions, h)

  resume_paused-IsLogged : (now : ℕ) (e : Entry) → IsLogged e → IsLogged ((resume_paused now e).0)
  unfolding IsLogged resume_paused log_event note_viewer
  resume_paused-IsLogged now e h = grind (arith, map-append_one, next_revisions, h)

  request_resume-IsLogged : (now : ℕ) (e : Entry) → IsLogged e → IsLogged ((request_resume now e).0)
  unfolding IsLogged request_resume log_event note_viewer
  request_resume-IsLogged now e h = grind (arith, map-append_one, next_revisions, h)

  cancel_stale-IsLogged :
      (control : String) (now : ℕ) (e : Entry)
      → IsLogged e
      → IsLogged (or_undone e (cancel_stale token_hash control now e))
  unfolding IsLogged cancel_stale cancel_dependents log_event note_viewer
  cancel_stale-IsLogged control now e h = grind (arith, map-append_one, next_revisions, h)

  record_run_event-IsLogged :
      (type : String) (runner : Option String) (payload : Fields) (now : ℕ) (e : Entry)
      → IsLogged e
      → IsLogged (record_run_event type runner payload now e)
  unfolding IsLogged record_run_event log_event
  record_run_event-IsLogged type runner payload now e h =
      grind (arith, map-append_one, next_revisions, h)

  call-IsLogged :
      (c : QueueCall) (now : ℕ) (e : Entry)
      → IsLogged e
      → IsLogged (queue_call token_hash shorten c now e)
  unfolding queue_call park_run complete_run record_run_event settle_run_effect IsLogged
  call-IsLogged (claims runner token lease_ms o) now e h =
      claim_run-IsLogged runner token lease_ms o now e h
  call-IsLogged (marks_running token) now e h = mark_running-IsLogged token now e h
  call-IsLogged (renews token lease_ms) now e h = renew_claim-IsLogged token lease_ms now e h
  call-IsLogged (parks token wall) now e h =
      release_claim-IsLogged token LaunchStatus.parked now wall e h
  call-IsLogged (completes token wall) now e h =
      release_claim-IsLogged token LaunchStatus.done now wall e h
  call-IsLogged (parks_no_progress token detail) now e h =
      park_for_no_progress-IsLogged token detail now e h
  call-IsLogged (parks_source_change token detail) now e h =
      park_for_source_change-IsLogged token detail now e h
  call-IsLogged (parks_ambiguous token) now e h = park_for_ambiguous_effect-IsLogged token now e h
  call-IsLogged pauses now e h = pause_parked-IsLogged now e h
  call-IsLogged resumes now e h = resume_paused-IsLogged now e h
  call-IsLogged requests_resume now e h = request_resume-IsLogged now e h
  call-IsLogged (ends token ending code error) now e h =
      end_run-IsLogged token ending code error now e h
  call-IsLogged (cancels_run token) now e h =
      cancel_run_keeps token_hash IsLogged token now e h
        (end_run-IsLogged token cancels "cancelled" "Workflow run cancelled" now e h)
        (cancel_stale-IsLogged "workflow-control" now)
  call-IsLogged (cancels_stale control) now e h = cancel_stale-IsLogged control now e h
  call-IsLogged (records type runner payload) now e h =
      record_run_event-IsLogged type runner payload now e h
  call-IsLogged (settles_effect type) now e h = h

  -- Whatever calls are made on a run in whatever order, by anyone at any time, the events in its log stay
  -- numbered 1, 2, … up to the revision of its resource, with no number left out or used twice.
  pub log_has_no_gap : {e u : Entry} → IsLogged e → EntryReaches token_hash shorten e u → IsLogged u
  unfolding IsLogged
  log_has_no_gap h stays = h
  log_has_no_gap h (after_call {u = v} c now r) = call-IsLogged c now v (log_has_no_gap h r)
  log_has_no_gap h (engine_writes run r) = log_has_no_gap h r
