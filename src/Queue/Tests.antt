-- ===== src/Queue/Tests.antt =====
-- A queue of two runs, and the theorems on src/workflows/queue.ts at it.
use pi_workflows.Queue.{session_busy, Holder, Entry}
use pi_workflows.Prelude.{
  true, ◌⊎◌, ◌≤◌, throw, refl, ok, [], ◌≡◌, ◌∷◌, some, none, has, false, append, String, Assoc,
}
use pi_workflows.Queue.Calls.{stays, completes, claims, queue_call, cancels_run, after_call}
use pi_workflows.Queue.Claims.{to_run, new_holder, log_event, claimed, claim_run}
use pi_workflows.Queue.Log.{revisions_to, log_has_no_gap, IsLogged}
use pi_workflows.Queue.Next.{claim_next_lem, Stored, NoneClaimable, IsFirst}
use pi_workflows.Queue.Sessions.{one_active_run}
use pi_workflows.Queue.Steps.{reserves, starts_there, calls_on, call_at, active_runs}
use pi_workflows.Queue.Store.{
  session_is_busy, reserve_run, queued_entry, lineage_of, is_claimable, first_claimable,
  comes_before, claim_next, ReservationOptions, Lineage,
}

abbrev options : String → String → ReservationOptions
options run_id session = record {
  run_id = run_id;
  workflow_name = "review";
  workflow_ref = "review@1";
  session = session;
  headless = false;
  parent_run_id = none;
  restart = false;
  restart_number = none;
  parent_revision = none;
}

abbrev hash : String → String
hash token = append "sha256:" token

abbrev shortened : String → String
shortened text = text

abbrev root : String → Lineage
root run_id = record { root_run_id = run_id; restart_number = 0; parent_revision = none }

abbrev first_run : Entry
first_run = queued_entry (options "r1" "s1") "p" (root "r1") 5

abbrev second_run : Entry
second_run = queued_entry (options "r2" "s2") "p" (root "r2") 3

abbrev one_run : Assoc Entry
one_run = ("r1", first_run) ∷ []

abbrev two_runs : Assoc Entry
two_runs = ("r2", second_run) ∷ ("r1", first_run) ∷ []

reserves_first : reserve_run (some "p") (options "r1" "s1") 5 [] ≡ ok one_run
unfolding reserve_run lineage_of session_is_busy queued_entry has
reserves_first = refl

reserves_second : reserve_run (some "p") (options "r2" "s2") 3 one_run ≡ ok two_runs
unfolding reserve_run lineage_of session_is_busy queued_entry has
reserves_second = refl

session_is_refused :
    reserve_run (some "p") (options "r3" "s1") 9 two_runs ≡ throw (session_busy "s1")
unfolding reserve_run lineage_of session_is_busy queued_entry has
session_is_refused = refl

abbrev held_by : String → String → Holder
held_by runner token = new_holder hash runner token 100 10

abbrev held_run : Entry
held_run = claimed hash "server-1" "t1" 100 to_run 10 first_run

claims_first : claim_run hash "server-1" "t1" 100 to_run 10 first_run ≡ some held_run
unfolding claim_run queued_entry log_event
claims_first = refl

abbrev ended_run : Entry
ended_run =
    queue_call hash shortened (completes "t1" 60) 50
      (queue_call hash shortened (claims "server-1" "t1" 100 to_run) 10 first_run)

abbrev late_run : Entry
late_run = queue_call hash shortened (cancels_run none) 70 ended_run

log_has_no_gap_example : IsLogged ended_run
unfolding queued_entry
log_has_no_gap_example =
    log_has_no_gap hash shortened {e = first_run} (unfold IsLogged revisions_to in refl)
      (after_call (completes "t1" 60) 50 (after_call (claims "server-1" "t1" 100 to_run) 10 stays))

one_active_run_example :
    active_runs "s1" (call_at hash shortened "r1" (claims "server-1" "t1" 100 to_run) 10 two_runs)
    ≤ 1
one_active_run_example = one_active_run hash shortened "s1" (
    calls_on "r1" (claims "server-1" "t1" 100 to_run) 10 (
      reserves (some "p") (options "r2" "s2") 3
        (reserves (some "p") (options "r1" "s1") 5 starts_there reserves_first) reserves_second))

abbrev Takes : Assoc Entry → Type 0
Takes es =
    ((claim_next hash (some "p") [] "server-1" "t1" 100 10 es ≡ none)
      × NoneClaimable (some "p") [] "server-1" 10 es)
    ⊎ ((e : Entry) × (claim_next hash (some "p") [] "server-1" "t1" 100 10 es
          ≡ some (claimed hash "server-1" "t1" 100 to_run 10 e))
        × Stored e es
        × (is_claimable (some "p") [] "server-1" 10 e ≡ true)
        × IsFirst (some "p") [] "server-1" 10 e es)

claim_next_lem_example : Takes two_runs
claim_next_lem_example = claim_next_lem hash (some "p") [] "server-1" "t1" 100 10 two_runs

takes_the_earlier :
    claim_next hash (some "p") [] "server-1" "t1" 100 10 two_runs
    ≡ some (claimed hash "server-1" "t1" 100 to_run 10 second_run)
unfolding claim_next claim_run first_claimable is_claimable comes_before queued_entry log_event
takes_the_earlier = refl
