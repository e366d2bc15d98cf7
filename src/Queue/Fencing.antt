-- ===== src/Queue/Fencing.antt =====
-- The lease of src/workflows/queue.ts fences off everyone else while it is live.
use pi_workflows.Queue.{Holder, Entry}
use pi_workflows.Prelude.{◌⊎◌, Option, true, ltb, some, ◌≡◌, refl, ℕ, String}
use pi_workflows.Queue.Calls.{after_settling, queue_call, Untouched, QueueCall, IsStranger}
use pi_workflows.Queue.Claims.{record_run_event, log_event}
use pi_workflows.Json.{Fields}

pub untouched : (e : Entry) → Untouched e e
untouched e = record {
  same_origin = refl;
  same_holder = refl;
  same_generation = refl;
  same_queue = refl;
  same_run = refl;
  same_attempts = refl;
  same_requests = refl;
  same_effects = refl;
  same_decisions = refl;
  same_intervals = refl;
}

pub event-Untouched :
    (type : String) (runner : Option String) (payload : Fields) (now : ℕ) (e : Entry)
    → Untouched e (record_run_event type runner payload now e)
unfolding record_run_event log_event
event-Untouched type runner payload now e = record {
  same_origin = refl;
  same_holder = refl;
  same_generation = refl;
  same_queue = refl;
  same_run = refl;
  same_attempts = refl;
  same_requests = refl;
  same_effects = refl;
  same_decisions = refl;
  same_intervals = refl;
}

module _ (token_hash shorten : String → String) where
  abbrev Refuses : QueueCall → Holder → Type 0
  Refuses c h =
      (now : ℕ) (e : Entry)
      → e.holder ≡ some h
      → ltb now h.expires_at ≡ true
      → IsStranger token_hash shorten c h
      → (queue_call token_hash shorten c now e ≡ after_settling c now e)
        ⊎ Untouched (after_settling c now e) (queue_call token_hash shorten c now e)
