-- ===== src/AttemptTime/Tests.antt =====
-- A crashed server's row, and the calls of src/state/attempt-time.ts after it.
use pi_workflows.AttemptTime.{
  recover, recover_before_start, recover_before_sample, unknown_attempt, TimeState, Clock, sample,
  start,
}
use pi_workflows.AttemptTime.Anchored.{
  inserts, stops, samples, starts, calls_never_throw, calls, TimeCall,
}
use pi_workflows.Prelude.{refl, ok, [], ◌∷◌, ◌+◌, throw, ◌≡◌, ℕ, none, false, List}

abbrev left_open : TimeState
left_open = record {
  intervals =
      record {
        attempt_id = "a1";
        interval_number = 1;
        started_at = 10;
        observed_at = 20;
        elapsed_ms = 7;
        ended_at = none;
      }
      ∷ [];
  anchors = [];
  attempts = "a1" ∷ [];
}

abbrev at_time : ℕ → Clock
at_time t = record { now = 1000 + t; monotonic = t }

crash_refuses_sample : sample false (at_time 5) left_open ≡ throw recover_before_sample
unfolding sample
crash_refuses_sample = refl

crash_refuses_start : start "a1" (at_time 5) left_open ≡ throw recover_before_start
unfolding start
crash_refuses_start = refl

unknown_is_refused : start "a2" (at_time 5) (recover left_open) ≡ throw unknown_attempt
unfolding start recover
unknown_is_refused = refl

abbrev some_calls : List TimeCall
some_calls =
    starts "a1" (at_time 5)
    ∷ samples false (at_time 9)
    ∷ stops "a1" (at_time 12)
    ∷ inserts "a2"
    ∷ starts "a2" (at_time 20)
    ∷ []

calls_never_throw_example : (s' : TimeState) × (calls some_calls (recover left_open) ≡ ok s')
calls_never_throw_example =
    calls_never_throw left_open some_calls (refl, (tt, (tt, (tt, (refl, tt)))))
