-- ===== src/AttemptTime.antt =====
-- The active time of attempts, from src/state/attempt-time.ts: the rows of the table
-- attempt_active_intervals, the ids of node_attempts, and the anchors that one server process keeps. A query reads the rows in
-- their order; the monotonic clock counts in units as fine as needed.
pub mod Anchors
pub mod Anchored
mod Tests
use Prim.Native.Nat.{max}
use pi_workflows.Prelude.{
  ◌-◌, ◌>>=◌, ◌++◌, eqb, any, ◌∷◌, ◌==◌, ◌+◌, ◌&&◌, throw, ok, not, none, if◌then◌else◌, elem, ℕ,
  true, some, or_else, is_some, find_first, [], String, Outcome, Option, List, Bool,
}

pub record Interval : Type 0 where
  pub attempt_id : String
  pub interval_number : ℕ
  pub started_at : ℕ
  pub observed_at : ℕ
  pub elapsed_ms : ℕ
  pub ended_at : Option ℕ

pub record Anchor : Type 0 where
  pub attempt_id : String
  pub interval_number : ℕ
  pub at : ℕ

pub record TimeState : Type 0 where
  pub intervals : List Interval
  pub anchors : List Anchor
  -- The ids of the table node_attempts, which the intervals refer to.
  pub attempts : List String

-- `now` is the wall clock, which the budget never reads.
pub record Clock : Type 0 where
  pub now : ℕ
  pub monotonic : ℕ

pub data TimeError : Type 0 where
  recover_before_start recover_before_sample unknown_attempt : TimeError

unfoldable pub is_open : Interval → Bool
is_open i = not (is_some i.ended_at)

unfoldable pub open_intervals : List Interval → List Interval
unfolding is_open
open_intervals [] = []
open_intervals (i ∷ is) = if is_open i then i ∷ open_intervals is else open_intervals is

-- The row or the anchor of an interval: equal texts of intervalKey are equal pairs.
unfoldable pub is_at : String → ℕ → String → ℕ → Bool
is_at id n id' n' = id == id' && eqb n n'

unfoldable pub find_anchor : String → ℕ → List Anchor → Option ℕ
unfolding is_at
find_anchor id n [] = none
find_anchor id n (a ∷ as') =
    if is_at a.attempt_id a.interval_number id n then some a.at else find_anchor id n as'

unfoldable pub set_anchor : Anchor → List Anchor → List Anchor
unfolding is_at
set_anchor new [] = new ∷ []
set_anchor new (a ∷ as') =
    let rest = set_anchor new as' in
    if is_at a.attempt_id a.interval_number new.attempt_id new.interval_number
    then new ∷ as'
    else a ∷ rest

-- `COALESCE(MAX(interval_number), 0)` of an attempt.
unfoldable pub last_number : String → List Interval → ℕ
last_number id [] = 0
last_number id (i ∷ is) =
    let rest = last_number id is in if i.attempt_id == id then max i.interval_number rest else rest

unfoldable pub open_of : String → List Interval → Option Interval
unfolding is_open
open_of id is = find_first (λ i. is_open i && i.attempt_id == id) is

abbrev pub started : String → Clock → List Interval → TimeState → TimeState
started id clock is s =
    let number = last_number id is + 1 in
    record s {
      intervals =
          is
          ++ record {
            attempt_id = id;
            interval_number = number;
            started_at = clock.now;
            observed_at = clock.now;
            elapsed_ms = 0;
            ended_at = none;
          }
            ∷ [];
      anchors =
          set_anchor (record { attempt_id = id; interval_number = number; at = clock.monotonic })
            s.anchors;
    }

-- The foreign key of the INSERT is enforced.
unfoldable pub start : String → Clock → TimeState → Outcome TimeError TimeState
unfolding open_of last_number set_anchor find_anchor
start id clock s = elim (open_of id s.intervals) [
  | some i ↦
      if is_some (find_anchor i.attempt_id i.interval_number s.anchors)
      then ok s
      else throw recover_before_start
  | none ↦ if elem id s.attempts then ok (started id clock s.intervals s) else throw unknown_attempt
]

-- One UPDATE of a sample, at the row of the interval.
abbrev pub observe : Clock → ℕ → Interval → Interval
observe clock anchor i = record i {
  elapsed_ms = max (max i.elapsed_ms (clock.monotonic - anchor)) 0;
  observed_at = clock.now;
}

-- sampleInterval for each open row; a missing anchor undoes the whole transaction.
abbrev pub observed : Clock → Option ℕ → Interval → Outcome TimeError Interval
observed clock none i = throw recover_before_sample
observed clock (some anchor) i = ok (observe clock anchor i)

unfoldable pub sample_interval : Clock → List Anchor → Interval → Outcome TimeError Interval
unfolding is_open find_anchor
sample_interval clock anchors i =
    if is_open i
    then observed clock (find_anchor i.attempt_id i.interval_number anchors) i
    else ok i

unfoldable pub sample_intervals :
    Clock → List Anchor → List Interval → Outcome TimeError (List Interval)
unfolding sample_interval
sample_intervals clock anchors [] = ok []
sample_intervals clock anchors (i ∷ is) = do
  first ← sample_interval clock anchors i
  rest ← sample_intervals clock anchors is
  ok (first ∷ rest)

unfoldable pub keep_anchors : List Interval → List Anchor → List Anchor
unfolding is_open is_at
keep_anchors is [] = []
keep_anchors is (a ∷ as') =
    let rest = keep_anchors is as' in
    if any (λ i. is_open i && is_at i.attempt_id i.interval_number a.attempt_id a.interval_number)
      is
    then a ∷ rest
    else rest

-- `nested`: inside a transaction of the caller the anchors are left alone.
unfoldable pub sample : Bool → Clock → TimeState → Outcome TimeError TimeState
unfolding sample_intervals keep_anchors
sample nested clock s = do
  intervals ← sample_intervals clock s.anchors s.intervals
  ok (record s {
    intervals = intervals;
    anchors = if nested then s.anchors else keep_anchors s.intervals s.anchors;
  })

-- `UPDATE … SET ended_at = observed_at WHERE ended_at IS NULL AND …`
abbrev pub close : Interval → Interval
close i = record i { ended_at = some (or_else i.ended_at i.observed_at) }

unfoldable pub close_where : (Interval → Bool) → List Interval → List Interval
close_where p [] = []
close_where p (i ∷ is) = (if p i then close i else i) ∷ close_where p is

unfoldable pub close_attempt_time : String → List Interval → List Interval
unfolding close_where
close_attempt_time id is = close_where (λ i. i.attempt_id == id) is

-- `attempts`: the ids of the run's rows in node_attempts.
unfoldable pub close_run_time : List String → List Interval → List Interval
unfolding close_where
close_run_time attempts is = close_where (λ i. elem i.attempt_id attempts) is

-- The open row of the attempt alone is sampled.
unfoldable pub sample_row :
    Clock → List Anchor → Interval → List Interval → Outcome TimeError (List Interval)
unfolding sample_interval is_at is_open
sample_row clock anchors found [] = ok []
sample_row clock anchors found (i ∷ is) = do
  first ←
      (if is_at i.attempt_id i.interval_number found.attempt_id found.interval_number
        then sample_interval clock anchors i
        else ok i)
  rest ← sample_row clock anchors found is
  ok (first ∷ rest)

unfoldable pub stop : String → Clock → TimeState → Outcome TimeError TimeState
unfolding open_of sample_row close_attempt_time
stop id clock s = elim (open_of id s.intervals) [
  | none ↦ ok s
  | some i ↦ sample_row clock s.anchors i s.intervals >>= λ sampled.
      ok (record s { intervals = close_attempt_time id sampled })
]

unfoldable pub recover : TimeState → TimeState
unfolding close_where
recover s = record s { intervals = close_where (λ i. true) s.intervals; anchors = [] }

-- A new process opens the same table with no anchors.
unfoldable pub restart : TimeState → TimeState
restart s = record s { anchors = [] }
