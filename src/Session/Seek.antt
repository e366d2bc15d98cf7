-- ===== src/Session/Seek.antt =====
-- SessionReplayIndex in src/workflows/session-reducer.ts: the checkpoints of a recorded session and
-- the search by time. `Date.parse` is the parameter `parse_date`: `none` where the text is no date,
-- and otherwise milliseconds counted from the earliest date. The events are indexed by walking them:
-- the checkpoints are at every `interval`-th event. A timestamp of -∞ is `none`.
pub mod Exact
pub mod Bisect
use Prim.Native.Nat.{max}
use pi_workflows.Prelude.{
  ltb, ◌/◌, inr, ◌≤◌, ◌-◌, ◌+◌, zero, inl, if◌then◌else◌, [], ◌∷◌, true, suc, length, leb, false, ℕ,
  get_elem?, String, Option, List, Bool-cases, Bool, All, ◌≡◌, arith, some, none,
}
use pi_workflows.Session.{SessionState, SessionEvent}
use pi_workflows.Json.{Json, Fields}
use pi_workflows.Session.Continue.{reduce_from_checkpoint-reduce}
use pi_workflows.Session.Fold.{reduce_session_events, fold_session_events}
use pi_workflows.Session.Step.{Fold}
use pi_workflows.Transitions.{Step}

pub record Checkpoint : Type 0 where
  pub seq : ℕ
  pub state : SessionState

pub record Timestamp : Type 0 where
  pub time : Option ℕ
  pub seq : ℕ

pub record ReplayIndex : Type 0 where
  pub entries : List Fields
  pub events : List SessionEvent
  pub checkpoints : List Checkpoint
  pub timestamps : List Timestamp

-- `array.findLast`
pub find_last : {A : Type 0} → (A → Bool) → List A → Option A
find_last p [] = none
find_last p (x ∷ xs) = elim (find_last p xs) [
  | none ↦ if p x then some x else none
  | some y ↦ some y
]

module _ (parse_date : String → Option ℕ) where
  -- `Math.max(last, Number.isFinite(parsed) ? parsed : last)`
  abbrev pub later_of : Option ℕ → Option ℕ → Option ℕ
  later_of last none = last
  later_of none (some t) = some t
  later_of (some l) (some t) = some (max l t)

  pub timestamps_from : Option ℕ → List SessionEvent → List Timestamp
  timestamps_from last [] = []
  timestamps_from last (e ∷ es) =
      let time = later_of last (parse_date e.at) in
      record { time = time; seq = e.seq } ∷ timestamps_from time es

  module _ (entries : List Fields) (events : List SessionEvent) (interval : ℕ) where
    -- The loop of the constructor; `left` events are left before the next checkpoint. An interval of
    -- 0, with which the source's loop does not end, is read as 1.
    pub checkpoints_from : ℕ → List SessionEvent → SessionState → List Checkpoint
    checkpoints_from left [] state = []
    checkpoints_from left (e ∷ es) state =
        let next = fold_session_events entries events e.seq (some state) in
        let here = record { seq = e.seq; state = next } ∷ checkpoints_from interval es next in
        let there = checkpoints_from (left - 1) es state in if leb left 1 then here else there

    -- new SessionReplayIndex
    pub build_index : ReplayIndex
    unfolding checkpoints_from timestamps_from
    build_index =
        let start = fold_session_events entries events 0 none in
        record {
          entries = entries;
          events = events;
          checkpoints = record { seq = 0; state = start } ∷ checkpoints_from interval events start;
          timestamps = timestamps_from none events;
        }

abbrev pub state_of : Option Checkpoint → Option SessionState
state_of none = none
state_of (some c) = some c.state

pub state_at_seq : ReplayIndex → ℕ → SessionState
unfolding find_last
state_at_seq index through =
    fold_session_events index.entries index.events through
      (state_of (find_last (λ c. leb c.seq through) index.checkpoints))

-- `(timestamps[middle]?.at ?? Infinity) <= timestampMs`
abbrev pub passes : ℕ → Option ℕ → Bool
passes ms none = true
passes ms (some at) = leb at ms

abbrev pub time_at_most : ℕ → Timestamp → Bool
time_at_most ms t = passes ms t.time

abbrev pub entry_at_most : ℕ → Option Timestamp → Bool
entry_at_most ms none = false
entry_at_most ms (some t) = time_at_most ms t

-- The `while` loop of seqAtOrBefore, which halves `high - low`.
pub bisect : ℕ → List Timestamp → ℕ → ℕ → ℕ → ℕ
bisect zero times ms low high = low
bisect (suc fuel) times ms low high =
    let middle = (low + high) / 2 in
    let right = bisect fuel times ms (middle + 1) high in
    let left = bisect fuel times ms low middle in
    if ltb low high
    then (if entry_at_most ms (get_elem? times middle) then right else left)
    else low

abbrev pub seq_of : Option Timestamp → ℕ
seq_of none = 0
seq_of (some t) = t.seq

abbrev pub seq_below : List Timestamp → ℕ → ℕ
seq_below times zero = 0
seq_below times (suc low) = seq_of (get_elem? times low)

pub seq_at_or_before : ReplayIndex → ℕ → ℕ
unfolding bisect
seq_at_or_before index ms =
    seq_below index.timestamps
      (bisect (length index.timestamps) index.timestamps ms 0 (length index.timestamps))

-- The numbers of the events ascend from `n`.
abbrev pub Ascending : ℕ → List SessionEvent → Type 0
Ascending n [] = Unit
Ascending n (e ∷ es) = (n ≤ e.seq) × Ascending e.seq es
