-- ===== src/AttemptTime/Anchored.antt =====
-- One server process after it recovers, under the operations of src/state/attempt-time.ts.
use mathlib.Core.Path.{subst}
use pi_workflows.AttemptTime.{
  sample_row, recover, close_attempt_time, keep_anchors, sample_interval, last_number, close_where,
  sample, stop, started, start, set_anchor, open_of, is_open, is_at, close_run_time, Interval,
  Anchor, TimeState, Clock, TimeError,
}
use pi_workflows.Prelude.{
  ap, ◌∙◌, sym, elem, false, ◌==◌, ◌+◌, map, ◌&&◌, All-append, refl, inr, ◌>>=◌, true, inl,
  if◌then◌else◌, [], ◌≡◌, ◌∷◌, ok, arith, String, Outcome, Option-cases, List, Bool-cases, Bool,
  All,
}
use pi_workflows.AttemptTime.Anchors.{
  sampled-All, sampled, sample_intervals-ok, sample_interval-ok, new_anchor, kept_anchors,
  find_first-holds, close_where-IsAnchored, IsAnchored, HasAnchor-set_anchor, HasAnchor-sampled,
  HasAnchor, All-map, All-find_first,
}

pub data TimeCall : Type 0 where
  starts stops : String → Clock → TimeCall
  samples : (nested : Bool) → Clock → TimeCall
  closes : (attempts : List String) → TimeCall
  -- Other code writes the row of an attempt.
  inserts : String → TimeCall

unfoldable pub call : TimeCall → TimeState → Outcome TimeError TimeState
unfolding start stop sample close_run_time
call (starts id clock) s = start id clock s
call (stops id clock) s = stop id clock s
call (samples nested clock) s = sample nested clock s
call (closes attempts) s = ok (record s { intervals = close_run_time attempts s.intervals })
call (inserts id) s = ok (record s { attempts = id ∷ s.attempts })

unfoldable pub calls : List TimeCall → TimeState → Outcome TimeError TimeState
unfolding call
calls [] s = ok s
calls (c ∷ cs) s = call c s >>= λ next. calls cs next

abbrev known_after : TimeCall → List String → List String
known_after (inserts id) known = id ∷ known
known_after (starts id clock) known = known
known_after (stops id clock) known = known
known_after (samples nested clock) known = known
known_after (closes attempts) known = known

-- The row of each attempt that is started is there by then.
abbrev IsKnown : TimeCall → List String → Type 0
IsKnown (starts id clock) known = elem id known ≡ true
IsKnown (inserts id) known = Unit
IsKnown (stops id clock) known = Unit
IsKnown (samples nested clock) known = Unit
IsKnown (closes attempts) known = Unit

abbrev pub StartsKnown : List TimeCall → List String → Type 0
StartsKnown [] known = Unit
StartsKnown (c ∷ cs) known = IsKnown c known × StartsKnown cs (known_after c known)

-- The call answers, with these attempts and an anchor for each open row.
abbrev Answers : Outcome TimeError TimeState → List String → Type 0
Answers r known = (s' : TimeState) × (r ≡ ok s') × (IsAnchored s' × (s'.attempts ≡ known))

started-IsAnchored :
    (id : String) (clock : Clock) (s : TimeState)
    → IsAnchored s
    → IsAnchored (started id clock s.intervals s)
started-IsAnchored id clock s h =
    let number = last_number id s.intervals + 1 in
    let new : Anchor = record { attempt_id = id; interval_number = number; at = clock.monotonic } in
    All-append (HasAnchor (set_anchor new s.anchors)) s.intervals _
      (All-map s.intervals (HasAnchor-set_anchor new s.anchors) h)
      ((λ o. new_anchor new s.anchors), tt)

start-IsAnchored :
    (id : String) (clock : Clock) (s : TimeState)
    → elem id s.attempts ≡ true
    → IsAnchored s
    → Answers (start id clock s) s.attempts
unfolding start open_of
start-IsAnchored id clock s known h = elim (Option-cases (open_of id s.intervals)) [
  | inl none_open ↦ (
    started id clock s.intervals s,
    rw (none_open, start, known) refl,
    (started-IsAnchored id clock s h, refl),
  )
  | inr (i, found) ↦
      let anchored : HasAnchor s.anchors i =
        All-find_first (HasAnchor s.anchors) (λ j. is_open j && j.attempt_id == id) s.intervals i h
          found in
      let opened : (is_open i && i.attempt_id == id) ≡ true =
        find_first-holds (λ j. is_open j && j.attempt_id == id) s.intervals i found in
      (s, rw (found, start, anchored (ground arith)), (h, refl))
]

sample-IsAnchored :
    (nested : Bool) (clock : Clock) (s : TimeState)
    → IsAnchored s
    → Answers (sample nested clock s) s.attempts
unfolding sample
sample-IsAnchored nested clock s h =
    let is = map (sampled clock s.anchors) s.intervals in
    let anchors = if nested then s.anchors else keep_anchors s.intervals s.anchors in
    (
      record s { intervals = is; anchors = anchors },
      rw (sample_intervals-ok clock s.anchors s.intervals h),
      (
        sampled-All clock s.anchors anchors s.intervals (elim (Bool-cases nested) [
          | inl inner ↦ rw inner h
          | inr outer ↦ rw outer (kept_anchors s.anchors s.intervals s.intervals (λ id n e. e) h)
        ]),
        refl,
      ),
    )

abbrev sampled_if : Bool → Clock → List Anchor → Interval → Interval
sampled_if true clock anchors i = sampled clock anchors i
sampled_if false clock anchors i = i

abbrev sampled_at : Interval → Clock → List Anchor → Interval → Interval
sampled_at found clock anchors i =
    sampled_if (is_at i.attempt_id i.interval_number found.attempt_id found.interval_number) clock
      anchors i

sample_one-ok :
    (b : Bool) (clock : Clock) (anchors : List Anchor) (i : Interval)
    → HasAnchor anchors i
    → ((if b then sample_interval clock anchors i else ok i) ≡ ok (sampled_if b clock anchors i))
      × HasAnchor anchors (sampled_if b clock anchors i)
sample_one-ok true clock anchors i h =
    (sample_interval-ok clock anchors i h, HasAnchor-sampled clock anchors anchors i h)
sample_one-ok false clock anchors i h = (refl, h)

sample_row-ok :
    (clock : Clock) (anchors : List Anchor) (found : Interval) (is : List Interval)
    → All (HasAnchor anchors) is
    → (sample_row clock anchors found is ≡ ok (map (sampled_at found clock anchors) is))
      × All (HasAnchor anchors) (map (sampled_at found clock anchors) is)
unfolding sample_row
sample_row-ok clock anchors found [] h = (refl, tt)
sample_row-ok clock anchors found (i ∷ is) h =
    let here = is_at i.attempt_id i.interval_number found.attempt_id found.interval_number in
    let (first, kept) = sample_one-ok here clock anchors i (h.0) in
    let (rest, others) = sample_row-ok clock anchors found is (h.1) in
    (rw (first, rest), (kept, others))

stop-IsAnchored :
    (id : String) (clock : Clock) (s : TimeState)
    → IsAnchored s
    → Answers (stop id clock s) s.attempts
unfolding stop close_attempt_time
stop-IsAnchored id clock s h = elim (Option-cases (open_of id s.intervals)) [
  | inl none_open ↦ (s, rw (none_open, stop), (h, refl))
  | inr (i, found) ↦
      let (row, kept) = sample_row-ok clock s.anchors i s.intervals h in
      (
        record s {
          intervals = close_attempt_time id (map (sampled_at i clock s.anchors) s.intervals);
        },
        rw (found, stop, row),
        (close_where-IsAnchored s.anchors (λ j. j.attempt_id == id) _ kept, refl),
      )
]

call-IsAnchored :
    (c : TimeCall) (s : TimeState)
    → IsKnown c s.attempts
    → IsAnchored s
    → Answers (call c s) (known_after c s.attempts)
unfolding call close_run_time
call-IsAnchored (starts id clock) s known h = start-IsAnchored id clock s known h
call-IsAnchored (stops id clock) s known h = stop-IsAnchored id clock s h
call-IsAnchored (samples nested clock) s known h = sample-IsAnchored nested clock s h
call-IsAnchored (closes attempts) s known h = (
  record s { intervals = close_run_time attempts s.intervals },
  refl,
  (close_where-IsAnchored s.anchors (λ j. elem j.attempt_id attempts) s.intervals h, refl),
)
call-IsAnchored (inserts id) s known h = (record s { attempts = id ∷ s.attempts }, refl, (h, refl))

recover-IsAnchored : (s : TimeState) → IsAnchored (recover s)
unfolding recover close_where is_open
recover-IsAnchored s = ended s.intervals
  where
    ended : (is : List Interval) → All (HasAnchor []) (close_where (λ i. true) is)
    ended [] = tt
    ended (i ∷ is) = ((λ o. absurd (ground arith)), ended is)

calls-IsAnchored :
    (cs : List TimeCall) (s : TimeState) (known : List String)
    → s.attempts ≡ known
    → StartsKnown cs known
    → IsAnchored s
    → (s' : TimeState) × (calls cs s ≡ ok s')
unfolding calls
calls-IsAnchored [] s known same starts_known h = (s, refl)
calls-IsAnchored (c ∷ cs) s known same (here, later) h =
    let (next, called, (kept, attempts)) =
      call-IsAnchored c s (subst (IsKnown c) (sym same) here) h in
    let (end_state, rest) =
      calls-IsAnchored cs next (known_after c known) (attempts ∙ ap (known_after c) same) later
        kept in
    (end_state, rw called rest)

-- A server process that recovers the table first can start, sample, stop and close intervals in any
-- order, at any times: when the row of each attempt that it starts is there by then, none of these
-- calls throws, whatever rows it found.
pub calls_never_throw :
    (s : TimeState) (cs : List TimeCall)
    → StartsKnown cs s.attempts
    → (s' : TimeState) × (calls cs (recover s) ≡ ok s')
unfolding recover
calls_never_throw s cs known =
    calls-IsAnchored cs (recover s) s.attempts refl known (recover-IsAnchored s)
