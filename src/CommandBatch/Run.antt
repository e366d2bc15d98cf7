-- ===== src/CommandBatch/Run.antt =====
-- runCommandBatch of src/workflows/command-batch.ts. Between two awaits a slot runs alone, so a
-- run is a sequence of such pieces: a slot's loop head, the end of its command, the end of its
-- callback (whatever it throws), and the abort of the caller's signal at any time.
use pi_workflows.CommandBatch.{CommandBatchItem, CommandBatchRequest}
use pi_workflows.Prelude.{
  zero, ◌∷◌, ◌++◌, ◌||◌, suc, set, leb, false, code, all, ◌≡◌, true, some, none, length,
  if◌then◌else◌, [], ℕ, or_else, get_elem?, ends_with, String, Option, List, Bool,
}

pub record ShellActionResult : Type 0 where
  pub command : String
  pub args : List String
  pub cwd : String
  pub stdout : String
  pub stderr : String
  pub exit_code : Option ℕ
  pub signal : Option String
  pub duration_ms : ℕ

-- How runShellAction ends: it returns, or throws an error of a class, with the result that is
-- attached to the error. The error's message is a list of UTF-16 units.
pub data ShellError : Type 0 where
  timeout_error abort_error other_error : ShellError

pub data ShellOutcome : Type 0 where
  returns : ShellActionResult → ShellOutcome
  throws : ShellError → Option ShellActionResult → (message : List ℕ) → ShellOutcome

pub data CommandBatchItemOutcome : Type 0 where
  succeeded failed timed_out cancelled : CommandBatchItemOutcome

pub record CommandBatchItemResult : Type 0 where
  pub id : String
  pub outcome : CommandBatchItemOutcome
  pub result : ShellActionResult
  pub stdout_truncated : Bool
  pub stderr_truncated : Bool
  pub error : Option (List ℕ)

abbrev truncation_marker : String
truncation_marker = "\n…[output truncated]"

abbrev pub max_error_chars : ℕ
max_error_chars = 2000

abbrev take_units : ℕ → List ℕ → List ℕ
take_units zero us = []
take_units (suc n) [] = []
take_units (suc n) (u ∷ us) = u ∷ take_units n us

-- `…` is one unit, 8230.
unfoldable pub bounded_error : List ℕ → List ℕ
bounded_error message =
    if leb (length message) max_error_chars
    then message
    else take_units max_error_chars message ++ 8230 ∷ []

abbrev units : String → List ℕ
units String.[] = []
units (String.◌∷◌ c s) = code c ∷ units s

unfoldable pub item_result :
    String → CommandBatchItemOutcome → ShellActionResult → Option (List ℕ) → CommandBatchItemResult
unfolding ends_with
item_result id outcome result error = record {
  id = id;
  outcome = outcome;
  result = result;
  stdout_truncated = ends_with result.stdout truncation_marker;
  stderr_truncated = ends_with result.stderr truncation_marker;
  error = error;
}

unfoldable pub empty_shell_result : CommandBatchItem → ShellActionResult
empty_shell_result item = record {
  command = item.command;
  args = item.args;
  cwd = item.cwd;
  stdout = "";
  stderr = "";
  exit_code = none;
  signal = none;
  duration_ms = 0;
}

unfoldable pub cancelled_result : CommandBatchItem → CommandBatchItemResult
unfolding item_result empty_shell_result
cancelled_result item =
    item_result item.id cancelled (empty_shell_result item) (some (units "Command was not started"))

abbrev outcome_of : ShellError → CommandBatchItemOutcome
outcome_of timeout_error = timed_out
outcome_of abort_error = cancelled
outcome_of other_error = failed

unfoldable pub run_item : CommandBatchItem → ShellOutcome → CommandBatchItemResult
unfolding item_result empty_shell_result bounded_error
run_item item (returns result) = item_result item.id succeeded result none
run_item item (throws e attached message) =
    item_result item.id (outcome_of e) (or_else attached (empty_shell_result item))
      (some (bounded_error message))

-- Where a slot stands: at the head of its loop, in its command, in the callback, or returned.
pub data Slot : Type 0 where
  looping notifying stopped : Slot
  busy : ℕ → Slot

pub record BatchState : Type 0 where
  pub results : List (Option CommandBatchItemResult)
  pub next_index : ℕ
  pub completed : ℕ
  pub aborted : Bool
  pub slots : List Slot

pub data BatchEvent : Type 0 where
  loops : ℕ → BatchEvent
  settles : ℕ → ShellOutcome → BatchEvent
  notified : ℕ → BatchEvent
  aborts : BatchEvent

abbrev pub repeat {ℓ} : {A : Type ℓ} → ℕ → A → List A
repeat zero x = []
repeat (suc n) x = x ∷ repeat n x

unfoldable pub start_batch : CommandBatchRequest → Bool → BatchState
start_batch r aborted = record {
  results = repeat (length r.items) none;
  next_index = 0;
  completed = 0;
  aborted = aborted;
  slots =
      repeat (if leb r.max_concurrency (length r.items) then r.max_concurrency else length r.items)
        looping;
}

module _ (r : CommandBatchRequest) where
  -- The loop's test and the claim of the next index; `items[index]` is missing past the end.
  unfoldable pub enter_loop : ℕ → BatchState → BatchState
  enter_loop k s =
      if s.aborted || leb (length r.items) s.next_index
      then record s { slots = set s.slots k stopped }
      else record s { slots = set s.slots k (busy s.next_index); next_index = suc s.next_index }

  abbrev pub settled_state : BatchState → ℕ → ℕ → CommandBatchItem → ShellOutcome → BatchState
  settled_state s k i item o = record s {
    results = set s.results i (some (run_item item o));
    completed = suc s.completed;
    slots = set s.slots k notifying;
  }

  abbrev pub settle :
      ℕ → ℕ → Option CommandBatchItem → ShellOutcome → BatchState → Option BatchState
  settle k i none o s = none
  settle k i (some item) o s = some (settled_state s k i item o)

  abbrev pub loop_at : ℕ → Option Slot → BatchState → Option BatchState
  loop_at k (some looping) s = some (enter_loop k s)
  loop_at k _ s = none

  abbrev pub settle_at : ℕ → Option Slot → ShellOutcome → BatchState → Option BatchState
  settle_at k (some (busy i)) o s = settle k i (get_elem? r.items i) o s
  settle_at k _ o s = none

  abbrev pub notified_at : ℕ → Option Slot → BatchState → Option BatchState
  notified_at k (some notifying) s = some (record s { slots = set s.slots k looping })
  notified_at k _ s = none

  -- One piece of the run; `none` where the slot is not at it.
  unfoldable pub step_batch : BatchEvent → BatchState → Option BatchState
  unfolding enter_loop run_item
  step_batch (loops k) s = loop_at k (get_elem? s.slots k) s
  step_batch (settles k o) s = settle_at k (get_elem? s.slots k) o s
  step_batch (notified k) s = notified_at k (get_elem? s.slots k) s
  step_batch aborts s = some (record s { aborted = true })

  pub data BatchReaches (s : BatchState) : BatchState → Type 0 where
    begins : BatchReaches s s
    steps :
        {u v : BatchState} (e : BatchEvent)
        → BatchReaches s u
        → step_batch e u ≡ some v
        → BatchReaches s v

abbrev pub is_stopped : Slot → Bool
is_stopped stopped = true
is_stopped _ = false

-- The loop after `Promise.all`: an item without a result was never started.
unfoldable pub fill_results :
    List CommandBatchItem → List (Option CommandBatchItemResult) → List CommandBatchItemResult
unfolding cancelled_result
fill_results [] rs = []
fill_results (item ∷ items) (some result ∷ rs) = result ∷ fill_results items rs
fill_results (item ∷ items) (none ∷ rs) = cancelled_result item ∷ fill_results items rs
fill_results (item ∷ items) [] = cancelled_result item ∷ fill_results items []

pub record CommandBatchResult : Type 0 where
  pub items : List CommandBatchItemResult
  pub completed : ℕ
  pub total : ℕ

abbrev pub batch_result : CommandBatchRequest → BatchState → CommandBatchResult
batch_result r s = record {
  items = fill_results r.items s.results;
  completed = s.completed;
  total = length r.items;
}

-- The value returned once every slot has returned.
unfoldable pub finish_batch : CommandBatchRequest → BatchState → Option CommandBatchResult
unfolding fill_results
finish_batch r s = if all is_stopped s.slots then some (batch_result r s) else none
