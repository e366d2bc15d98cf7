-- ===== src/CommandBatch/Tests.antt =====
-- A batch of two commands on two slots, and the theorems on src/workflows/command-batch.ts at it.
use pi_workflows.CommandBatch.{
  validate_command_batch_request, max_items, concurrency_limit, CommandBatchItem,
  CommandBatchRequest,
}
use pi_workflows.CommandBatch.Run.{
  batch_result, CommandBatchItemResult, steps, notified, settles, throws, loops, begins,
  timeout_error, step_batch, start_batch, finish_batch, ShellOutcome, CommandBatchResult,
  BatchState, BatchReaches, BatchEvent,
}
use pi_workflows.Prelude.{
  AreNew, suc, ◌⊎◌, ◌≤◌, ◌+◌, ok, length, code, some, map, eqb, All, inr, arith, ◌&&◌, refl, none,
  inl, ◌≡◌, true, false, [], ◌∷◌, or_else, is_some, String, Option-cases, Option, List, Bool,
}
use pi_workflows.CommandBatch.Bounds.{validate_command_batch_request-IsBounded, IsBoundedItem}
use pi_workflows.CommandBatch.Ends.{work_left, is_abort, batch_ends}
use pi_workflows.CommandBatch.Finish.{unaborted_batch, items_run_once, finish_batch_lem}
use pi_workflows.CommandBatch.Once.{workers, has_result}
use pi_workflows.Json.{end, num, nil, cons, str, arr, field, obj, get_field, Json}

abbrev command_named : String → CommandBatchItem
command_named name = record {
  id = name;
  command = "npm";
  args = "test" ∷ [];
  cwd = "/repo";
  timeout_ms = 1000;
  max_output_chars = 100;
}

abbrev two_commands : CommandBatchRequest
two_commands = record {
  items = command_named "lint" ∷ command_named "test" ∷ [];
  max_concurrency = 8;
}

abbrev lint_failed : ShellOutcome
lint_failed = throws timeout_error none (84 ∷ [])

abbrev after : BatchEvent → BatchState → BatchState
after e s = or_else (step_batch two_commands e s) s

-- Both slots start; the second command ends first.
abbrev events : List BatchEvent
events =
    loops 0
    ∷ loops 1
    ∷ settles 1 lint_failed
    ∷ settles 0 lint_failed
    ∷ notified 0
    ∷ loops 0
    ∷ notified 1
    ∷ loops 1
    ∷ []

abbrev runs : List BatchEvent → BatchState → BatchState
runs [] s = s
runs (e ∷ es) s = runs es (after e s)

abbrev is_enabled : List BatchEvent → BatchState → Bool
is_enabled [] s = true
is_enabled (e ∷ es) s = is_some (step_batch two_commands e s) && is_enabled es (after e s)

runs-BatchReaches :
    (es : List BatchEvent) (s u : BatchState)
    → BatchReaches two_commands s u
    → is_enabled es u ≡ true
    → BatchReaches two_commands s (runs es u)
runs-BatchReaches [] s u reached h = reached
runs-BatchReaches (e ∷ es) s u reached h = elim (Option-cases (step_batch two_commands e u)) [
  | inl stuck ↦ absurd (ground arith)
  | inr (v, step) ↦ rw step (runs-BatchReaches es s v (steps e reached step) (ground arith))
]

abbrev begun : BatchState
begun = start_batch two_commands false

two_run : BatchReaches two_commands begun (runs events begun)
unfolding step_batch start_batch
two_run = runs-BatchReaches events begun begun begins refl

abbrev ended_state : BatchState
ended_state = runs events begun

abbrev two_results : CommandBatchResult
two_results = batch_result two_commands ended_state

two_finish : finish_batch two_commands ended_state ≡ some two_results
unfolding finish_batch step_batch start_batch
two_finish = refl

items_run_once_example : workers 1 ended_state.slots + has_result 1 ended_state.results ≤ 1
items_run_once_example = items_run_once two_commands false ended_state 1 two_run

finish_batch_lem_example :
    (map CommandBatchItemResult.id two_results.items ≡ map CommandBatchItem.id two_commands.items)
    × (two_results.completed ≡ ended_state.next_index)
    × (two_results.completed ≤ two_results.total)
finish_batch_lem_example =
    finish_batch_lem two_commands false ended_state two_results two_run two_finish

ended_unaborted : ended_state.aborted ≡ false
unfolding step_batch start_batch
ended_unaborted = refl

unaborted_batch_example : two_results.completed ≡ two_results.total
unaborted_batch_example =
    unaborted_batch two_commands false ended_state two_results (omega arith) two_run two_finish
      ended_unaborted

batch_ends_example :
    (((result : CommandBatchResult) × (finish_batch two_commands begun ≡ some result))
      ⊎ ((e : BatchEvent) × (s : BatchState) × (is_abort e ≡ false)
          × (step_batch two_commands e begun ≡ some s)))
    × ((e : BatchEvent) (s : BatchState)
        → is_abort e ≡ false
        → step_batch two_commands e begun ≡ some s
        → suc (work_left two_commands s) ≡ work_left two_commands begun)
batch_ends_example = batch_ends two_commands false begun lint_failed begins

abbrev is_rooted : String → Bool
is_rooted String.[] = false
is_rooted (String.◌∷◌ c s) = eqb (code c) 47

-- The doubles 1000, 100 and 8.
abbrev lint_item : Json
lint_item = obj (
    field "id" (str "lint") (
      field "command" (str "npm") (
        field "args" (arr (cons (str "test") nil)) (
          field "cwd" (str "/repo") (
            field "timeoutMs" (num 0x408f400000000000)
              (field "maxOutputChars" (num 0x4059000000000000) end))))))

abbrev lint_request : Option Json
lint_request = some (
    obj (
      field "items" (arr (cons lint_item nil))
        (field "maxConcurrency" (num 0x4020000000000000) end)))

abbrev lint_only : CommandBatchRequest
lint_only = record { items = command_named "lint" ∷ []; max_concurrency = 8 }

lint_valid : validate_command_batch_request is_rooted lint_request ≡ ok lint_only
unfolding validate_command_batch_request get_field
lint_valid = refl

validate_command_batch_request-IsBounded_example :
    All (IsBoundedItem is_rooted) lint_only.items
    × AreNew [] (map CommandBatchItem.id lint_only.items)
    × (length lint_only.items ≤ max_items)
    × (1 ≤ lint_only.max_concurrency)
    × (lint_only.max_concurrency ≤ concurrency_limit)
validate_command_batch_request-IsBounded_example =
    validate_command_batch_request-IsBounded is_rooted lint_request lint_only lint_valid
