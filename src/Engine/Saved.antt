-- ===== src/Engine/Saved.antt =====
-- One recorded attempt in buildRunState of src/workflows/store.ts and in recordAttempt of
-- src/workflows/engine.ts.
use pi_workflows.Prelude.{
  true, Bool, lookup-remove, lookup-insert, refl, sym, false, remove, none, insert, ◌≡◌, some,
  lookup, if◌then◌else◌, or_else, String, Option, Assoc, ℕ, arith,
}
use pi_workflows.Engine.{
  other, abort, timeout, throws, returns, Signals, NodeError, NodeAttempt, Execution, Ran,
}
use pi_workflows.Engine.Node.{node_attempt}
use pi_workflows.Engine.Record.{outcome_for_error, step_record}
use pi_workflows.Graph.{WorkflowNode}
use pi_workflows.Json.{Fields, null, get_field, Json}
use pi_workflows.Transitions.{is_succeeded, RunState, NodeResult}
use mathlib.Core.Path.{subst}
use pi_workflows.Engine.Projection.{result_for_step, ProjectedRun}

-- What a result and an output become in the store, which holds `null` for no value.
abbrev pub saved_output : Option Json → Option Json
saved_output output = some (or_else output null)

abbrev pub saved_result : NodeResult → NodeResult
saved_result r = record r {
  step = record (r.step) {
    output = if is_succeeded r.step.outcome then saved_output r.step.output else none;
  };
}

abbrev pub mapped : {A B : Type 0} → (A → B) → Option A → Option B
mapped f none = none
mapped f (some a) = some (f a)

-- A map that holds `f v` just where the other one holds `v`.
abbrev pub Maps : {A B : Type 0} → (A → B) → Assoc B → Assoc A → Type 0
Maps f m n = (id : String) → lookup id m ≡ mapped f (lookup id n)

pub Maps-insert :
    {A B : Type 0} (f : A → B) (k : String) (b : B) (a : A) (m : Assoc B) (n : Assoc A)
    → b ≡ f a
    → Maps f m n
    → Maps f (insert k b m) (insert k a n)
Maps-insert f k b a m n same h id =
    ground (arith, lookup-insert k id b m, lookup-insert k id a n, h id)

pub Maps-remove :
    {A B : Type 0} (f : A → B) (k : String) (m : Assoc B) (n : Assoc A)
    → Maps f m n
    → Maps f (remove k m) (remove k n)
Maps-remove f k m n h id = ground (arith, lookup-remove k id m, lookup-remove k id n, h id)

pub if-Maps :
    {A B : Type 0} (f : A → B) (b : Bool) (m m' : Assoc B) (n n' : Assoc A)
    → Maps f m n
    → Maps f m' n'
    → Maps f (if b then m else m') (if b then n else n')
if-Maps f true m m' n n' h h' = h
if-Maps f false m m' n n' h h' = h'

-- The two agree on every node.
pub record Agrees (p : ProjectedRun) (s : RunState) : Type 0 where
  pub results : Maps saved_result p.results s.results
  pub outputs : Maps saved_output p.outputs s.outputs

pub if-Agrees :
    (b : Bool) (p p' : ProjectedRun) (s s' : RunState)
    → Agrees p s
    → Agrees p' s'
    → Agrees (if b then p else p') (if b then s else s')
if-Agrees true p p' s s' h h' = h
if-Agrees false p p' s s' h h' = h'

abbrev pub renamed : String → NodeResult → NodeResult
renamed path r = record r { step = record (r.step) { node_id = path } }

-- An execution whose duration is the difference of its times, and whose details hold no error.
pub record IsMeasured (milliseconds : String → String → ℕ) (s : RunState) (ran : Ran) : Type 0 where
  pub measured :
      ran.duration_ms ≡ milliseconds ran.finished_at (or_else s.current_node_started_at "")
  pub no_error : get_field "error" ran.details ≡ none

outcome_for_error-is_succeeded :
    (signals : Signals) (e : NodeError) → is_succeeded (outcome_for_error signals e) ≡ false
unfolding outcome_for_error
outcome_for_error-is_succeeded signals (timeout m) = refl
outcome_for_error-is_succeeded signals (abort m) = refl
outcome_for_error-is_succeeded signals (other m) = ground arith

module _ (milliseconds : String → String → ℕ) where
  result_for_step-ends :
      (s : RunState) (id : String) (node : WorkflowNode) (e : Execution) (finished_at : String)
      (details : Fields) (after : Signals)
      → get_field "error" details ≡ none
      → let ran : Ran = record {
        execution = e;
        finished_at = finished_at;
        duration_ms = milliseconds finished_at (or_else s.current_node_started_at "");
        details = details;
        after = after;
      } in
        result_for_step milliseconds (step_record (node_attempt s id node ran))
        ≡ saved_result (node_attempt s id node ran).result
  unfolding result_for_step node_attempt get_field
  result_for_step-ends s id node (returns output) finished_at details after no_error =
      rw no_error refl
  result_for_step-ends s id node (throws e) finished_at details after no_error =
      rw (outcome_for_error-is_succeeded after e) refl

  pub result_for_step-node_attempt :
      (s : RunState) (id : String) (node : WorkflowNode) (ran : Ran)
      → IsMeasured milliseconds s ran
      → result_for_step milliseconds (step_record (node_attempt s id node ran))
        ≡ saved_result (node_attempt s id node ran).result
  result_for_step-node_attempt s id node ran h =
      subst
        (λ n.
          result_for_step milliseconds
            (step_record (node_attempt s id node (record ran { duration_ms = n })))
          ≡ saved_result (node_attempt s id node (record ran { duration_ms = n })).result)
        (sym h.measured)
        (result_for_step-ends s id node ran.execution ran.finished_at ran.details ran.after
          h.no_error)

  -- An attempt that the store can rebuild.
  abbrev pub IsStorable : NodeAttempt → Type 0
  IsStorable a = result_for_step milliseconds (step_record a) ≡ saved_result a.result
