-- ===== src/Engine/Projection.antt =====
-- buildRunState and resultForStep in src/workflows/store.ts: the results and the outputs of a run,
-- which the store builds from its steps, against those that recordAttempt in
-- src/workflows/engine.ts keeps. The snapshot names the mount path of each exit.
use pi_workflows.Prelude.{
  remove, none, insert, [], ◌∷◌, some, if◌then◌else◌, String, Option, List, Assoc, ℕ,
}
use pi_workflows.Json.{field, end, get_field, Json}
use pi_workflows.Transitions.{is_succeeded, Step, NodeResult}

pub record ProjectedRun : Type 0 where
  pub outputs : Assoc (Option Json)
  pub results : Assoc NodeResult

module _ (milliseconds : String → String → ℕ) where
  unfoldable pub result_for_step : Step → NodeResult
  result_for_step step = record {
    step = record step {
      output = if is_succeeded step.outcome then step.output else none;
      rest = elim (get_field "error" step.rest) [
        | none ↦ end
        | some error ↦ field "error" error end
      ];
    };
    duration_ms = milliseconds step.finished_at step.started_at;
  }

  unfoldable pub project_exit : Option String → Step → ProjectedRun → ProjectedRun
  unfolding result_for_step
  project_exit none step p = p
  project_exit (some path) step p =
      if is_succeeded step.outcome
      then record {
        outputs = insert path step.output p.outputs;
        results =
            insert path
              (record (result_for_step step) {
                step = record ((result_for_step step).step) { node_id = path };
              })
              p.results;
      }
      else p

  -- A round of the loop over the steps.
  unfoldable pub project_step : (String → Option String) → ProjectedRun → Step → ProjectedRun
  unfolding result_for_step project_exit
  project_step exit_path p step = project_exit (exit_path step.node_id) step (record {
    outputs =
        if is_succeeded step.outcome
        then insert step.node_id step.output p.outputs
        else remove step.node_id p.outputs;
    results = insert step.node_id (result_for_step step) p.results;
  })

  unfoldable pub project_steps : (String → Option String) → ProjectedRun → List Step → ProjectedRun
  unfolding project_step
  project_steps exit_path p [] = p
  project_steps exit_path p (step ∷ steps) =
      project_steps exit_path (project_step exit_path p step) steps
