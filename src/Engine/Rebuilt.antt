-- ===== src/Engine/Rebuilt.antt =====
-- The results and outputs that buildRunState in src/workflows/store.ts builds from the steps against
-- those that recordAttempt in src/workflows/engine.ts keeps.
use pi_workflows.Prelude.{
  All, ap, refl, remove, none, insert, [], ◌≡◌, ◌∷◌, some, lookup, if◌then◌else◌, String, Option,
  List, Assoc, ℕ, ◌++◌,
}
use pi_workflows.Engine.{NodeAttempt, CompositionMetadata, Ran}
use pi_workflows.Engine.Node.{node_attempt}
use pi_workflows.Engine.Record.{set_outputs, record_attempt, mirror_exit, exit_of, step_record}
use pi_workflows.Graph.{WorkflowNode}
use pi_workflows.Json.{Json}
use pi_workflows.Transitions.{is_succeeded, Step, RunState}
use pi_workflows.Engine.Boundary.{record_attempt-steps}
use pi_workflows.Engine.Projection.{
  result_for_step, project_steps, project_step, project_exit, ProjectedRun,
}
use pi_workflows.Engine.Saved.{
  renamed, result_for_step-node_attempt, if-Maps, if-Agrees, Maps-remove, Maps-insert, Maps,
  IsStorable, saved_result, saved_output, IsMeasured, Agrees,
}

module _ (milliseconds : String → String → ℕ) where
  exit-Agrees :
      (path : Option String) (p : ProjectedRun) (s : RunState) (a : NodeAttempt)
      → IsStorable milliseconds a
      → Agrees p s
      → Agrees (project_exit milliseconds path (step_record a) p) (mirror_exit path a.result s)
  unfolding project_exit mirror_exit
  exit-Agrees none p s a storable h = h
  exit-Agrees (some path) p s a storable h =
      if-Agrees (is_succeeded a.result.step.outcome) _ p _ s
        (record {
          results =
              Maps-insert saved_result path
                (renamed path (result_for_step milliseconds (step_record a)))
                (renamed path a.result) p.results s.results (ap (renamed path) storable) h.results;
          outputs =
              Maps-insert saved_output path (step_record a).output a.result.step.output p.outputs
                s.outputs refl h.outputs;
        })
        h

  outputs-Agrees :
      (a : NodeAttempt) (m n : Assoc (Option Json))
      → Maps saved_output m n
      → Maps saved_output
          (if is_succeeded a.result.step.outcome
            then insert a.result.step.node_id (step_record a).output m
            else remove a.result.step.node_id m)
          (set_outputs a.result n)
  unfolding set_outputs
  outputs-Agrees a m n h =
      if-Maps saved_output (is_succeeded a.result.step.outcome) _ _ _ _
        (Maps-insert saved_output a.result.step.node_id (step_record a).output a.result.step.output
          m n refl h)
        (Maps-remove saved_output a.result.step.node_id m n h)

  project_step-Agrees :
      (exit_path : String → Option String) (m : Option CompositionMetadata) (p : ProjectedRun)
      (s : RunState) (a : NodeAttempt)
      → exit_path a.result.step.node_id ≡ exit_of m a.result.step.node_id
      → IsStorable milliseconds a
      → Agrees p s
      → Agrees (project_step milliseconds exit_path p (step_record a)) (record_attempt m s a)
  unfolding project_step record_attempt
  project_step-Agrees exit_path m p s a same storable h =
      let step = step_record a in
      let both =
        exit-Agrees (exit_of m a.result.step.node_id)
          (record {
            outputs =
                if is_succeeded step.outcome
                then insert step.node_id step.output p.outputs
                else remove step.node_id p.outputs;
            results = insert step.node_id (result_for_step milliseconds step) p.results;
          })
          (record s {
            results = insert step.node_id a.result s.results;
            outputs = set_outputs a.result s.outputs;
          })
          a storable
          (record {
            results =
                Maps-insert saved_result step.node_id (result_for_step milliseconds step) a.result
                  p.results s.results storable h.results;
            outputs = outputs-Agrees a p.outputs s.outputs h.outputs;
          }) in
      rw same (record { results = both.results; outputs = both.outputs })

-- An execution that has ended: the state in which it began, its node and what it left.
pub record EndedNode : Type 0 where
  pub begun : RunState
  pub id : String
  pub node : WorkflowNode
  pub ran : Ran

abbrev attempt_of : EndedNode → NodeAttempt
attempt_of e = node_attempt e.begun e.id e.node e.ran

pub record_all : Option CompositionMetadata → List EndedNode → RunState → RunState
record_all m [] s = s
record_all m (e ∷ es) s = record_all m es (record_attempt m s (attempt_of e))

abbrev pub empty_run : ProjectedRun
empty_run = record { outputs = []; results = [] }

module _ (milliseconds : String → String → ℕ) (m : Option CompositionMetadata)
    (exit_path : String → Option String) where
  -- What the store is told of an execution, and the snapshot's mount path of its exit.
  pub record IsTold (e : EndedNode) : Type 0 where
    pub measured : IsMeasured milliseconds e.begun e.ran
    pub same_exit : exit_path e.id ≡ exit_of m e.id

  project_steps-append :
      (p : ProjectedRun) (xs ys : List Step)
      → project_steps milliseconds exit_path p (xs ++ ys)
        ≡ project_steps milliseconds exit_path (project_steps milliseconds exit_path p xs) ys
  unfolding project_steps
  project_steps-append p [] ys = refl
  project_steps-append p (x ∷ xs) ys =
      project_steps-append (project_step milliseconds exit_path p x) xs ys

  record_all-Agrees :
      (es : List EndedNode) (s : RunState)
      → All IsTold es
      → Agrees (project_steps milliseconds exit_path empty_run s.steps) s
      → Agrees
          (project_steps milliseconds exit_path empty_run (record_all m es s).steps)
          (record_all m es s)
  unfolding record_all node_attempt project_steps project_step record_attempt
  record_all-Agrees [] s h agrees = agrees
  record_all-Agrees (e ∷ es) s (known, later) agrees =
      record_all-Agrees es (record_attempt m s (attempt_of e)) later (
        rw
          (
            record_attempt-steps m s (attempt_of e),
            project_steps-append empty_run s.steps (step_record (attempt_of e) ∷ []),
          )
          (project_step-Agrees milliseconds exit_path m
            (project_steps milliseconds exit_path empty_run s.steps) s (attempt_of e)
            known.same_exit
            (result_for_step-node_attempt milliseconds e.begun e.id e.node e.ran known.measured)
            agrees))

  -- Whatever attempts are recorded, the results and the outputs that the store builds from the
  -- recorded steps are those that the engine keeps, for every node and for the mount path of every
  -- exit, with `null` for an output that is not there; where the durations are the differences of
  -- the times and the snapshot has the exits of the composition.
  pub project_steps-record_all :
      (es : List EndedNode) (s : RunState)
      → s.steps ≡ []
      → s.results ≡ []
      → s.outputs ≡ []
      → All IsTold es
      → Agrees
          (project_steps milliseconds exit_path empty_run (record_all m es s).steps)
          (record_all m es s)
  unfolding project_steps lookup
  project_steps-record_all es s no_steps no_results no_outputs told = record_all-Agrees es s told (
      rw (no_steps, no_results, no_outputs) (record { results = λ id. refl; outputs = λ id. refl }))
