-- ===== src/Engine/Failed.antt =====
-- A failure that ends a run, in executeGraph and in resumeRun of src/workflows/engine.ts.
use pi_workflows.Prelude.{
  sym, ap, ◌∙◌, refl, last, some, none, ok, false, ◌≡◌, String, Option, Bool, ℕ, arith,
}
use pi_workflows.Engine.{NodeAttempt, node_failed, Environment, EngineWorkflow}
use pi_workflows.Engine.Loop.{
  raises, route_after_failure, mark_timed_out, finish_run, finish_after_error, final_status,
}
use pi_workflows.Engine.Record.{mirror_exit, exit_of, record_attempt, failure_message}
use pi_workflows.Engine.Resume.{
  reset_state, finish_resumed, ResumePoint, resumed_attempt, resume_run, resume_point_for,
  point_from_steps, continue_from, point_after, failed_status,
}
use pi_workflows.Json.{Json}
use pi_workflows.Transitions.{is_succeeded, RunStatus, RunState, NodeResult, EndStatus}
use pi_workflows.Engine.Boundary.{record_attempt-reset, point_from_steps-record_attempt}

mirror_exit-status :
    (path : Option String) (r : NodeResult) (s : RunState)
    → (mirror_exit path r s).status ≡ s.status
unfolding mirror_exit
mirror_exit-status none r s = refl
mirror_exit-status (some path) r s = ground arith

module _ (number_text : ℕ → String) (w : EngineWorkflow) (env : Environment) where
  record IsFinal (executed : ℕ) (o : Option Json) (s : RunState) (r : NodeResult) (s' : RunState)
      (message : String) : Type 0 where
    pub point :
        point_after number_text w r r.step.node_id
        ≡ ok (record { node = none; last_output = none; failed_result = some r })
    pub says : message ≡ failure_message r
    pub marks : s' ≡ mark_timed_out r.step.outcome s

  route_after_failure-IsFinal :
      (executed : ℕ) (o : Option Json) (s : RunState) (r : NodeResult) (stopped : Bool)
      (s' : RunState) (message : String)
      → is_succeeded r.step.outcome ≡ false
      → route_after_failure number_text w env executed o s r stopped
        ≡ raises s' (node_failed message)
      → IsFinal executed o s r s' message
  unfolding route_after_failure point_after
  route_after_failure-IsFinal executed o s r stopped s' message bad h = record {
    point = ground arith;
    says = ground arith;
    marks = ground arith;
  }

  finish_run-failed :
      (r : NodeResult) (s : RunState) (message : String)
      → is_succeeded r.step.outcome ≡ false
      → s.status ≡ RunStatus.running
      → finish_run s (failed_status r) (some message) none env.now
        ≡ finish_run (mark_timed_out r.step.outcome s) EndStatus.failed (some message) none env.now
  unfolding finish_run final_status
  finish_run-failed r s message bad running = ground arith

  finish_after_error-failed :
      (s : RunState) (message : String)
      → (env.at_end s).parked ≡ false
      → (env.at_end s).cancelled ≡ false
      → finish_after_error number_text w env s (node_failed message)
        ≡ finish_run s EndStatus.failed (some message) none env.now
  unfolding finish_after_error
  finish_after_error-failed s message parked cancelled = ground arith

  record_attempt-idle :
      (s : RunState) (a : NodeAttempt) → (record_attempt w.composition s a).current_node ≡ none
  unfolding record_attempt
  record_attempt-idle s a = refl

  record_attempt-status :
      (s : RunState) (a : NodeAttempt) → (record_attempt w.composition s a).status ≡ s.status
  unfolding record_attempt
  record_attempt-status s a =
      mirror_exit-status (exit_of w.composition a.result.step.node_id) a.result _

  resume_point_for-idle :
      (s : RunState) (p : ResumePoint)
      → s.current_node ≡ none
      → point_from_steps number_text w (last s.steps) s ≡ ok p
      → resume_point_for number_text w s ≡ ok p
  unfolding resume_point_for
  resume_point_for-idle s p idle found = rw (idle, resume_point_for) found

  resumed_attempt-idle :
      (interaction : Option String) (s : RunState)
      → s.current_node ≡ none
      → resumed_attempt number_text w env interaction s ≡ ok none
  unfolding resumed_attempt
  resumed_attempt-idle interaction s idle = rw (idle, resumed_attempt) refl

  resume_run-idle :
      (fuel : ℕ) (interaction : Option String) (s : RunState) (p : ResumePoint)
      → resume_point_for number_text w s ≡ ok p
      → resumed_attempt number_text w env interaction s ≡ ok none
      → reset_state s none ≡ s
      → resume_run number_text w env fuel interaction s
        ≡ ok (continue_from number_text w env fuel s p none)
  unfolding resume_run
  resume_run-idle fuel interaction s p found dropped clean =
      rw (found, dropped, resume_run)
        (ap (λ t. ok (continue_from number_text w env fuel t p none)) clean)

  finish_resumed-failed :
      (fuel : ℕ) (s : RunState) (r : NodeResult)
      → continue_from number_text w env fuel s
          (record { node = none; last_output = none; failed_result = some r })
          none
        ≡ some (finish_run s (failed_status r) (some (failure_message r)) none env.now)
  unfolding continue_from finish_resumed
  finish_resumed-failed fuel s r = refl

  -- A failure without a route, which was recorded before the run was interrupted: resuming writes
  -- the end that the loop would have written, with the same status and the same error, where the
  -- run is neither parked nor cancelled by then.
  pub resume_run-route_after_failure :
      (fuel executed : ℕ) (interaction : Option String) (o : Option Json) (s : RunState)
      (a : NodeAttempt) (stopped : Bool) (s' : RunState) (message : String)
      → s.paused ≡ false
      → s.status ≡ RunStatus.running
      → is_succeeded a.result.step.outcome ≡ false
      → route_after_failure number_text w env executed o
          (record_attempt w.composition s a)
          a.result
          stopped
        ≡ raises s' (node_failed message)
      → (env.at_end s').parked ≡ false
      → (env.at_end s').cancelled ≡ false
      → resume_run number_text w env fuel interaction (record_attempt w.composition s a)
        ≡ ok (some (finish_after_error number_text w env s' (node_failed message)))
  resume_run-route_after_failure fuel executed interaction o s a stopped s' message unpaused running
        bad h parked cancelled =
      let saved : RunState = record_attempt w.composition s a in
      let final = route_after_failure-IsFinal executed o saved a.result stopped s' message bad h in
      let idle = record_attempt-idle s a in
      let end =
        resume_run-idle fuel interaction saved
          (record { node = none; last_output = none; failed_result = some a.result })
          (resume_point_for-idle saved _ idle
            (point_from_steps-record_attempt number_text w w.composition s a ∙ final.point))
          (resumed_attempt-idle interaction saved idle)
          (record_attempt-reset w.composition s a unpaused) in
      let marked : RunState = mark_timed_out a.result.step.outcome saved in
      let same =
        finish_run-failed a.result saved (failure_message a.result) bad
          (record_attempt-status s a ∙ running)
        ∙ ap (λ m. finish_run marked EndStatus.failed (some m) none env.now) (sym final.says)
        ∙ ap (λ x. finish_run x EndStatus.failed (some message) none env.now) (sym final.marks)
        ∙ sym (finish_after_error-failed s' message parked cancelled) in
      end ∙ ap ok (finish_resumed-failed fuel saved a.result ∙ ap some same)
