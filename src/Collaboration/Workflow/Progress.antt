-- ===== src/Collaboration/Workflow/Progress.antt =====
-- The runs of a workflow, from its start over signals and timeouts.
use openclaw_enterprise_plug.Common.{
  ℕ, String, ◌≡◌, refl, ap, inr, some, List, [], ◌∷◌, get_elem?, arith, or_else,
}
use openclaw_enterprise_plug.Common.Dict
use openclaw_enterprise_plug.Common.Dict.{Dict}
use openclaw_enterprise_plug.Kernel.Storage.Interface.{StorageBackend}
use openclaw_enterprise_plug.Collaboration.Workflow.{
  WorkflowStep, WorkflowDefinition, Instance, signalled, Phase, executing, waiting, ended, running,
  failed, Run, started, saved, execute_steps, signal_arrives, resumed, fail_instance,
  signal_times_out, start_workflow,
}
use openclaw_enterprise_plug.Collaboration.Workflow.Steps.{
  HasResults, IsAt, IsSound, Rests, changed-IsSaved, stepped-IsSound, execute_steps-Rests,
}

module _ (b : StorageBackend Instance) (tenant : String) (d : WorkflowDefinition) where
  resumed-IsSound :
      (now : ℕ) (signal : String) (r : Run b) (s : WorkflowStep)
      → get_elem? d.steps r.instance_of.current_step_index ≡ some s
      → r.instance_of.current_step_id ≡ some s.id
      → HasResults d r.instance_of
      → IsSound b tenant d (resumed b tenant now signal r.instance_of r)
  resumed-IsSound now signal r s at c h =
      stepped-IsSound b tenant d now s (signalled (or_else r.instance_of.current_step_id "") signal)
        (record r.instance_of { state = running }) r (ap (λ o. or_else o "") c) at refl h

  pub signal_arrives-Rests :
      (now : ℕ) (signal : String) (r : Run b)
      → Rests b tenant d r
      → Rests b tenant d (signal_arrives b tenant now signal d r)
  unfolding signal_arrives
  signal_arrives-Rests now signal r h = by_phase r.phase h.0.2
    where
      by_phase :
          (p : Phase)
          → IsAt d p r.instance_of
          → Rests b tenant d (elim p [
            | executing ↦ r
            | waiting ms ↦
                execute_steps b tenant now d (resumed b tenant now signal r.instance_of r)
            | ended ↦ r
          ])
      by_phase executing a = h
      by_phase (waiting ms) (s, st, at, c) =
          execute_steps-Rests b tenant d now (resumed b tenant now signal r.instance_of r)
            (resumed-IsSound now signal r s at c h.0.1)
      by_phase ended a = h

  pub signal_times_out-Rests :
      (now : ℕ) (error : String) (r : Run b)
      → Rests b tenant d r
      → Rests b tenant d (signal_times_out b tenant now error r)
  unfolding signal_times_out fail_instance
  signal_times_out-Rests now error r h = by_phase r.phase
    where
      by_phase :
          (p : Phase)
          → Rests b tenant d (elim p [
            | executing ↦ r
            | waiting ms ↦ fail_instance b tenant now error r
            | ended ↦ r
          ])
      by_phase executing = h
      by_phase (waiting ms) =
          let i = record r.instance_of { state = failed; error = some error; updated_at = now } in
          ((changed-IsSaved b tenant d now i ended r, h.0.1, inr refl), refl)
      by_phase ended = h

  -- What comes to a run that waits.
  pub data Wake : Type 0 where
    signal_at timeout_at : ℕ → String → Wake

  abbrev pub wake_all : List Wake → Run b → Run b
  wake_all [] r = r
  wake_all (signal_at now data_of ∷ ws) r = wake_all ws (signal_arrives b tenant now data_of d r)
  wake_all (timeout_at now error ∷ ws) r = wake_all ws (signal_times_out b tenant now error r)

  wake_all-Rests :
      (ws : List Wake) (r : Run b) → Rests b tenant d r → Rests b tenant d (wake_all ws r)
  wake_all-Rests [] r h = h
  wake_all-Rests (signal_at now data_of ∷ ws) r h =
      wake_all-Rests ws (signal_arrives b tenant now data_of d r)
        (signal_arrives-Rests now data_of r h)
  wake_all-Rests (timeout_at now error ∷ ws) r h =
      wake_all-Rests ws (signal_times_out b tenant now error r)
        (signal_times_out-Rests now error r h)

  -- A workflow that is started comes to a wait for a signal or to an end, and so it does again after
  -- any signals and timeouts: at each of these points the stored instance is the one of the run, the
  -- steps before the index have their results in their order, and the run waits at a step, is
  -- completed behind the last one, or has failed.
  pub start_workflow-Rests :
      (definitions : Dict WorkflowDefinition) (now : ℕ) (id workflow_id input : String)
      (s : b.State)
      → Dict.get definitions workflow_id ≡ some d
      → (r : Run b) × (start_workflow b definitions tenant now id workflow_id input s ≡ some r)
        × ((ws : List Wake) → Rests b tenant d (wake_all ws r))
  unfolding start_workflow saved
  start_workflow-Rests definitions now id workflow_id input s f =
      let i = started id tenant input now d in
      let r : Run b = record {
        instance_of = i;
        storage = saved b tenant now i s;
        published = [];
        phase = executing;
      } in
      let r₀ : Run b = record r { storage = s } in
      let rests =
        execute_steps-Rests b tenant d now r
          (changed-IsSaved b tenant d now i executing r₀, refl, (refl, omega arith)) in
      (
        execute_steps b tenant now d r,
        rw (start_workflow, f) refl,
        λ ws. wake_all-Rests ws (execute_steps b tenant now d r) rests,
      )
