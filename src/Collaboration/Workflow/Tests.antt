-- ===== src/Collaboration/Workflow/Tests.antt =====
-- The workflow engine over the memory storage, with a step of each kind of result.
use openclaw_enterprise_plug.Common.{◌≡◌, ◌≤◌, refl, none, some, List, [], ◌∷◌, length, true}
use openclaw_enterprise_plug.Common.Dict
use openclaw_enterprise_plug.Kernel.Storage.Interface.{StorageBackend}
use openclaw_enterprise_plug.Kernel.Storage.Laws.{memory_backend}
use openclaw_enterprise_plug.Collaboration.Workflow.{
  WorkflowDefinition, Instance, Run, agent_task, human_review, parallel, start_workflow,
}
use openclaw_enterprise_plug.Collaboration.Workflow.Steps.{Rests}
use openclaw_enterprise_plug.Collaboration.Workflow.Progress.{Wake, wake_all, start_workflow-Rests}
use openclaw_enterprise_plug.Collaboration.Workflow.Registry.{initialize, initialize-length}

abbrev memory : StorageBackend Instance
memory = memory_backend {V = Instance}

abbrev review : WorkflowDefinition
review = record {
  id = "review";
  version = 1;
  steps =
      record { id = "draft"; kind = agent_task; config = "{}"; timeout_ms = none }
      ∷ record { id = "check"; kind = human_review; config = "{}"; timeout_ms = some 1000 }
      ∷ record { id = "send"; kind = parallel; config = "{}"; timeout_ms = none }
      ∷ [];
}

start_workflow-Rests_example :
    (r : Run memory) × (start_workflow memory
        (("review", review) ∷ [])
        "acme"
        5
        "i1"
        "review"
        "input"
        []
      ≡ some r)
    × ((ws : List (Wake memory "acme" review))
        → Rests memory "acme" review (wake_all memory "acme" review ws r))
unfolding Dict.get
start_workflow-Rests_example =
    start_workflow-Rests memory "acme" review (("review", review) ∷ []) 5 "i1" "review" "input" []
      refl

initialize-length_run : length (initialize (λ a b. true) [] []).1 ≤ 20
initialize-length_run = initialize-length (λ a b. true) []
