-- ===== src/Collaboration/Workflow.antt =====
-- src/collaboration/workflow: the types of workflow-engine.ts and the engine of
-- impl/simple-workflow.ts over any StorageBackend. Values of unknown type are texts. A run is the
-- instance that `executeStep` holds, with the storage and the types of the events published; each
-- call runs until the engine waits for a signal or ends, and the readings of the clock in it are one
-- argument.
mod Steps
mod Progress
mod Registry
mod Tests
use openclaw_enterprise_plug.Common.{
  ℕ, zero, suc, ◌+◌, String, Bool, true, false, Option, none, some, List, [], ◌∷◌, ◌++◌, get_elem?,
  length, if◌then◌else◌, append, or_else,
}
use openclaw_enterprise_plug.Common.Dict
use openclaw_enterprise_plug.Common.Dict.{Dict}
use openclaw_enterprise_plug.Kernel.Storage.Interface.{StorageBackend}

pub data StepKind : Type 0 where
  agent_task human_review condition parallel wait_signal : StepKind

pub record WorkflowStep : Type 0 where
  pub id : String
  pub kind : StepKind
  pub config : String
  pub timeout_ms : Option ℕ

-- The fields that the engine reads.
pub record WorkflowDefinition : Type 0 where
  pub id : String
  pub version : ℕ
  pub steps : List WorkflowStep

pub data WorkflowState : Type 0 where
  running waiting_signal completed failed killed : WorkflowState

pub data StepResult : Type 0 where
  task condition_of : String → String → StepResult
  not_supported : String → StepResult
  signalled : String → String → StepResult

-- PersistedInstance
pub record Instance : Type 0 where
  pub id : String
  pub workflow_id : String
  pub workflow_version : ℕ
  pub tenant_id : String
  pub state : WorkflowState
  pub current_step_id : Option String
  pub input : String
  pub error : Option String
  pub created_at : ℕ
  pub updated_at : ℕ
  pub completed_at : Option ℕ
  pub current_step_index : ℕ
  pub step_results : List StepResult

-- What the run does next: go on, wait with a timer of so many milliseconds, or nothing any more.
pub data Phase : Type 0 where
  executing : Phase
  waiting : ℕ → Phase
  ended : Phase

abbrev pub workflow_instances : String
workflow_instances = "workflow_instances"

abbrev pub first_id : List WorkflowStep → Option String
first_id [] = none
first_id (s ∷ steps) = some s.id

abbrev pub started : String → String → String → ℕ → WorkflowDefinition → Instance
started id tenant input now d = record {
  id = id;
  workflow_id = d.id;
  workflow_version = d.version;
  tenant_id = tenant;
  state = running;
  current_step_id = first_id d.steps;
  input = input;
  error = none;
  created_at = now;
  updated_at = now;
  completed_at = none;
  current_step_index = 0;
  step_results = [];
}

-- The `switch`: a result at once, or a wait for a signal.
abbrev pub result_of : WorkflowStep → Option StepResult
result_of s = elim s.kind [
  | agent_task ↦ some (task s.id s.config)
  | human_review ↦ none
  | condition ↦ some (condition_of s.id s.config)
  | parallel ↦ some (not_supported s.id)
  | wait_signal ↦ none
]

module _ (b : StorageBackend Instance) where
  pub record Run : Type 0 where
    pub instance_of : Instance
    pub storage : b.State
    pub published : List String
    pub phase : Phase

  -- `storage.set(ctx, COLLECTION_INSTANCES, instance.id, instance)`
  unfoldable pub saved : String → ℕ → Instance → b.State → b.State
  saved tenant now i s = b.set now tenant workflow_instances i.id i s

  -- The instance with a change, saved.
  abbrev pub changed : String → ℕ → Instance → Phase → Run → Run
  changed tenant now i phase r = record r {
    instance_of = i;
    storage = saved tenant now i r.storage;
    phase = phase;
  }

  abbrev pub finished : ℕ → Instance → Instance
  finished now i = record i { state = completed; updated_at = now; completed_at = some now }

  -- The end of a step: its result, and the next index.
  abbrev pub stepped : ℕ → StepResult → Instance → Instance
  stepped now result i = record i {
    step_results = i.step_results ++ result ∷ [];
    current_step_index = suc i.current_step_index;
    updated_at = now;
  }

  abbrev pub run_step : String → ℕ → WorkflowStep → Run → Run
  run_step tenant now s r =
      let at =
        changed tenant now (record r.instance_of { current_step_id = some s.id }) executing r in
      elim (result_of s) [
        | none ↦
            changed tenant now (record at.instance_of { state = waiting_signal })
              (waiting (or_else s.timeout_ms 86400000)) at
        | some result ↦ changed tenant now (stepped now result at.instance_of) executing at
      ]

  abbrev pub end_run : String → ℕ → Run → Run
  end_run tenant now r =
      let r' = changed tenant now (finished now r.instance_of) ended r in
      record r' { published = r'.published ++ "workflow.completed" ∷ [] }

  -- One call of `executeStep` without the call of itself at its end.
  unfoldable pub step_once : String → ℕ → WorkflowDefinition → Run → Run
  unfolding saved
  step_once tenant now d r = elim (get_elem? d.steps r.instance_of.current_step_index) [
    | none ↦ end_run tenant now r
    | some s ↦ run_step tenant now s r
  ]

  abbrev pub is_executing : Phase → Bool
  is_executing executing = true
  is_executing (waiting ms) = false
  is_executing ended = false

  -- `executeStep` until it waits or ends, on fuel.
  abbrev pub execute : ℕ → String → ℕ → WorkflowDefinition → Run → Run
  execute zero tenant now d r = r
  execute (suc fuel) tenant now d r =
      let rest = execute fuel tenant now d (step_once tenant now d r) in
      if is_executing r.phase then rest else r

  -- Each step is executed once at most before the run waits or ends.
  unfoldable pub execute_steps : String → ℕ → WorkflowDefinition → Run → Run
  unfolding step_once
  execute_steps tenant now d r = execute (suc (length d.steps)) tenant now d r

  -- The promise of `once` is resolved with a signal.
  abbrev pub resumed : String → ℕ → String → Instance → Run → Run
  resumed tenant now signal i r =
      changed tenant now
        (stepped now (signalled (or_else i.current_step_id "") signal)
          (record i { state = running }))
        executing r

  unfoldable pub signal_arrives : String → ℕ → String → WorkflowDefinition → Run → Run
  unfolding execute_steps saved
  signal_arrives tenant now signal d r = elim r.phase [
    | executing ↦ r
    | waiting ms ↦ execute_steps tenant now d (resumed tenant now signal r.instance_of r)
    | ended ↦ r
  ]

  unfoldable pub fail_instance : String → ℕ → String → Run → Run
  unfolding saved
  fail_instance tenant now error r =
      changed tenant now
        (record r.instance_of { state = failed; error = some error; updated_at = now }) ended r

  -- The promise of `once` is rejected with the error, which reaches the `catch` of `startWorkflow`.
  unfoldable pub signal_times_out : String → ℕ → String → Run → Run
  unfolding fail_instance
  signal_times_out tenant now error r = elim r.phase [
    | executing ↦ r
    | waiting ms ↦ fail_instance tenant now error r
    | ended ↦ r
  ]

  -- `none`: `Workflow not found`. The random identity is an argument.
  unfoldable pub start_workflow :
      Dict WorkflowDefinition → String → ℕ → String → String → String → b.State → Option Run
  unfolding execute_steps saved
  start_workflow definitions tenant now id workflow_id input s =
      elim (Dict.get definitions workflow_id) [
        | none ↦ none
        | some d ↦
            let i = started id tenant input now d in
            some (
              execute_steps tenant now d (record {
                instance_of = i;
                storage = saved tenant now i s;
                published = [];
                phase = executing;
              }))
      ]

  -- The type of the event that `signal` publishes; `none`: `Workflow instance not found`.
  unfoldable pub signal : String → String → b.State → b.State × Option String
  signal tenant instance_id s =
      let (s', i) = b.get tenant workflow_instances instance_id s in
      (s', elim i [ none ↦ none | some j ↦ some (append "workflow.signal." instance_id) ])
