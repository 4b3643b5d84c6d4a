-- ===== src/Collaboration/TaskFsm.antt =====
-- src/collaboration/task/task-fsm.ts and the types that it takes from task-types.ts.
pub mod Legal
pub mod History
pub mod Machine
mod Tests
use openclaw_enterprise_plug.Common.{
  ℕ, String, ◌≡◌, Bool, true, false, Option, none, some, List, [], ◌∷◌, ◌++◌, map, any, ◌==◌,
  if◌then◌else◌, or_else, is_some,
}

pub data TaskState : Type 0 where
  pending queued running paused completed failed killed timeout : TaskState

pub data TaskEvent : Type 0 where
  enqueue start complete fail pause resume kill timeout_trigger retry : TaskEvent

abbrev pub event_name : TaskEvent → String
event_name enqueue = "enqueue"
event_name start = "start"
event_name complete = "complete"
event_name fail = "fail"
event_name pause = "pause"
event_name resume = "resume"
event_name kill = "kill"
event_name timeout_trigger = "timeout_trigger"
event_name retry = "retry"

-- The place of an event in its type, by which events are compared.
abbrev event_index : TaskEvent → ℕ
event_index enqueue = 0
event_index start = 1
event_index complete = 2
event_index fail = 3
event_index pause = 4
event_index resume = 5
event_index kill = 6
event_index timeout_trigger = 7
event_index retry = 8

abbrev pub same_event : TaskEvent → TaskEvent → Bool
same_event a b = event_index a == event_index b

pub record TaskStateTransition : Type 0 where
  pub from : TaskState
  pub to : TaskState
  pub reason : String
  pub timestamp : ℕ
  pub actor : String

abbrev pub transition_table : TaskState → List (TaskEvent × TaskState)
transition_table pending = (enqueue, queued) ∷ (kill, killed) ∷ []
transition_table queued = (start, running) ∷ (kill, killed) ∷ []
transition_table running =
    (complete, completed)
    ∷ (fail, failed)
    ∷ (pause, paused)
    ∷ (kill, killed)
    ∷ (timeout_trigger, timeout)
    ∷ []
transition_table paused = (resume, running) ∷ (kill, killed) ∷ []
transition_table failed = (retry, queued) ∷ []
transition_table timeout = (retry, queued) ∷ []
transition_table completed = []
transition_table killed = []

-- `row[event]`
abbrev pub row_get : List (TaskEvent × TaskState) → TaskEvent → Option TaskState
row_get [] e = none
row_get ((e', s) ∷ row) e = if same_event e' e then some s else row_get row e

pub record TaskFsm : Type 0 where
  pub state : TaskState
  pub history : List TaskStateTransition

-- The constructor, with its defaults.
unfoldable pub new_fsm : Option TaskState → Option (List TaskStateTransition) → TaskFsm
new_fsm initial history = record { state = or_else initial pending; history = or_else history [] }

-- `TERMINAL_STATES.has(state)`
abbrev pub terminal : TaskState → Bool
terminal completed = true
terminal killed = true
terminal _ = false

unfoldable pub is_terminal : TaskFsm → Bool
is_terminal f = terminal f.state

unfoldable pub can_transition : TaskFsm → TaskEvent → Bool
can_transition f e = is_some (row_get (transition_table f.state) e)

unfoldable pub available_events : TaskFsm → List TaskEvent
available_events f = map (λ r. r.0) (transition_table f.state)

-- What `transition` returns, or the fields of the error that it throws.
pub data Transitioned : Type 0 where
  moved : TaskState → Transitioned
  illegal : TaskState → TaskEvent → List TaskEvent → Transitioned

apply : TaskFsm → TaskEvent → String → Option String → ℕ → Option TaskState → TaskFsm × Transitioned
unfolding available_events
apply f e actor reason now none = (f, illegal f.state e (available_events f))
apply f e actor reason now (some next) = (
  record {
    state = next;
    history =
        f.history
        ++ record {
          from = f.state;
          to = next;
          reason = or_else reason (event_name e);
          timestamp = now;
          actor = actor;
        }
          ∷ [];
  },
  moved next,
)

unfoldable pub transition :
    TaskFsm → TaskEvent → String → Option String → ℕ → TaskFsm × Transitioned
unfolding apply
transition f e actor reason now = apply f e actor reason now (row_get (transition_table f.state) e)

unfoldable pub serialize : TaskFsm → TaskState × List TaskStateTransition
serialize f = (f.state, f.history)

unfoldable pub restore : TaskState × List TaskStateTransition → TaskFsm
unfolding new_fsm
restore (s, h) = new_fsm (some s) (some h)
