-- ===== src/Collaboration/TaskFsm/Machine.antt =====
-- The machine of tasks is an instance of the generic state machine of src/reliability.
use mathlib.Core.List.{map-append}
use openclaw_enterprise_plug.Common.{
  ℕ, String, ◌≡◌, refl, ap, ◌∙◌, Option, none, some, [], ◌∷◌, map, filter, find, str_eq,
  Option-cases, inl, inr,
}
use openclaw_enterprise_plug.Reliability.StateMachine
use openclaw_enterprise_plug.Reliability.StateMachine.{
  TransitionDef, Definition, Entry, Machine, Sent, arrived, no_transition, fits, send,
}
use openclaw_enterprise_plug.Reliability.StateMachine.History.{send_unhandled, send_plain}
use openclaw_enterprise_plug.Collaboration.TaskFsm.{
  TaskState, pending, queued, running, paused, completed, failed, killed, timeout, TaskEvent,
  enqueue, start, complete, fail, pause, resume, kill, timeout_trigger, retry, event_name,
  TaskStateTransition, transition_table, row_get, TaskFsm, Transitioned, moved, illegal, transition,
  available_events,
}

abbrev pub state_name : TaskState → String
state_name pending = "pending"
state_name queued = "queued"
state_name running = "running"
state_name paused = "paused"
state_name completed = "completed"
state_name failed = "failed"
state_name killed = "killed"
state_name timeout = "timeout"

abbrev edge : TaskState → TaskEvent → TaskState → TransitionDef
edge s e t = record { from = state_name s; event = event_name e; to = state_name t }

-- The table of tasks, written as a definition of the generic machine.
abbrev pub task_definition : Definition (Unit {0})
task_definition = record {
  initial_state = state_name pending;
  terminal_states = state_name completed ∷ state_name killed ∷ [];
  transitions =
      edge pending enqueue queued
      ∷ edge pending kill killed
      ∷ edge queued start running
      ∷ edge queued kill killed
      ∷ edge running complete completed
      ∷ edge running fail failed
      ∷ edge running pause paused
      ∷ edge running kill killed
      ∷ edge running timeout_trigger timeout
      ∷ edge paused resume running
      ∷ edge paused kill killed
      ∷ edge failed retry queued
      ∷ edge timeout retry queued
      ∷ [];
  guards = [];
  actions = [];
}

-- An entry of a transition made with no reason of its own, whose reason is then the event.
abbrev pub as_entry : TaskStateTransition → Entry
as_entry x = record {
  from = state_name x.from;
  to = state_name x.to;
  event = x.reason;
  timestamp = x.timestamp;
}

abbrev pub as_machine : TaskFsm → Machine (Unit {0})
as_machine f = record { state = state_name f.state; context = tt; history = map as_entry f.history }

abbrev pub as_sent : Transitioned → Sent
as_sent (moved s) = arrived (state_name s)
as_sent (illegal s e es) = no_transition (state_name s) (event_name e) (map event_name es)

abbrev found : TaskState → TaskEvent → Option TransitionDef
found s e = find (fits (state_name s) (event_name e)) task_definition.transitions

abbrev expected : TaskState → TaskEvent → Option TaskState → Option TransitionDef
expected s e none = none
expected s e (some t) = some (edge s e t)

found-row_get :
    (s : TaskState) (e : TaskEvent) → found s e ≡ expected s e (row_get (transition_table s) e)
found-row_get pending enqueue = refl
found-row_get pending _ = refl
found-row_get queued enqueue = refl
found-row_get queued _ = refl
found-row_get running enqueue = refl
found-row_get running _ = refl
found-row_get paused enqueue = refl
found-row_get paused _ = refl
found-row_get completed enqueue = refl
found-row_get completed _ = refl
found-row_get failed enqueue = refl
found-row_get failed _ = refl
found-row_get killed enqueue = refl
found-row_get killed _ = refl
found-row_get timeout enqueue = refl
found-row_get timeout _ = refl

available-row :
    (s : TaskState)
    → map (λ t. t.event) (filter (λ t. str_eq t.from (state_name s)) task_definition.transitions)
      ≡ map event_name (map (λ r. r.0) (transition_table s))
available-row pending = refl
available-row _ = refl

-- The generic machine, given the table of tasks as its definition, answers every event as the
-- machine of tasks does (with no reason given), and stays in step with it: state, history, and the
-- contents of the error.
pub send-transition :
    (f : TaskFsm) (e : TaskEvent) (actor : String) (now : ℕ)
    → send task_definition now (event_name e) (as_machine f)
      ≡ (as_machine (transition f e actor none now).0, as_sent (transition f e actor none now).1)
unfolding transition available_events StateMachine.available_events
send-transition f e actor now = elim (Option-cases (row_get (transition_table f.state) e)) [
  | inl p ↦
      rw
        (send_unhandled task_definition now (event_name e) (as_machine f)
          (found-row_get f.state e ∙ ap (expected f.state e) p))
        (rw (p, transition)
          (ap (λ l. (as_machine f, no_transition (state_name f.state) (event_name e) l))
            (available-row f.state)))
  | inr (t, p) ↦
      rw
        (send_plain task_definition now (event_name e) (as_machine f) (edge f.state e t) refl refl
          (found-row_get f.state e ∙ ap (expected f.state e) p))
        (rw (p, transition) (rw map-append))
]
