-- ===== src/Collaboration/TaskFsm/Tests.antt =====
-- Runs of the task machine at concrete inputs.
use openclaw_enterprise_plug.Common.{
  ◌+◌, ◌≤◌, ◌≡◌, refl, ◌↔◌, false, true, none, List, [], ◌∷◌, any,
}
use openclaw_enterprise_plug.Reliability.StateMachine.{send}
use openclaw_enterprise_plug.Collaboration.TaskFsm.{
  TaskFsm, TaskEvent, pending, completed, enqueue, start, complete, fail, retry, pause, resume,
  event_name, same_event, is_terminal, can_transition, available_events, illegal, transition,
  new_fsm, serialize, restore,
}
use openclaw_enterprise_plug.Collaboration.TaskFsm.Legal.{
  Legal, transition_refused, is_terminal_iff,
}
use openclaw_enterprise_plug.Collaboration.TaskFsm.History.{
  Request, run, LegalChain, starts, retries, run-LegalChain, starts_bounded,
}
use openclaw_enterprise_plug.Collaboration.TaskFsm.Machine.{
  task_definition, as_machine, as_sent, send-transition,
}

abbrev request : TaskEvent → Request
request e = record { event = e; actor = "scheduler"; reason = none; at = 7 }

-- The second `start` and the `resume` are refused.
abbrev requests : List Request
requests =
    request enqueue
    ∷ request start
    ∷ request fail
    ∷ request start
    ∷ request retry
    ∷ request start
    ∷ request pause
    ∷ request resume
    ∷ request complete
    ∷ request resume
    ∷ []

completes : (run requests (new_fsm none none)).state ≡ completed
unfolding run transition new_fsm
completes = refl

abbrev idle : TaskFsm
idle = record { state = pending; history = [] }

abbrev done : TaskFsm
done = record { state = completed; history = [] }

transition_refused_run :
    (transition done retry "user" none 5 ≡ (done, illegal completed retry (available_events done)))
    × (any (λ e. same_event e start) (available_events done) ≡ can_transition done start)
unfolding can_transition
transition_refused_run = transition_refused done retry start "user" none 5 refl

is_terminal_iff_run : (is_terminal done ≡ true) ↔ ((e : TaskEvent) → can_transition done e ≡ false)
is_terminal_iff_run = is_terminal_iff done

run-LegalChain_trace :
    let f = run requests (new_fsm none none) in LegalChain pending f.history f.state
run-LegalChain_trace = run-LegalChain requests

starts_bounded_run : let h = (run requests (new_fsm none none)).history in starts h ≤ 1 + retries h
starts_bounded_run = starts_bounded requests

starts_twice : starts (run requests (new_fsm none none)).history ≡ 2
unfolding run transition new_fsm
starts_twice = refl

send-transition_example : send task_definition 5 (event_name start) (as_machine idle) ≡ (
  as_machine (transition idle start "user" none 5).0,
  as_sent (transition idle start "user" none 5).1,
)
send-transition_example = send-transition idle start "user" 5

restore-serialize_run : restore (serialize done) ≡ done
unfolding restore serialize
restore-serialize_run = refl
