-- ===== src/Collaboration/TaskFsm/Legal.antt =====
-- The table of the comment at the top of task-fsm.ts, as a relation.
use openclaw_enterprise_plug.Common.{
  ℕ, String, ◌≡◌, refl, ◌↔◌, inl, inr, true, false, Option, some, List, [], ◌∷◌, map, arith, any,
  is_some, Option-cases, Bool-cases,
}
use openclaw_enterprise_plug.Collaboration.TaskFsm.{
  TaskState, pending, queued, running, paused, completed, failed, killed, timeout, TaskEvent,
  enqueue, start, complete, fail, pause, resume, kill, timeout_trigger, retry, same_event,
  transition_table, row_get, TaskFsm, is_terminal, can_transition, available_events, terminal,
  illegal, transition,
}

pub data Legal : TaskState → TaskEvent → TaskState → Type 0 where
  pending_queued : Legal pending enqueue queued
  pending_killed : Legal pending kill killed
  queued_running : Legal queued start running
  queued_killed : Legal queued kill killed
  running_completed : Legal running complete completed
  running_failed : Legal running fail failed
  running_paused : Legal running pause paused
  running_killed : Legal running kill killed
  running_timeout : Legal running timeout_trigger timeout
  paused_running : Legal paused resume running
  paused_killed : Legal paused kill killed
  failed_queued : Legal failed retry queued
  timeout_queued : Legal timeout retry queued

ruleset legal = (
  pending_queued, pending_killed, queued_running, queued_killed, running_completed, running_failed,
  running_paused, running_killed, running_timeout, paused_running, paused_killed, failed_queued,
  timeout_queued,
)

pub row_Legal :
    (s : TaskState) (e : TaskEvent) {t : TaskState}
    → row_get (transition_table s) e ≡ some t
    → Legal s e t
row_Legal s e h = grind (arith, legal)

Legal-row :
    {s t : TaskState} {e : TaskEvent} → Legal s e t → row_get (transition_table s) e ≡ some t
Legal-row pending_queued = refl
Legal-row _ = refl

row_get-any :
    (row : List (TaskEvent × TaskState)) (e : TaskEvent)
    → any (λ e'. same_event e' e) (map (λ r. r.0) row) ≡ is_some (row_get row e)
row_get-any [] e = refl
row_get-any ((e', s) ∷ row) e = ground (arith, row_get-any row e)

-- A refused event leaves the machine as it was, and the error names the state, the event and the
-- events listed by `availableEvents`: an event is on that list exactly when `canTransition` says so.
pub transition_refused :
    (f : TaskFsm) (e e' : TaskEvent) (actor : String) (reason : Option String) (now : ℕ)
    → can_transition f e ≡ false
    → (transition f e actor reason now ≡ (f, illegal f.state e (available_events f)))
      × (any (λ e''. same_event e'' e') (available_events f) ≡ can_transition f e')
unfolding transition can_transition available_events
transition_refused f e e' actor reason now h =
    (ground arith, row_get-any (transition_table f.state) e')

no_exit : (s : TaskState) → terminal s ≡ true → (e : TaskEvent) {t : TaskState} → ¬ Legal s e t
no_exit s h e pending_queued = cc
no_exit s h e _ = cc

exit : (s : TaskState) → terminal s ≡ false → (e : TaskEvent) × (t : TaskState) × Legal s e t
exit pending h = (enqueue, queued, pending_queued)
exit queued h = (start, running, queued_running)
exit running h = (complete, completed, running_completed)
exit paused h = (resume, running, paused_running)
exit failed h = (retry, queued, failed_queued)
exit timeout h = (retry, queued, timeout_queued)
exit completed h = cc
exit killed h = cc

-- `isTerminal` holds exactly where no event at all is accepted.
pub is_terminal_iff :
    (f : TaskFsm) → (is_terminal f ≡ true) ↔ ((e : TaskEvent) → can_transition f e ≡ false)
unfolding is_terminal can_transition
is_terminal_iff f = (
  λ h e. elim (Option-cases (row_get (transition_table f.state) e)) [
    | inl p ↦ rw p
    | inr (t, p) ↦ absurd (no_exit f.state h e (row_Legal f.state e p))
  ],
  λ h. elim (Bool-cases (terminal f.state)) [
    | inl p ↦ p
    | inr p ↦ let (e, t, l) = exit f.state p in absurd (cc (h e, Legal-row l))
  ],
)
