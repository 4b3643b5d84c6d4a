-- ===== src/Collaboration/TaskFsm/History.antt =====
-- What the history of a task says, after any requests.
use openclaw_enterprise_plug.Common.{
  ℕ, ◌+◌, ◌≤◌, String, ◌≡◌, refl, Option, none, List, [], ◌∷◌, ◌++◌, arith, Option-cases, inl, inr,
}
use openclaw_enterprise_plug.Collaboration.TaskFsm.{
  TaskState, pending, queued, running, failed, timeout, TaskEvent, TaskStateTransition,
  transition_table, row_get, TaskFsm, new_fsm, transition,
}
use openclaw_enterprise_plug.Collaboration.TaskFsm.Legal.{Legal, row_Legal}

pub record Request : Type 0 where
  pub event : TaskEvent
  pub actor : String
  pub reason : Option String
  pub at : ℕ

-- A run of requests; one that throws is passed over.
unfoldable pub run : List Request → TaskFsm → TaskFsm
run [] f = f
run (r ∷ rs) f = run rs (transition f r.event r.actor r.reason r.at).0

-- The entries lead from `s` to `t`, each by a legal transition that begins where the last one ended.
abbrev pub LegalChain : TaskState → List TaskStateTransition → TaskState → Type 0
LegalChain s [] t = s ≡ t
LegalChain s (x ∷ h) t = (x.from ≡ s) × ((e : TaskEvent) × Legal s e x.to) × LegalChain x.to h t

LegalChain-snoc :
    (s t u : TaskState) (h : List TaskStateTransition) (x : TaskStateTransition) (e : TaskEvent)
    → LegalChain s h t
    → x.from ≡ t
    → x.to ≡ u
    → Legal t e u
    → LegalChain s (h ++ x ∷ []) u
LegalChain-snoc s t u [] x e c p q l = rw c (p, (e, rw q l), q)
LegalChain-snoc s t u (y ∷ h) x e c p q l = (c.0, c.1, LegalChain-snoc y.to t u h x e c.2 p q l)

abbrev pub IsSound : TaskFsm → Type 0
IsSound f = LegalChain pending f.history f.state

transition-IsSound :
    (f : TaskFsm) (e : TaskEvent) (actor : String) (reason : Option String) (now : ℕ)
    → IsSound f
    → IsSound (transition f e actor reason now).0
unfolding transition
transition-IsSound f e actor reason now c =
    elim (Option-cases (row_get (transition_table f.state) e)) [
      | inl p ↦ rw (p, transition) c
      | inr (t, p) ↦
          rw (p, transition)
            (LegalChain-snoc pending f.state t f.history _ e c refl refl (row_Legal f.state e p))
    ]

run-IsSound : (rs : List Request) (f : TaskFsm) → IsSound f → IsSound (run rs f)
unfolding run
run-IsSound [] f c = c
run-IsSound (r ∷ rs) f c =
    run-IsSound rs (transition f r.event r.actor r.reason r.at).0
      (transition-IsSound f r.event r.actor r.reason r.at c)

-- After any requests at all, accepted or refused, the history of a new task leads from `pending` to
-- the present state by legal transitions, each of which begins where the one before it ended.
pub run-LegalChain :
    (rs : List Request) → let f = run rs (new_fsm none none) in LegalChain pending f.history f.state
run-LegalChain rs = run-IsSound rs (new_fsm none none) (unfold new_fsm in refl)

-- Entries that start an attempt, and entries that put a task back into the queue.
abbrev is_start : TaskState → TaskState → ℕ
is_start queued running = 1
is_start _ _ = 0

abbrev is_retry : TaskState → TaskState → ℕ
is_retry failed queued = 1
is_retry timeout queued = 1
is_retry _ _ = 0

abbrev pub starts : List TaskStateTransition → ℕ
starts [] = 0
starts (x ∷ h) = is_start x.from x.to + starts h

abbrev pub retries : List TaskStateTransition → ℕ
retries [] = 0
retries (x ∷ h) = is_retry x.from x.to + retries h

-- The attempts that a state still has in hand without a retry.
abbrev credit : TaskState → ℕ
credit pending = 1
credit queued = 1
credit _ = 0

credit-step :
    {s t : TaskState} {e : TaskEvent}
    → Legal s e t
    → is_start s t + credit t ≤ credit s + is_retry s t
credit-step Legal.pending_queued = omega arith
credit-step _ = omega arith

starts-le :
    (s t : TaskState) (h : List TaskStateTransition)
    → LegalChain s h t
    → starts h ≤ credit s + retries h
starts-le s t [] c = omega arith
starts-le s t (x ∷ h) (p, (e, l), c) = rw p (omega (arith, credit-step l, starts-le x.to t h c))

-- A task is never started more often than once and one more time for each retry.
pub starts_bounded :
    (rs : List Request) → let h = (run rs (new_fsm none none)).history in starts h ≤ 1 + retries h
starts_bounded rs =
    let f = run rs (new_fsm none none) in starts-le pending f.state f.history (run-LegalChain rs)
