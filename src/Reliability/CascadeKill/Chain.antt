-- ===== src/Reliability/CascadeKill/Chain.antt =====
-- At any time at most one timer of a task runs, and the manager holds it.
use openclaw_enterprise_plug.Common.{
  ℕ, String, ◌≡◌, ◌≢◌, sym, ap, subst, ◌∙◌, Bool, true, not, some, List, [], ◌∷◌, ◌++◌, filter,
  find, ◌==◌, if◌then◌else◌, All, All-append, All-filter, filter-All, All-zip, All-map, arith,
  eq_iff, if_intro, Bool-cases, inl, inr,
}
use openclaw_enterprise_plug.Common.Dict.{get-set, get-delete}
use openclaw_enterprise_plug.Reliability.CascadeKill.{
  Stage, signal, abort, kill, Callbacks, Timer, Manager, is_held, clear_timers, schedule,
}

abbrev pub IsOther : String → Timer → Type 0
IsOther task_id t = t.task_id ≢ task_id

abbrev pub OnePerTask : List Timer → Type 0
OnePerTask [] = Unit
OnePerTask (t ∷ ts) = All (IsOther t.task_id) ts × OnePerTask ts

abbrev pub IsHeld : Manager → Timer → Type 0
IsHeld m t = is_held m t.task_id t ≡ true

abbrev pub IsSound : Manager → Type 0
IsSound m = All (IsHeld m) m.timers × OnePerTask m.timers

pub filter-OnePerTask :
    (p : Timer → Bool) (ts : List Timer) → OnePerTask ts → OnePerTask (filter p ts)
filter-OnePerTask p [] h = h
filter-OnePerTask p (t ∷ ts) h = elim (Bool-cases (p t)) [
  | inl e ↦ rw e (All-filter (IsOther t.task_id) p ts h.0, filter-OnePerTask p ts h.1)
  | inr e ↦ rw e (filter-OnePerTask p ts h.1)
]

pub append-OnePerTask :
    (ts : List Timer) (t : Timer)
    → OnePerTask ts
    → All (IsOther t.task_id) ts
    → OnePerTask (ts ++ t ∷ [])
append-OnePerTask [] t h o = (tt, tt)
append-OnePerTask (x ∷ ts) t h o = (
  All-append (IsOther x.task_id) ts (t ∷ []) h.0 ((λ e. o.0 (sym e)), tt),
  append-OnePerTask ts t h.1 o.1,
)

-- What holds of all holds of the one found.
some_inj : {s t : Timer} → some s ≡ some t → s ≡ t
some_inj h = cc

All-find :
    (P : Timer → Type 0) (p : Timer → Bool) (ts : List Timer) (t : Timer)
    → All P ts
    → find p ts ≡ some t
    → P t
All-find P p [] t h e = cc
All-find P p (x ∷ ts) t h e = elim (Bool-cases (p x)) [
  | inl y ↦ subst P (some_inj (sym (ap (λ b. if b then some x else find p ts) y) ∙ e)) h.0
  | inr n ↦ All-find P p ts t h.1 (sym (ap (λ b. if b then some x else find p ts) n) ∙ e)
]

-- Without the timer found, there is none of its task.
pub others_left :
    (p : Timer → Bool) (ts : List Timer) (t : Timer)
    → OnePerTask ts
    → find p ts ≡ some t
    → All (IsOther t.task_id) (filter (λ u. not (u.handle == t.handle)) ts)
others_left p [] t h e = tt
others_left p (x ∷ ts) t h e = elim (Bool-cases (p x)) [
  | inl y ↦
      let same = some_inj (sym (ap (λ b. if b then some x else find p ts) y) ∙ e) in
      subst (λ s. All (IsOther s.task_id) (filter (λ u. not (u.handle == s.handle)) (x ∷ ts))) same
        (if_intro (All (IsOther x.task_id)) (not (x.handle == x.handle))
          (λ q. absurd (ground (arith, q))) (λ q. All-filter (IsOther x.task_id) _ ts h.0))
  | inr n ↦
      let e' = sym (ap (λ b. if b then some x else find p ts) n) ∙ e in
      let other = All-find (IsOther x.task_id) p ts t h.0 e' in
      let rest = others_left p ts t h.1 e' in
      if_intro (All (IsOther t.task_id)) (not (x.handle == t.handle))
        (λ q. ((λ s. other (sym s)), rest)) (λ q. rest)
]

-- A timer that is left when those of a task are cleared is of another task, and still held.
cleared :
    (k : String) (m : Manager) (t : Timer)
    → not (is_held m k t) ≡ true
    → IsHeld m t
    → IsOther k t × IsHeld (clear_timers k m) t
unfolding clear_timers
cleared k m t n h =
    let other : IsOther k t =
      λ e. (let h' = subst (λ j. is_held m j t ≡ true) e h in ground (arith, n, h')) in
    (
      other,
      ground (
        arith,
        h,
        other,
        eq_iff k t.task_id,
        get-delete m.signal_timers k t.task_id,
        get-delete m.abort_timers k t.task_id,
        get-delete m.kill_timers k t.task_id,
      ),
    )

clear_timers-cleared :
    (k : String) (m : Manager)
    → IsSound m
    → All (λ t. IsOther k t × IsHeld (clear_timers k m) t) (clear_timers k m).timers
unfolding clear_timers
clear_timers-cleared k m h =
    let p : Timer → Bool = λ t. not (is_held m k t) in
    All-map (λ t. (p t ≡ true) × IsHeld m t) _ (filter p m.timers) (λ t q. cleared k m t q.0 q.1)
      (All-zip (λ t. p t ≡ true) (IsHeld m) (filter p m.timers) (filter-All p m.timers)
        (All-filter (IsHeld m) p m.timers h.0))

pub clear_timers-IsSound : (k : String) (m : Manager) → IsSound m → IsSound (clear_timers k m)
unfolding clear_timers
clear_timers-IsSound k m h = (
  All-map _ (IsHeld (clear_timers k m)) (clear_timers k m).timers (λ t q. q.1)
      (clear_timers-cleared k m h),
  filter-OnePerTask (λ t. not (is_held m k t)) m.timers h.1,
)

pub clear_timers-IsOther :
    (k : String) (m : Manager) → IsSound m → All (IsOther k) (clear_timers k m).timers
clear_timers-IsOther k m h =
    All-map _ (IsOther k) (clear_timers k m).timers (λ t q. q.0) (clear_timers-cleared k m h)

-- Scheduling for a task holds the new timer, and those of other tasks as before.
pub schedule-IsHeld :
    (now : ℕ) (s : Stage) (k : String) (cb : Callbacks) (m : Manager) (t : Timer)
    → IsOther k t
    → IsHeld m t
    → IsHeld (schedule now s k cb m) t
unfolding schedule
schedule-IsHeld now signal k cb m t o h =
    ground (arith, h, o, eq_iff k t.task_id, get-set m.signal_timers k m.next_handle t.task_id)
schedule-IsHeld now abort k cb m t o h =
    ground (arith, h, o, eq_iff k t.task_id, get-set m.abort_timers k m.next_handle t.task_id)
schedule-IsHeld now kill k cb m t o h =
    ground (arith, h, o, eq_iff k t.task_id, get-set m.kill_timers k m.next_handle t.task_id)
