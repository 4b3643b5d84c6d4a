-- ===== src/Reliability/CascadeKill/Runs.antt =====
-- What holds of the manager after any operations.
use openclaw_enterprise_plug.Common.{
  ℕ, ◌+◌, String, ◌≡◌, refl, sym, ap, subst, Bool, true, false, if_intro, not, Option, none, some,
  List, [], ◌∷◌, ◌++◌, filter, find, ◌==◌, All, All-append, All-filter, All-zip, All-map, arith,
  eq_iff,
}
use openclaw_enterprise_plug.Common.Dict
use openclaw_enterprise_plug.Common.Dict.{Dict, get-set, get-delete}
use openclaw_enterprise_plug.Reliability.CascadeKill.{
  Stage, signal, abort, kill, Callbacks, Config, Timer, Manager, new_manager, clear_timers,
  register, cancel, delay, schedule, triggered, trigger, is_held, Use, registers, cancels, triggers,
  perform_uses, call, run_stage, fired, fire,
}
use openclaw_enterprise_plug.Reliability.CascadeKill.Chain.{
  IsOther, OnePerTask, IsHeld, IsSound, filter-OnePerTask, append-OnePerTask, others_left,
  clear_timers-IsSound, clear_timers-IsOther, schedule-IsHeld,
}

abbrev new_timer : ℕ → Stage → String → Callbacks → Manager → Timer
new_timer now s k cb m = record {
  handle = m.next_handle;
  due = now + delay s m.config;
  stage = s;
  task_id = k;
  callbacks = cb;
}

schedule-timers :
    (now : ℕ) (s : Stage) (k : String) (cb : Callbacks) (m : Manager)
    → (schedule now s k cb m).timers ≡ m.timers ++ new_timer now s k cb m ∷ []
unfolding schedule
schedule-timers now signal k cb m = refl
schedule-timers now abort k cb m = refl
schedule-timers now kill k cb m = refl

new_timer-IsHeld :
    (now : ℕ) (s : Stage) (k : String) (cb : Callbacks) (m : Manager)
    → IsHeld (schedule now s k cb m) (new_timer now s k cb m)
unfolding schedule
new_timer-IsHeld now signal k cb m =
    ground (arith, eq_iff k k, get-set m.signal_timers k m.next_handle k)
new_timer-IsHeld now abort k cb m =
    ground (arith, eq_iff k k, get-set m.abort_timers k m.next_handle k)
new_timer-IsHeld now kill k cb m =
    ground (arith, eq_iff k k, get-set m.kill_timers k m.next_handle k)

schedule-IsSound :
    (now : ℕ) (s : Stage) (k : String) (cb : Callbacks) (m : Manager)
    → IsSound m
    → All (IsOther k) m.timers
    → IsSound (schedule now s k cb m)
schedule-IsSound now s k cb m h o =
    let n = schedule now s k cb m in
    let t = new_timer now s k cb m in
    subst (λ l. All (IsHeld n) l × OnePerTask l) (sym (schedule-timers now s k cb m))
      (
        All-append (IsHeld n) m.timers (t ∷ [])
            (All-map (λ u. IsOther k u × IsHeld m u) (IsHeld n) m.timers
              (λ u q. schedule-IsHeld now s k cb m u q.0 q.1)
              (All-zip (IsOther k) (IsHeld m) m.timers o h.0))
            (new_timer-IsHeld now s k cb m, tt),
        append-OnePerTask m.timers t h.1 o,
      )

triggered-IsSound :
    (now : ℕ) (k : String) (o : Option Callbacks) (m : Manager)
    → IsSound m
    → IsSound (triggered now k o m)
triggered-IsSound now k none m h = h
triggered-IsSound now k (some cb) m h =
    schedule-IsSound now signal k cb (clear_timers k m) (clear_timers-IsSound k m h)
      (clear_timers-IsOther k m h)

-- The callback does not trigger a cascade.
abbrev pub is_trigger : Use → Bool
is_trigger (registers k cb) = false
is_trigger (cancels k) = false
is_trigger (triggers k) = true

-- A sound manager in which no timer of the task runs.
IsFree : String → Manager → Type 0
IsFree k m = IsSound m × All (IsOther k) m.timers

cancel-IsFree : (k j : String) (m : Manager) → IsFree k m → IsFree k (cancel j m)
unfolding IsFree cancel clear_timers
cancel-IsFree k j m h =
    (clear_timers-IsSound j m h.0, All-filter (IsOther k) (λ t. not (is_held m j t)) m.timers h.1)

perform_uses-IsFree :
    (now : ℕ) (us : List Use) (k : String) (m : Manager)
    → All (λ u. is_trigger u ≡ false) us
    → IsFree k m
    → IsFree k (perform_uses now us m)
unfolding IsFree register
perform_uses-IsFree now [] k m q h = h
perform_uses-IsFree now (registers j cb ∷ us) k m q h =
    perform_uses-IsFree now us k (register j cb m) q.1 h
perform_uses-IsFree now (cancels j ∷ us) k m q h =
    perform_uses-IsFree now us k (cancel j m) q.1 (cancel-IsFree k j m h)
perform_uses-IsFree now (triggers j ∷ us) k m q h = absurd (ground (arith, q.0))

pub data Action : Type 0 where
  registering : String → Callbacks → Action
  cancelling : String → Action
  triggering : ℕ → String → Action
  firing : ℕ → ℕ → Action

module _ (script : ℕ → List Use × Bool) where
  abbrev pub perform : Action → Manager → Manager
  perform (registering k cb) m = register k cb m
  perform (cancelling k) m = cancel k m
  perform (triggering now k) m = trigger now k m
  perform (firing now handle) m = fire script now handle m

  abbrev pub perform_all : List Action → Manager → Manager
  perform_all [] m = m
  perform_all (a ∷ l) m = perform_all l (perform a m)

module _ (script : ℕ → List Use × Bool)
    (calm : (c : ℕ) → All (λ u. is_trigger u ≡ false) (script c).0) where
  call-IsFree : (now c : ℕ) (k : String) (m : Manager) → IsFree k m → IsFree k (call script now c m)
  unfolding IsFree
  call-IsFree now c k m h =
      perform_uses-IsFree now (script c).0 k
        (record m { called = m.called ++ record { callback = c; at_time = now } ∷ [] }) (calm c) h

  run_stage-IsSound :
      (now : ℕ) (s : Stage) (t : Timer) (m : Manager)
      → IsFree t.task_id m
      → IsSound (run_stage script now s t m)
  unfolding IsFree
  run_stage-IsSound now signal t m h =
      let c = call-IsFree now t.callbacks.on_signal t.task_id m h in
      if_intro IsSound (script t.callbacks.on_signal).1 (λ _. c.0)
        (λ _. schedule-IsSound now abort t.task_id t.callbacks _ c.0 c.1)
  run_stage-IsSound now abort t m h =
      let c = call-IsFree now t.callbacks.on_abort t.task_id m h in
      if_intro IsSound (script t.callbacks.on_abort).1 (λ _. c.0)
        (λ _. schedule-IsSound now kill t.task_id t.callbacks _ c.0 c.1)
  run_stage-IsSound now kill t m h =
      let c = call-IsFree now t.callbacks.on_kill t.task_id m h in
      if_intro IsSound (script t.callbacks.on_kill).1 (λ _. c.0)
        (λ _. clear_timers-IsSound t.task_id (call script now t.callbacks.on_kill m) c.0)

  fired-IsSound :
      (now handle : ℕ) (o : Option Timer) (m : Manager)
      → IsSound m
      → find (λ t. t.handle == handle) m.timers ≡ o
      → IsSound (fired script now o m)
  unfolding IsFree
  fired-IsSound now handle none m h e = h
  fired-IsSound now handle (some t) m h e =
      let p : Timer → Bool = λ u. not (u.handle == t.handle) in
      run_stage-IsSound now t.stage t (record m { timers = filter p m.timers })
        (
          (All-filter (IsHeld m) p m.timers h.0, filter-OnePerTask p m.timers h.1),
          others_left (λ u. u.handle == handle) m.timers t h.1 e,
        )

  perform-IsSound : (a : Action) (m : Manager) → IsSound m → IsSound (perform script a m)
  unfolding register cancel trigger fire
  perform-IsSound (registering k cb) m h = h
  perform-IsSound (cancelling k) m h = clear_timers-IsSound k m h
  perform-IsSound (triggering now k) m h = triggered-IsSound now k (Dict.get m.callbacks k) m h
  perform-IsSound (firing now handle) m h =
      fired-IsSound now handle (find (λ t. t.handle == handle) m.timers) m h refl

  perform_all-IsSound :
      (l : List Action) (m : Manager) → IsSound m → IsSound (perform_all script l m)
  perform_all-IsSound [] m h = h
  perform_all-IsSound (a ∷ l) m h =
      perform_all-IsSound l (perform script a m) (perform-IsSound a m h)

  -- If no callback triggers a cascade, whatever else the callbacks do with the manager (they may
  -- register and cancel tasks, and throw): after any operations on a new manager and any timers that
  -- fired, no task has two timers that run, so that its signal, abort and kill come one after the
  -- other; and right after a cancellation that no callback made, no timer of the task runs and its
  -- callbacks are forgotten, so that a trigger of it does nothing then.
  pub cancel-disarms :
      (l : List Action) (config : Config) (k : String) (now : ℕ)
      → let m = perform_all script l (new_manager config) in
        OnePerTask m.timers
        × All (IsOther k) (cancel k m).timers
        × (trigger now k (cancel k m) ≡ cancel k m)
  unfolding new_manager cancel trigger clear_timers
  cancel-disarms l config k now =
      let m = perform_all script l (new_manager config) in
      let h = perform_all-IsSound l (new_manager config) (tt, tt) in
      let gone : Dict.get (Dict.delete m.callbacks k) k ≡ none =
        ground (arith, get-delete m.callbacks k k, eq_iff k k) in
      (h.1, clear_timers-IsOther k m h, ap (λ o. triggered now k o (cancel k m)) gone)
