-- ===== src/Reliability/CascadeKill.antt =====
-- src/reliability/timeout/cascade-kill.ts. A callback is a number; what it does with the manager, and
-- whether it throws, is a parameter. The timers that run are a list, each with the time at which it is due; a timer that
-- fires is chosen by its handle, and the time of its firing is an argument.
mod Chain
mod Runs
mod Tests
use openclaw_enterprise_plug.Common.{
  ℕ, suc, ◌+◌, String, Bool, true, false, not, Option, none, some, List, [], ◌∷◌, ◌++◌, filter,
  find, ◌==◌, if◌then◌else◌,
}
use openclaw_enterprise_plug.Common.Dict
use openclaw_enterprise_plug.Common.Dict.{Dict}

pub data Stage : Type 0 where
  signal abort kill : Stage

pub record Callbacks : Type 0 where
  pub on_signal : ℕ
  pub on_abort : ℕ
  pub on_kill : ℕ

pub record Config : Type 0 where
  pub signal_delay_ms : ℕ
  pub abort_delay_ms : ℕ
  pub kill_delay_ms : ℕ

-- A timer that runs, with what its closure holds.
pub record Timer : Type 0 where
  pub handle : ℕ
  pub due : ℕ
  pub stage : Stage
  pub task_id : String
  pub callbacks : Callbacks

-- A callback that was called, and when.
pub record Called : Type 0 where
  pub callback : ℕ
  pub at_time : ℕ

pub record Manager : Type 0 where
  pub config : Config
  pub callbacks : Dict Callbacks
  pub signal_timers : Dict ℕ
  pub abort_timers : Dict ℕ
  pub kill_timers : Dict ℕ
  pub timers : List Timer
  pub next_handle : ℕ
  pub called : List Called

unfoldable pub new_manager : Config → Manager
new_manager config = record {
  config = config;
  callbacks = [];
  signal_timers = [];
  abort_timers = [];
  kill_timers = [];
  timers = [];
  next_handle = 0;
  called = [];
}

abbrev pub is_handle : Option ℕ → ℕ → Bool
is_handle none h = false
is_handle (some j) h = j == h

-- The timer is one of those that the maps hold for the task.
abbrev pub is_held : Manager → String → Timer → Bool
is_held m task_id t =
    if is_handle (Dict.get m.signal_timers task_id) t.handle
    then true
    else if is_handle (Dict.get m.abort_timers task_id) t.handle
    then true
    else is_handle (Dict.get m.kill_timers task_id) t.handle

unfoldable pub clear_timers : String → Manager → Manager
clear_timers task_id m = record m {
  timers = filter (λ t. not (is_held m task_id t)) m.timers;
  signal_timers = Dict.delete m.signal_timers task_id;
  abort_timers = Dict.delete m.abort_timers task_id;
  kill_timers = Dict.delete m.kill_timers task_id;
}

unfoldable pub register : String → Callbacks → Manager → Manager
register task_id cb m = record m { callbacks = Dict.set m.callbacks task_id cb }

-- The method of the handle that `register` returns.
unfoldable pub cancel : String → Manager → Manager
unfolding clear_timers
cancel task_id m =
    let n = clear_timers task_id m in record n { callbacks = Dict.delete n.callbacks task_id }

abbrev pub delay : Stage → Config → ℕ
delay signal c = c.signal_delay_ms
delay abort c = c.abort_delay_ms
delay kill c = c.kill_delay_ms

-- `this.<stage>Timers.set(taskId, timer)`
abbrev pub hold : Stage → String → ℕ → Manager → Manager
hold signal task_id h m = record m { signal_timers = Dict.set m.signal_timers task_id h }
hold abort task_id h m = record m { abort_timers = Dict.set m.abort_timers task_id h }
hold kill task_id h m = record m { kill_timers = Dict.set m.kill_timers task_id h }

unfoldable pub schedule : ℕ → Stage → String → Callbacks → Manager → Manager
schedule now stage task_id cb m =
    let h = m.next_handle in
    let t : Timer = record {
      handle = h;
      due = now + delay stage m.config;
      stage = stage;
      task_id = task_id;
      callbacks = cb;
    } in
    hold stage task_id h (record m { timers = m.timers ++ t ∷ []; next_handle = suc h })

abbrev pub triggered : ℕ → String → Option Callbacks → Manager → Manager
triggered now task_id none m = m
triggered now task_id (some cb) m = schedule now signal task_id cb (clear_timers task_id m)

unfoldable pub trigger : ℕ → String → Manager → Manager
unfolding schedule clear_timers
trigger now task_id m = triggered now task_id (Dict.get m.callbacks task_id) m

-- What a callback may do with the manager.
pub data Use : Type 0 where
  registers : String → Callbacks → Use
  cancels triggers : String → Use

abbrev pub perform_use : ℕ → Use → Manager → Manager
perform_use now (registers task_id cb) m = register task_id cb m
perform_use now (cancels task_id) m = cancel task_id m
perform_use now (triggers task_id) m = trigger now task_id m

abbrev pub perform_uses : ℕ → List Use → Manager → Manager
perform_uses now [] m = m
perform_uses now (u ∷ us) m = perform_uses now us (perform_use now u m)

-- `script` says what each callback does with the manager, in order, and whether it throws then.
module _ (script : ℕ → List Use × Bool) where
  abbrev pub call : ℕ → ℕ → Manager → Manager
  call now callback m =
      perform_uses now (script callback).0
        (record m { called = m.called ++ record { callback = callback; at_time = now } ∷ [] })

  -- The three closures. What follows a callback that throws is not run.
  abbrev pub run_stage : ℕ → Stage → Timer → Manager → Manager
  run_stage now signal t m =
      let n = call now t.callbacks.on_signal m in
      if (script t.callbacks.on_signal).1 then n else schedule now abort t.task_id t.callbacks n
  run_stage now abort t m =
      let n = call now t.callbacks.on_abort m in
      if (script t.callbacks.on_abort).1 then n else schedule now kill t.task_id t.callbacks n
  run_stage now kill t m =
      let n = call now t.callbacks.on_kill m in
      let c = clear_timers t.task_id n in
      if (script t.callbacks.on_kill).1
      then n
      else record c { callbacks = Dict.delete c.callbacks t.task_id }

  abbrev pub fired : ℕ → Option Timer → Manager → Manager
  fired now none m = m
  fired now (some t) m =
      run_stage now t.stage t
        (record m { timers = filter (λ u. not (u.handle == t.handle)) m.timers })

  unfoldable pub fire : ℕ → ℕ → Manager → Manager
  unfolding schedule clear_timers register cancel trigger
  fire now handle m = fired now (find (λ t. t.handle == handle) m.timers) m
