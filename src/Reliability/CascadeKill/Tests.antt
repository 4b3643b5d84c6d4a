-- ===== src/Reliability/CascadeKill/Tests.antt =====
-- The cascade of one task, with its delays.
use openclaw_enterprise_plug.Common.{
  ℕ, ◌≡◌, refl, Bool, true, false, if_intro, if◌then◌else◌, ◌==◌, map, List, [], ◌∷◌, All,
}
use openclaw_enterprise_plug.Common.Dict
use openclaw_enterprise_plug.Reliability.CascadeKill.{
  Callbacks, Config, new_manager, register, cancel, trigger, fire, clear_timers, Use, cancels,
  triggers,
}
use openclaw_enterprise_plug.Reliability.CascadeKill.Chain.{OnePerTask, IsOther}
use openclaw_enterprise_plug.Reliability.CascadeKill.Runs.{
  Action, registering, triggering, firing, perform_all, is_trigger, cancel-disarms,
}

abbrev config : Config
config = record { signal_delay_ms = 10; abort_delay_ms = 20; kill_delay_ms = 30 }

abbrev callbacks : Callbacks
callbacks = record { on_signal = 1; on_abort = 2; on_kill = 3 }

abbrev run : List Action
run = registering "t1" callbacks ∷ triggering 0 "t1" ∷ firing 10 0 ∷ firing 30 1 ∷ []

-- The first callback cancels another task, and the second one throws.
abbrev script : ℕ → List Use × Bool
script n = if n == 1 then (cancels "t2" ∷ [], false) else ([], n == 2)

abbrev calm : (c : ℕ) → All (λ u. is_trigger u ≡ false) (script c).0
calm c =
    if_intro (λ (s : List Use × Bool). All (λ u. is_trigger u ≡ false) s.0) (c == 1)
      (λ _. (refl, tt)) (λ _. tt)

cancel-disarms_example :
    let m = perform_all script run (new_manager config) in
    OnePerTask m.timers
    × All (IsOther "t1") (cancel "t1" m).timers
    × (trigger 99 "t1" (cancel "t1" m) ≡ cancel "t1" m)
cancel-disarms_example = cancel-disarms script calm run config "t1" 99

abbrev quiet : ℕ → List Use × Bool
quiet n = ([], false)

cascade_run :
    (perform_all quiet (firing 60 2 ∷ []) (perform_all quiet run (new_manager config))).called
    ≡ record { callback = 1; at_time = 10 }
      ∷ record { callback = 2; at_time = 30 }
      ∷ record { callback = 3; at_time = 60 }
      ∷ []
unfolding new_manager register trigger fire Dict.get Dict.set
cascade_run = refl

-- The abort does not come after a callback of the signal that throws.
abbrev failing : ℕ → List Use × Bool
failing n = ([], true)

thrown_run : (perform_all failing run (new_manager config)).timers ≡ []
unfolding new_manager register trigger fire Dict.get Dict.set
thrown_run = refl

-- A task that is cancelled in its own signal is aborted all the same, and one that is triggered again
-- there has two timers.
abbrev cancelling_itself : ℕ → List Use × Bool
cancelling_itself n = (cancels "t1" ∷ [], false)

abbrev triggering_itself : ℕ → List Use × Bool
triggering_itself n = (triggers "t1" ∷ [], false)

abbrev signalled : List Action
signalled = registering "t1" callbacks ∷ triggering 0 "t1" ∷ firing 10 0 ∷ []

cancelled_run :
    map (λ t. t.due) (perform_all cancelling_itself signalled (new_manager config)).timers ≡ 30 ∷ []
unfolding new_manager register cancel trigger fire clear_timers Dict.get Dict.set Dict.delete
cancelled_run = refl

triggered_run :
    map (λ t. t.due) (perform_all triggering_itself signalled (new_manager config)).timers
    ≡ 20 ∷ 30 ∷ []
unfolding new_manager register trigger fire clear_timers Dict.get Dict.set Dict.delete
triggered_run = refl
