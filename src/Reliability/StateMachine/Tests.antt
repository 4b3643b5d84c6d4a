-- ===== src/Reliability/StateMachine/Tests.antt =====
-- Runs of the generic state machine at concrete inputs: a door whose lock has a guard, and an alarm
-- that throws once the door is open.
use openclaw_enterprise_plug.Common.{
  ℕ, ◌+◌, ◌≡◌, refl, ◌⊎◌, true, false, some, [], ◌∷◌, ◌++◌, any, str_eq, ltb,
}
use openclaw_enterprise_plug.Common.Dict
use openclaw_enterprise_plug.Reliability.StateMachine.{
  TransitionDef, Definition, Machine, no_transition, guard_rejected, new_machine, is_terminal,
  can_handle, available_events, send,
}
use openclaw_enterprise_plug.Reliability.StateMachine.History.{
  Edge, entry, send-cases, can_handle-available_events, run, DeclaredChain, run-DeclaredChain,
}

abbrev door : Definition ℕ
door = record {
  initial_state = "shut";
  terminal_states = "open" ∷ [];
  transitions =
      record { from = "shut"; event = "key"; to = "unlocked" }
      ∷ record { from = "unlocked"; event = "push"; to = "open" }
      ∷ [];
  guards = ("shut:key", λ from event code. ltb 2 code) ∷ [];
  actions = ("unlocked:open", λ from to event code. (code + 1, some "alarm")) ∷ [];
}

abbrev wrong : Machine ℕ
wrong = record { state = "shut"; context = 1; history = [] }

wrong_key : send door 5 "key" wrong ≡ (wrong, guard_rejected "shut" "key")
unfolding send Dict.get
wrong_key = refl

abbrev entered : Machine ℕ
entered = run door ((5, "key") ∷ (6, "push") ∷ (7, "push") ∷ []) (record wrong { context = 3 })

ends_open : (entered.state ≡ "open") × (entered.context ≡ 4) × (is_terminal door entered ≡ true)
unfolding run send is_terminal Dict.get
ends_open = (refl, refl, refl)

send-cases_run :
    ((can_handle door "push" wrong ≡ false)
      × (send door 5 "push" wrong
          ≡ (wrong, no_transition "shut" "push" (available_events door wrong))))
    ⊎ (send door 5 "push" wrong ≡ (wrong, guard_rejected "shut" "push"))
    ⊎ ((t : TransitionDef) × Edge door.transitions "shut" "push" t.to
        × ((send door 5 "push" wrong).0.state ≡ t.to)
        × ((send door 5 "push" wrong).0.history ≡ [] ++ entry door 5 "push" wrong t ∷ []))
send-cases_run = send-cases door 5 "push" wrong

can_handle-available_events_run :
    can_handle door "key" wrong ≡ any (λ e. str_eq e "key") (available_events door wrong)
can_handle-available_events_run = can_handle-available_events door "key" wrong

run-DeclaredChain_trace :
    let m = run door ((5, "key") ∷ (6, "push") ∷ []) (new_machine door 3) in
    DeclaredChain door "shut" m.history m.state
run-DeclaredChain_trace = run-DeclaredChain door 3 ((5, "key") ∷ (6, "push") ∷ [])
