-- ===== src/Reliability/StateMachine.antt =====
-- src/reliability/state-machine/state-machine.ts. States and events are texts, as in the source. An
-- action is taken to end before the next `send`, and returns the context that it leaves behind with
-- the text of the error that it throws, if it throws.
pub mod History
mod Tests
use openclaw_enterprise_plug.Common.{
  ℕ, String, ◌≡◌, Bool, true, false, ◌&&◌, Option, none, some, List, [], ◌∷◌, ◌++◌, map, filter,
  find, any, str_eq, if◌then◌else◌, colon,
}
use openclaw_enterprise_plug.Common.Dict
use openclaw_enterprise_plug.Common.Dict.{Dict}

pub record TransitionDef : Type 0 where
  pub from : String
  pub event : String
  pub to : String

-- A map that is left out is an empty one.
pub record Definition (C : Type 0) : Type 0 where
  pub initial_state : String
  pub terminal_states : List String
  pub transitions : List TransitionDef
  pub guards : Dict (String → String → C → Bool)
  pub actions : Dict (String → String → String → C → C × Option String)

pub record Entry : Type 0 where
  pub from : String
  pub to : String
  pub event : String
  pub timestamp : ℕ

pub record Machine (C : Type 0) : Type 0 where
  pub state : String
  pub context : C
  pub history : List Entry

pub data Sent : Type 0 where
  arrived : String → Sent
  no_transition : String → String → List String → Sent
  guard_rejected : String → String → Sent
  action_threw : String → Sent

abbrev pub fits : String → String → TransitionDef → Bool
fits state event t = str_eq t.from state && str_eq t.event event

module _ {C : Type 0} (d : Definition C) where
  unfoldable pub new_machine : C → Machine C
  new_machine c = record { state = d.initial_state; context = c; history = [] }

  unfoldable pub is_terminal : Machine C → Bool
  is_terminal m = any (λ s. str_eq s m.state) d.terminal_states

  unfoldable pub can_handle : String → Machine C → Bool
  can_handle event m = any (fits m.state event) d.transitions

  unfoldable pub available_events : Machine C → List String
  available_events m = map (λ t. t.event) (filter (λ t. str_eq t.from m.state) d.transitions)

  -- `guard && !guard(...)`, the other way round.
  guard_passes : TransitionDef → String → Machine C → Bool
  guard_passes t event m = elim (Dict.get d.guards (colon t.from t.event)) [
    | none ↦ true
    | some guard ↦ guard m.state event m.context
  ]

  enter : ℕ → String → TransitionDef → Machine C → Machine C
  enter now event t m = record m {
    state = t.to;
    history =
        m.history ++ record { from = m.state; to = t.to; event = event; timestamp = now } ∷ [];
  }

  abbrev ended : String → C × Option String → Machine C → Machine C × Sent
  ended to (c, none) m = (record m { context = c }, arrived to)
  ended to (c, some e) m = (record m { context = c }, action_threw e)

  -- The action of the edge, run on the machine that has already moved.
  act : String → TransitionDef → String → Machine C → Machine C × Sent
  act from t event m = elim (Dict.get d.actions (colon from t.to)) [
    | none ↦ (m, arrived m.state)
    | some action ↦ ended m.state (action from t.to event m.context) m
  ]

  follow : ℕ → String → Machine C → Option TransitionDef → Machine C × Sent
  unfolding guard_passes enter act
  follow now event m none = (m, no_transition m.state event (available_events m))
  follow now event m (some t) =
      if guard_passes t event m
      then act m.state t event (enter now event t m)
      else (m, guard_rejected m.state event)

  unfoldable pub send : ℕ → String → Machine C → Machine C × Sent
  unfolding follow
  send now event m = follow now event m (find (fits m.state event) d.transitions)

-- `serialize`: the context is not part of it.
unfoldable pub serialize : {C : Type 0} → Machine C → String × List Entry
serialize m = (m.state, m.history)
