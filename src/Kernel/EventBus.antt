-- ===== src/Kernel/EventBus.antt =====
-- src/kernel/event-bus.ts and src/kernel-impl/memory/event-bus.ts. What a handler of another module
-- does is not in the source: it is a parameter, which may change the bus and may throw, and of which
-- only the part that runs before its first wait counts. A subscription is known by a number, as are promises.
pub mod Pattern
mod Glob
mod Laws
mod Settled
mod Tests
use openclaw_enterprise_plug.Common.{
  ℕ, suc, String, Bool, true, false, ◌&&◌, not, Option, none, some, List, [], ◌∷◌, ◌++◌, map,
  filter, ◌==◌, if◌then◌else◌, find, update_first,
}
use openclaw_enterprise_plug.Common.Dict.{Dict}
use openclaw_enterprise_plug.Kernel.EventBus.Pattern.{Regex, glob_to_regex, test}

pub record PlatformEvent (D : Type 0) : Type 0 where
  pub id : String
  pub kind : String
  pub tenant_id : String
  pub source : String
  pub timestamp : ℕ
  pub data_of : D
  pub metadata : Option (Dict String)

-- A handler of another module, or the one that `once` makes for the promise.
pub data Handler : Type 0 where
  other settling : ℕ → Handler

pub record Subscriber : Type 0 where
  pub id : ℕ
  pub pattern : String
  pub regex : Regex
  pub handler : Handler
  pub active : Bool

pub data Outcome (D : Type 0) : Type 0 where
  pending : Outcome D
  resolved : PlatformEvent D → Outcome D
  timed_out bad_pattern : Outcome D

-- The promise of `once` with its timer; `sub` is missing where `subscribe` threw.
pub record Once (D : Type 0) : Type 0 where
  pub id : ℕ
  pub sub : Option ℕ
  pub has_timer : Bool
  pub outcome : Outcome D

pub record EventBus (D : Type 0) : Type 0 where
  pub subscribers : List Subscriber
  pub next_id : ℕ
  pub promises : List (Once D)
  pub uncaught : ℕ

module _ {D : Type 0} where
  unfoldable pub new_bus : EventBus D
  new_bus = record { subscribers = []; next_id = 0; promises = []; uncaught = 0 }

  unfoldable pub shutdown : EventBus D → EventBus D
  shutdown b = record b { subscribers = [] }

  -- `none`: the pattern is no regular expression, and `subscribe` throws.
  unfoldable pub subscribe : String → Handler → EventBus D → Option (EventBus D × ℕ)
  subscribe pattern handler b = elim (glob_to_regex pattern) [
    | none ↦ none
    | some regex ↦ some (
      record b {
        subscribers =
            b.subscribers
            ++ record {
              id = b.next_id;
              pattern = pattern;
              regex = regex;
              handler = handler;
              active = true;
            }
              ∷ [];
        next_id = suc b.next_id;
      },
      b.next_id,
    )
  ]

  -- The subscriber leaves the list, so that `active` is never read again.
  unfoldable pub unsubscribe : ℕ → EventBus D → EventBus D
  unsubscribe id b = record b { subscribers = filter (λ s. not (s.id == id)) b.subscribers }

  abbrev pub settle : Outcome D → Outcome D → Outcome D
  settle o pending = o
  settle o (resolved e) = resolved e
  settle o timed_out = timed_out
  settle o bad_pattern = bad_pattern

  abbrev pub settle_once : Outcome D → Once D → Once D
  settle_once o p = record p { outcome = settle o p.outcome; has_timer = false }

  -- The promise with the number changes.
  abbrev pub change_once : ℕ → (Once D → Once D) → List (Once D) → List (Once D)
  change_once id = update_first (λ p. p.id == id)

  -- Its promise has the number that is next, and its subscription the one after.
  unfoldable pub once : String → EventBus D → EventBus D × ℕ
  unfolding subscribe
  once pattern b =
      let id = b.next_id in
      let b' = record b { next_id = suc id } in
      elim (subscribe pattern (settling id) b') [
        | none ↦ (
          record b' {
            promises =
                b'.promises
                ++ record { id = id; sub = none; has_timer = true; outcome = bad_pattern } ∷ [];
          },
          id,
        )
        | some (b'', sub) ↦ (
          record b'' {
            promises =
                b''.promises
                ++ record { id = id; sub = some sub; has_timer = true; outcome = pending } ∷ [];
          },
          id,
        )
      ]

  -- The handler of `once`, called for a subscription.
  unfoldable pub settle_event : ℕ → ℕ → PlatformEvent D → EventBus D → EventBus D
  unfolding unsubscribe
  settle_event id sub e b =
      let b' = unsubscribe sub b in
      record b' { promises = change_once id (settle_once (resolved e)) b'.promises }

  -- The timer fires. Where `subscribe` threw, its callback reads `sub` before it has a value, and
  -- throws, with nobody to catch.
  abbrev pub fired : ℕ → Option ℕ → EventBus D → EventBus D
  fired id none b = record b {
    promises = change_once id (λ p. record p { has_timer = false }) b.promises;
    uncaught = suc b.uncaught;
  }
  fired id (some sub) b =
      let b' = unsubscribe sub b in
      record b' { promises = change_once id (settle_once timed_out) b'.promises }

  abbrev pub fired_if : ℕ → Option (Once D) → EventBus D → EventBus D
  fired_if id none b = b
  fired_if id (some p) b = if p.has_timer then fired id p.sub b else b

  unfoldable pub timer_fires : ℕ → EventBus D → EventBus D
  unfolding unsubscribe
  timer_fires id b = fired_if id (find (λ p. p.id == id) b.promises) b

  abbrev pub is_called : PlatformEvent D → Subscriber → Bool
  is_called e s = s.active && test s.regex e.kind

  module _ (handle : ℕ → PlatformEvent D → EventBus D → EventBus D × Bool) where
    -- With whether the handler threw, not in a promise but at once.
    abbrev pub call : PlatformEvent D → Handler → ℕ → EventBus D → EventBus D × Bool
    call e (other n) sub b = handle n e b
    call e (settling id) sub b = (settle_event id sub e b, false)

    -- `active.map(...)`, which ends where a handler throws at once; with the subscriptions whose
    -- handlers were called, in the order of the calls, and whether one threw.
    abbrev pub call_all :
        PlatformEvent D → List Subscriber → EventBus D → EventBus D × List ℕ × Bool
    call_all e [] b = (b, [], false)
    call_all e (s ∷ ss) b =
        let (b', threw) = call e s.handler s.id b in
        let (b'', ids, threw') = call_all e ss b' in
        if threw then (b', s.id ∷ [], true) else (b'', s.id ∷ ids, threw')

    -- The promise that `publish` answers is rejected where a handler threw at once.
    unfoldable pub publish : PlatformEvent D → EventBus D → EventBus D × List ℕ × Bool
    unfolding test settle_event
    publish e b = call_all e (filter (is_called e) b.subscribers) b

    -- With whether it was rejected.
    unfoldable pub publish_batch : List (PlatformEvent D) → EventBus D → EventBus D × Bool
    unfolding publish
    publish_batch [] b = (b, false)
    publish_batch (e ∷ es) b =
        let (b', ids, threw) = publish e b in
        let rest = publish_batch es b' in if threw then (b', true) else rest
