-- ===== src/Kernel/EventBus/Tests.antt =====
-- The event bus at concrete inputs.
use openclaw_enterprise_plug.Common.{
  ℕ, String, ◌≡◌, ◌≢◌, refl, ◌↔◌, Bool, All, true, false, none, some, [], ◌∷◌, if◌then◌else◌, ◌==◌,
  ◌&&◌,
}
use openclaw_enterprise_plug.Kernel.EventBus.Pattern.{
  Regex, line, atoms, glob_to_regex, test, maybe,
}
use openclaw_enterprise_plug.Kernel.EventBus.Glob.{Glob, glob_to_regex-Glob}
use openclaw_enterprise_plug.Kernel.EventBus.Laws.{calls, unsubscribe-publish, subscribe-publish}
use openclaw_enterprise_plug.Kernel.EventBus.Settled.{
  Continues-refl, promise, IsSettled, once-publish,
}
use openclaw_enterprise_plug.Kernel.EventBus.{
  PlatformEvent, EventBus, other, Subscriber, subscribe, timer_fires, unsubscribe, once, publish,
}

abbrev event : String → PlatformEvent ℕ
event kind = record {
  id = "e1";
  kind = kind;
  tenant_id = "acme";
  source = "tasks";
  timestamp = 5;
  data_of = 7;
  metadata = none;
}

abbrev quiet : ℕ → PlatformEvent ℕ → EventBus ℕ → EventBus ℕ × Bool
quiet n e b = (b, false)

abbrev calm : (n : ℕ) (e : PlatformEvent ℕ) (b : EventBus ℕ) → (quiet n e b).1 ≡ false
calm n e b = refl

abbrev subscriber : ℕ → Subscriber
subscriber id = record { id = id; pattern = "*"; regex = line; handler = other id; active = true }

abbrev empty_bus : EventBus ℕ
empty_bus = record { subscribers = []; next_id = 0; promises = []; uncaught = 0 }

glob_to_regex-Glob_example :
    (r : Regex) × (glob_to_regex "task.*" ≡ some r)
    × ((test r "task.done" ≡ true) ↔ Glob "task.*" "task.done")
glob_to_regex-Glob_example =
    glob_to_regex-Glob "task.*" "task.done" (refl, (refl, (refl, (refl, (refl, (refl, tt))))))
      (λ h. cc)

-- A `?` is not an ordinary character: the pattern `a?` accepts the empty type.
question_run :
    (r : Regex) × (glob_to_regex "a?" ≡ some r) × (test r "" ≡ true) × (test r "a?" ≡ false)
unfolding glob_to_regex test
question_run = (atoms (maybe "a" ∷ []), refl, refl, refl)

-- Both subscriptions are called, and after the end of the first only the second.
abbrev two_subscribers : EventBus ℕ
two_subscribers = record empty_bus { subscribers = subscriber 0 ∷ subscriber 1 ∷ []; next_id = 2 }

unsubscribe-publish_run :
    calls 0 (publish quiet (event "task.done") (unsubscribe 0 two_subscribers)).1
    ≡ (if 0 == 0 then false else calls 0 (publish quiet (event "task.done") two_subscribers).1)
unsubscribe-publish_run = unsubscribe-publish quiet calm 0 0 (event "task.done") two_subscribers

subscribe-publish_run :
    (b' : EventBus ℕ) × (subscribe "a?" (other 3) two_subscribers ≡ some (b', 2))
    × ((i : ℕ)
        → calls i (publish quiet (event "a") b').1 ≡ (
            if calls i (publish quiet (event "a") two_subscribers).1
            then true
            else 2 == i && test (atoms (maybe "a" ∷ [])) "a"))
unfolding glob_to_regex
subscribe-publish_run =
    subscribe-publish quiet calm "a?" (other 3) (event "a") two_subscribers (atoms (maybe "a" ∷ []))
      refl

once-publish_example :
    let b' = (publish quiet (event "a") (once "a?" two_subscribers).0).0 in
    IsSettled (promise 2 b') × All (λ s. s.id ≢ 3) b'.subscribers
unfolding glob_to_regex test
once-publish_example =
    once-publish quiet calm (λ n e b i. Continues-refl (promise i b)) "a?" (event "a")
      two_subscribers (atoms (maybe "a" ∷ [])) refl refl refl

-- A handler that throws at once keeps the later ones from being called, so that the promise waits on.
abbrev throwing : ℕ → PlatformEvent ℕ → EventBus ℕ → EventBus ℕ × Bool
throwing n e b = (b, true)

throwing_run : (publish throwing (event "a") (once "a?" two_subscribers).0).1 ≡ 0 ∷ []
unfolding publish once subscribe glob_to_regex test
throwing_run = refl

-- The pattern `?` is no regular expression, so that the timer of its `once` throws when it fires.
bad_pattern_run : (timer_fires 0 (once "?" empty_bus).0).uncaught ≡ 1
unfolding timer_fires once subscribe glob_to_regex
bad_pattern_run = refl
