-- ===== src/Kernel/Queue/Tests.antt =====
-- Runs of the memory queue at concrete inputs.
use openclaw_enterprise_plug.Common.{
  ℕ, ◌≡◌, refl, false, none, some, List, [], ◌∷◌, arith, All, get_elem?, set_at, eq_iff,
}
use openclaw_enterprise_plug.Kernel.Queue.{
  InternalMessage, NewMessage, EnqueueOptions, Queue, high, normal, pending, dead_letter, is_ready,
  taken, to_public_message, enqueue, dequeue, purge,
}
use openclaw_enterprise_plug.Kernel.Queue.Delivery.{
  IsNext, dequeue-IsNext, dequeue_nothing, dequeues, dequeues_keep,
}
use openclaw_enterprise_plug.Kernel.Queue.Invariant.{
  IsValid, Operation, enqueuing, dequeuing, acking, nacking, purging, replaying, perform_all,
  perform_all-IsValid,
}
use openclaw_enterprise_plug.Kernel.Queue.Retries.{enqueue_again, failed_rounds, failed_rounds-dead}

abbrev news : NewMessage
news = record {
  kind = "mail";
  payload = "hello";
  priority = none;
  scheduled_at = none;
  max_attempts = some 2;
  metadata = none;
}

abbrev plain : EnqueueOptions
plain = record { priority = none; delay = none; idempotency_key = none; max_attempts = none }

abbrev keyed : EnqueueOptions
keyed = record plain { idempotency_key = some "k1" }

abbrev mail : InternalMessage
mail = record {
  id = "a";
  tenant_id = "t1";
  kind = "mail";
  payload = "hello";
  priority = normal;
  idempotency_key = none;
  scheduled_at = none;
  attempts = 0;
  max_attempts = 2;
  created_at = 10;
  metadata = none;
  state = pending;
  visible_after = 10;
  processing_deadline = none;
}

abbrev urgent : InternalMessage
urgent = record mail { id = "b"; priority = high; created_at = 12; visible_after = 12 }

abbrev later : InternalMessage
later = record mail { id = "c"; created_at = 11; visible_after = 500 }

abbrev three : Queue
three = mail ∷ urgent ∷ later ∷ []

enqueues : enqueue "a" 10 "t1" news plain [] ≡ (mail ∷ [], "a")
unfolding enqueue
enqueues = refl

-- The urgent message first, then the older one; the delayed one is not visible at 20.
order :
    ((dequeue 20 none three).0 ≡ mail ∷ taken 20 none urgent ∷ later ∷ [])
    × ((dequeue 20 none (dequeue 20 none three).0).1
        ≡ some (to_public_message (taken 20 none mail)))
    × ((dequeue 20 none (later ∷ [])).1 ≡ none)
unfolding dequeue
order = (refl, refl, refl)

empties : purge three ≡ ([], 3)
unfolding purge
empties = refl

dequeue-IsNext_example :
    (i : ℕ) × (m : InternalMessage) × IsNext 20 three i m
    × ((dequeue 20 none three).0 ≡ set_at i (taken 20 none m) three)
    × (to_public_message (taken 20 none urgent) ≡ to_public_message (taken 20 none m))
unfolding dequeue
dequeue-IsNext_example = dequeue-IsNext 20 none three refl

dequeue_nothing_run :
    All (λ m. is_ready 20 m ≡ false) (later ∷ []) × ((dequeue 20 none (later ∷ [])).0 ≡ later ∷ [])
unfolding dequeue
dequeue_nothing_run = dequeue_nothing 20 none (later ∷ []) refl

abbrev busy : Queue
busy = mail ∷ taken 20 none urgent ∷ []

-- The deadline of `urgent` is 30020.
dequeues_keep_example :
    get_elem? (dequeues (40000 ∷ 50000 ∷ []) busy) 1 ≡ some (taken 20 none urgent)
dequeues_keep_example = dequeues_keep (40000 ∷ 50000 ∷ []) 1 busy (taken 20 none urgent) refl refl

abbrev operations : List Operation
operations =
    enqueuing "a" 10 "t1" news plain
    ∷ enqueuing "b" 11 "t1" news keyed
    ∷ dequeuing 20 none
    ∷ nacking "a" 21 (some 5)
    ∷ dequeuing 30 none
    ∷ nacking "a" 31 none
    ∷ replaying "a" 40
    ∷ acking "b"
    ∷ purging
    ∷ []

perform_all-IsValid_example : All IsValid (perform_all operations [])
perform_all-IsValid_example = perform_all-IsValid operations (omega arith)

enqueue_again_run :
    enqueue "z" 99 "t2" news keyed (enqueue "a" 10 "t1" news keyed three).0
    ≡ ((enqueue "a" 10 "t1" news keyed three).0, (enqueue "a" 10 "t1" news keyed three).1)
enqueue_again_run =
    enqueue_again "a" "z" 10 99 "t1" "t2" news news keyed keyed "k1" three refl refl
      (ground (arith, eq_iff "k1" ""))

failed_rounds-dead_run :
    (m : InternalMessage) × (failed_rounds ((10, 15) ∷ (1015, 1020) ∷ []) (mail ∷ []) ≡ m ∷ [])
    × (m.state ≡ dead_letter)
    × (m.id ≡ "a")
    × (m.attempts ≡ 2)
failed_rounds-dead_run = failed_rounds-dead 10 15 ((1015, 1020) ∷ []) mail refl (omega arith) refl
