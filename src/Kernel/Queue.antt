-- ===== src/Kernel/Queue.antt =====
-- src/kernel-impl/memory/queue.ts over the types of src/kernel/queue.ts. A queue is the array of its
-- messages; a message object that the source changes in place is replaced at its position. The
-- generated id and each reading of the clock are arguments, in milliseconds.
pub mod Delivery
pub mod Invariant
pub mod Retries
mod Tests
use openclaw_enterprise_plug.Common.{
  ℕ, suc, ◌+◌, String, ◌≡◌, Bool, true, false, ◌&&◌, ◌||◌, not, Option, none, some, List, [], ◌∷◌,
  ◌++◌, map, filter, find, any, leb, ltb, ◌==◌, str_eq, if◌then◌else◌, or_else, length, slice,
  set_at, update_first, indexed, head?, sort,
}
use openclaw_enterprise_plug.Common.Dict
use openclaw_enterprise_plug.Common.Dict.{Dict}

pub data QueuePriority : Type 0 where
  high normal low : QueuePriority

-- `PRIORITY_ORDER`
abbrev pub priority_order : QueuePriority → ℕ
priority_order high = 0
priority_order normal = 1
priority_order low = 2

pub data MessageState : Type 0 where
  pending processing completed dead_letter : MessageState

-- `kind` is the field `type`. The payload is a text here: no operation looks into it.
pub record QueueMessage : Type 0 where
  pub id : String
  pub tenant_id : String
  pub kind : String
  pub payload : String
  pub priority : QueuePriority
  pub idempotency_key : Option String
  pub scheduled_at : Option ℕ
  pub attempts : ℕ
  pub max_attempts : ℕ
  pub created_at : ℕ
  pub metadata : Option (Dict String)

pub record InternalMessage : Type 0 where
  pub id : String
  pub tenant_id : String
  pub kind : String
  pub payload : String
  pub priority : QueuePriority
  pub idempotency_key : Option String
  pub scheduled_at : Option ℕ
  pub attempts : ℕ
  pub max_attempts : ℕ
  pub created_at : ℕ
  pub metadata : Option (Dict String)
  pub state : MessageState
  pub visible_after : ℕ
  pub processing_deadline : Option ℕ

abbrev pub to_public_message : InternalMessage → QueueMessage
to_public_message m = record {
  id = m.id;
  tenant_id = m.tenant_id;
  kind = m.kind;
  payload = m.payload;
  priority = m.priority;
  idempotency_key = m.idempotency_key;
  scheduled_at = m.scheduled_at;
  attempts = m.attempts;
  max_attempts = m.max_attempts;
  created_at = m.created_at;
  metadata = m.metadata;
}

-- The argument `message` of `enqueue`.
pub record NewMessage : Type 0 where
  pub kind : String
  pub payload : String
  pub priority : Option QueuePriority
  pub scheduled_at : Option ℕ
  pub max_attempts : Option ℕ
  pub metadata : Option (Dict String)

pub record EnqueueOptions : Type 0 where
  pub priority : Option QueuePriority
  pub delay : Option ℕ
  pub idempotency_key : Option String
  pub max_attempts : Option ℕ

abbrev pub Queue : Type 0
Queue = List InternalMessage

abbrev pub is_pending : MessageState → Bool
is_pending pending = true
is_pending _ = false

abbrev pub is_dead : MessageState → Bool
is_dead dead_letter = true
is_dead _ = false

-- Neither completed nor dead.
abbrev pub is_live : MessageState → Bool
is_live pending = true
is_live processing = true
is_live _ = false

abbrev pub has_key : String → Option String → Bool
has_key k none = false
has_key k (some j) = str_eq j k

-- A live message with the idempotency key.
abbrev pub duplicates : String → InternalMessage → Bool
duplicates k m = has_key k m.idempotency_key && is_live m.state

-- The test `if (key)`: an empty text counts as no key.
abbrev pub given_key : Option String → Option String
given_key none = none
given_key (some k) = if str_eq k "" then none else some k

new_message : String → ℕ → String → NewMessage → EnqueueOptions → InternalMessage
new_message id now tenant message options = record {
  id = id;
  tenant_id = tenant;
  kind = message.kind;
  payload = message.payload;
  priority = or_else options.priority (or_else message.priority normal);
  idempotency_key = options.idempotency_key;
  scheduled_at = message.scheduled_at;
  attempts = 0;
  max_attempts = or_else options.max_attempts (or_else message.max_attempts 3);
  created_at = now;
  metadata = message.metadata;
  state = pending;
  visible_after = now + or_else options.delay 0;
  processing_deadline = none;
}

abbrev push_unless : Option InternalMessage → InternalMessage → Queue → Queue × String
push_unless none m q = (q ++ m ∷ [], m.id)
push_unless (some dup) m q = (q, dup.id)

duplicate_of : Option String → Queue → Option InternalMessage
duplicate_of none q = none
duplicate_of (some k) q = find (duplicates k) q

-- `id` is the generated one; the result is the id that the caller gets.
unfoldable pub enqueue : String → ℕ → String → NewMessage → EnqueueOptions → Queue → Queue × String
unfolding new_message duplicate_of
enqueue id now tenant message options q =
    push_unless (duplicate_of (given_key options.idempotency_key) q)
      (new_message id now tenant message options) q

abbrev pub is_ready : ℕ → InternalMessage → Bool
is_ready now m = is_pending m.state && leb m.visible_after now

-- The comparison of `dequeue` is at most 0: by priority, then by the date of creation.
abbrev pub no_later : InternalMessage → InternalMessage → Bool
no_later a b =
    ltb (priority_order a.priority) (priority_order b.priority)
    || (priority_order a.priority == priority_order b.priority && leb a.created_at b.created_at)

-- The ready messages with their positions, in the order of `sortedPending`.
unfoldable pub sorted_pending : ℕ → Queue → List (ℕ × InternalMessage)
sorted_pending now q = sort (λ a b. no_later a.1 b.1) (filter (λ a. is_ready now a.1) (indexed 0 q))

abbrev pub taken : ℕ → Option ℕ → InternalMessage → InternalMessage
taken now visibility_timeout m = record m {
  state = processing;
  attempts = m.attempts + 1;
  processing_deadline = some (now + or_else visibility_timeout 30000);
}

take_up : ℕ → Option ℕ → Queue → Option (ℕ × InternalMessage) → Queue × Option QueueMessage
take_up now timeout q none = (q, none)
take_up now timeout q (some (i, m)) =
    (set_at i (taken now timeout m) q, some (to_public_message (taken now timeout m)))

unfoldable pub dequeue : ℕ → Option ℕ → Queue → Queue × Option QueueMessage
unfolding take_up sorted_pending
dequeue now timeout q = take_up now timeout q (head? (sorted_pending now q))

abbrev pub has_id : String → InternalMessage → Bool
has_id id m = str_eq m.id id

unfoldable pub ack : String → Queue → Queue
ack id q = update_first (has_id id) (λ m. record m { state = completed }) q

abbrev pub nacked : ℕ → Option ℕ → InternalMessage → InternalMessage
nacked now redelivery_delay m =
    if leb m.max_attempts m.attempts
    then record m { state = dead_letter }
    else record m { state = pending; visible_after = now + or_else redelivery_delay 1000 }

unfoldable pub nack : String → ℕ → Option ℕ → Queue → Queue
nack id now delay q = update_first (has_id id) (nacked now delay) q

unfoldable pub get_queue_depth : Queue → ℕ
get_queue_depth q = length (filter (λ m. is_pending m.state) q)

unfoldable pub purge : Queue → Queue × ℕ
unfolding get_queue_depth
purge q = (filter (λ m. not (is_pending m.state)) q, get_queue_depth q)

pub record PaginatedResult {ℓ} (A : Type ℓ) : Type ℓ where
  pub items : List A
  pub total : ℕ
  pub has_more : Bool

unfoldable pub get_dead_letter_messages : Option ℕ → Option ℕ → Queue → PaginatedResult QueueMessage
get_dead_letter_messages offset limit q =
    let dlq = filter (λ m. is_dead m.state) q in
    let o = or_else offset 0 in
    let l = or_else limit 20 in
    record {
      items = map to_public_message (slice dlq o l);
      total = length dlq;
      has_more = ltb (o + l) (length dlq);
    }

abbrev pub revived : ℕ → InternalMessage → InternalMessage
revived now m = record m { state = pending; attempts = 0; visible_after = now }

unfoldable pub replay_dead_letter : String → ℕ → Queue → Queue
replay_dead_letter id now q = update_first (λ m. has_id id m && is_dead m.state) (revived now) q

-- `processPendingForSubscribers`: `active` are the subscriptions still active, and the handler of
-- the first of them ends as `handled` says, at time `t'`.
settle : String → ℕ → Bool → Queue → Queue
unfolding ack nack
settle id t' true q = ack id q
settle id t' false q = nack id t' none q

hand_over : ℕ → Bool → Queue × Option QueueMessage → Queue
unfolding settle
hand_over t' handled (q, none) = q
hand_over t' handled (q, some m) = settle m.id t' handled q

unfoldable pub process_pending : {S : Type 0} → List S → ℕ → ℕ → Bool → Queue → Queue
unfolding dequeue hand_over
process_pending [] t t' handled q = q
process_pending (s ∷ subs) t t' handled q = hand_over t' handled (dequeue t none q)

-- The map of queues; `getQueue` makes a missing one.
unfoldable pub get_queue : Dict Queue → String → Queue
get_queue queues name = or_else (Dict.get queues name) []

unfoldable pub on_queue : {R : Type 0} → (Queue → Queue × R) → String → Dict Queue → Dict Queue × R
unfolding get_queue
on_queue f name queues = let (q, r) = f (get_queue queues name) in (Dict.set queues name q, r)
