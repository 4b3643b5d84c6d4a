-- ===== src/Kernel/Queue/Invariant.antt =====
-- The attempts of messages, idempotency keys and what no operation loses.
use openclaw_enterprise_plug.Common.{
  ℕ, zero, suc, ◌≤◌, ◌<◌, String, ◌≡◌, subst, ◌&&◌, not, Option, some, List, [], ◌∷◌, arith, All,
  All-append, All-update_first, All-set_at, All-filter, inl, inr, Option-cases, head?, get_elem?,
  or_else,
}
use openclaw_enterprise_plug.Kernel.Queue.{
  InternalMessage, NewMessage, EnqueueOptions, Queue, pending, processing, completed, dead_letter,
  is_pending, is_dead, has_id, taken, take_up, nacked, revived, sorted_pending, enqueue, dequeue,
  ack, nack, purge, replay_dead_letter, push_unless, given_key, duplicate_of,
}
use openclaw_enterprise_plug.Kernel.Queue.Delivery.{chosen-IsNext}

-- The attempts of a message stay within its maximum; a pending message has one left, a dead one none.
pub record IsValid (m : InternalMessage) : Type 0 where
  pub positive : 0 < m.max_attempts
  pub bounded : m.attempts ≤ m.max_attempts
  pub room : m.state ≡ pending → m.attempts < m.max_attempts
  pub spent : m.state ≡ dead_letter → m.max_attempts ≤ m.attempts
  pub tried : m.state ≡ processing → 0 < m.attempts

All-get_elem? {κ} :
    (P : InternalMessage → Type κ) (i : ℕ) (q : Queue) (m : InternalMessage)
    → All P q
    → get_elem? q i ≡ some m
    → P m
All-get_elem? P i [] m h e = cc
All-get_elem? P zero (x ∷ q) m h e = let k : x ≡ m = ground arith in subst P k h.0
All-get_elem? P (suc i) (x ∷ q) m h e = All-get_elem? P i q m h.1 e

-- The operations on one queue, with the readings of the clock and the generated ids.
pub data Operation : Type 0 where
  enqueuing : String → ℕ → String → NewMessage → EnqueueOptions → Operation
  dequeuing : ℕ → Option ℕ → Operation
  acking : String → Operation
  nacking : String → ℕ → Option ℕ → Operation
  purging : Operation
  replaying : String → ℕ → Operation

unfoldable pub perform : Operation → Queue → Queue
perform (enqueuing id now tenant message options) q = (enqueue id now tenant message options q).0
perform (dequeuing now timeout) q = (dequeue now timeout q).0
perform (acking id) q = ack id q
perform (nacking id now delay) q = nack id now delay q
perform purging q = (purge q).0
perform (replaying id now) q = replay_dead_letter id now q

-- A message asks for at least one attempt.
abbrev pub Asks : Operation → Type 0
Asks (enqueuing id now tenant message options) =
    0 < or_else options.max_attempts (or_else message.max_attempts 3)
Asks _ = Unit

enqueue-IsValid :
    (id : String) (now : ℕ) (tenant : String) (message : NewMessage) (options : EnqueueOptions)
    (q : Queue)
    → 0 < or_else options.max_attempts (or_else message.max_attempts 3)
    → All IsValid q
    → All IsValid (enqueue id now tenant message options q).0
unfolding enqueue
enqueue-IsValid id now tenant message options q p v =
    elim (Option-cases (duplicate_of (given_key options.idempotency_key) q)) [
      | inl n ↦ rw (n, push_unless) (All-append IsValid q _ v (ground arith, tt))
      | inr (d, e) ↦ rw (e, push_unless) v
    ]

dequeue-IsValid :
    (now : ℕ) (timeout : Option ℕ) (q : Queue)
    → All IsValid q
    → All IsValid (dequeue now timeout q).0
unfolding dequeue
dequeue-IsValid now timeout q v = elim (Option-cases (head? (sorted_pending now q))) [
  | inl n ↦ rw (n, take_up) v
  | inr (a, e) ↦
      let next = chosen-IsNext now q a e in
      let w : IsValid a.1 = All-get_elem? IsValid a.0 q a.1 v next.found in
      rw (e, take_up)
        (All-set_at IsValid a.0 (taken now timeout a.1) q (ground (arith, w, next.ready)) v)
]

ack-IsValid : (id : String) (q : Queue) → All IsValid q → All IsValid (ack id q)
unfolding ack
ack-IsValid id q v =
    All-update_first IsValid (has_id id) (λ m. record m { state = completed }) q
      (λ m e w. ground (arith, w)) v

nack-IsValid :
    (id : String) (now : ℕ) (delay : Option ℕ) (q : Queue)
    → All IsValid q
    → All IsValid (nack id now delay q)
unfolding nack
nack-IsValid id now delay q v =
    All-update_first IsValid (has_id id) (nacked now delay) q (λ m e w. ground (arith, w)) v

replay-IsValid :
    (id : String) (now : ℕ) (q : Queue) → All IsValid q → All IsValid (replay_dead_letter id now q)
unfolding replay_dead_letter
replay-IsValid id now q v =
    All-update_first IsValid (λ m. has_id id m && is_dead m.state) (revived now) q
      (λ m e w. ground (arith, w)) v

perform-IsValid : (o : Operation) (q : Queue) → Asks o → All IsValid q → All IsValid (perform o q)
unfolding perform purge
perform-IsValid (enqueuing id now tenant message options) q p v =
    enqueue-IsValid id now tenant message options q p v
perform-IsValid (dequeuing now timeout) q p v = dequeue-IsValid now timeout q v
perform-IsValid (acking id) q p v = ack-IsValid id q v
perform-IsValid (nacking id now delay) q p v = nack-IsValid id now delay q v
perform-IsValid purging q p v = All-filter IsValid (λ m. not (is_pending m.state)) q v
perform-IsValid (replaying id now) q p v = replay-IsValid id now q v

unfoldable pub perform_all : List Operation → Queue → Queue
perform_all [] q = q
perform_all (o ∷ os) q = perform_all os (perform o q)

perform_all-IsValid_from :
    (os : List Operation) (q : Queue) → All Asks os → All IsValid q → All IsValid (perform_all os q)
unfolding perform_all
perform_all-IsValid_from [] q p v = v
perform_all-IsValid_from (o ∷ os) q p v =
    perform_all-IsValid_from os (perform o q) p.1 (perform-IsValid o q p.0 v)

-- After any operations on an empty queue, in any order, if each enqueued message asks for at least
-- one attempt: no message has more attempts than its maximum, a pending one has an attempt left, a
-- dead one has none, and one in processing has made at least one.
pub perform_all-IsValid : (os : List Operation) → All Asks os → All IsValid (perform_all os [])
perform_all-IsValid os p = perform_all-IsValid_from os [] p tt
