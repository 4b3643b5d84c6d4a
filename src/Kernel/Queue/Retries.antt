-- ===== src/Kernel/Queue/Retries.antt =====
-- Idempotency keys, and the road of a message that always fails to the dead letters.
use openclaw_enterprise_plug.Common.{
  ℕ, ◌+◌, ◌≤◌, String, ◌≡◌, ◌≢◌, refl, ap, ◌∙◌, Bool, true, false, Option, none, some, List, [],
  ◌∷◌, ◌++◌, find, arith, inl, inr, Option-cases, length, eq_iff,
}
use openclaw_enterprise_plug.Kernel.Queue.{
  InternalMessage, NewMessage, EnqueueOptions, Queue, pending, dead_letter, taken, nacked, enqueue,
  process_pending, new_message, push_unless, given_key, duplicates, duplicate_of,
}

find-append {ℓ} :
    {A : Type ℓ} (p : A → Bool) (xs : List A) (y : A)
    → find p xs ≡ none
    → p y ≡ true
    → find p (xs ++ y ∷ []) ≡ some y
find-append p [] y h k = rw k
find-append p (x ∷ xs) y h k = ground (arith, find-append p xs y)

module _ (id : String) (now : ℕ) (tenant : String) (message : NewMessage) (options : EnqueueOptions)
    (q : Queue) where
  enqueue_new :
      duplicate_of (given_key options.idempotency_key) q ≡ none
      → enqueue id now tenant message options q
        ≡ (q ++ new_message id now tenant message options ∷ [], id)
  unfolding enqueue
  enqueue_new n = rw (n, push_unless)

  enqueue_duplicate :
      (d : InternalMessage)
      → duplicate_of (given_key options.idempotency_key) q ≡ some d
      → enqueue id now tenant message options q ≡ (q, d.id)
  unfolding enqueue
  enqueue_duplicate d n = rw (n, push_unless)

duplicate_of_lem :
    (k : String) (o : Option String) (q : Queue)
    → o ≡ some k
    → k ≢ ""
    → duplicate_of (given_key o) q ≡ find (duplicates k) q
unfolding duplicate_of
duplicate_of_lem k o q e h =
    let g : given_key (some k) ≡ some k = ground (arith, eq_iff k "", h) in
    ap (λ j. duplicate_of (given_key j) q) e ∙ ap (λ j. duplicate_of j q) g

-- Two messages enqueued one after the other under the same key, which is not empty, are one message:
-- the second call changes nothing and returns the id that the first call returned.
pub enqueue_again :
    (id id' : String) (now now' : ℕ) (tenant tenant' : String) (message message' : NewMessage)
    (options options' : EnqueueOptions) (k : String) (q : Queue)
    → options.idempotency_key ≡ some k
    → options'.idempotency_key ≡ some k
    → k ≢ ""
    → let (q', r) = enqueue id now tenant message options q in
      enqueue id' now' tenant' message' options' q' ≡ (q', r)
unfolding new_message
enqueue_again id id' now now' tenant tenant' message message' options options' k q e e' h =
    let m = new_message id now tenant message options in
    let same = λ (l : Queue). duplicate_of_lem k options.idempotency_key l e h in
    let same' = λ (l : Queue). duplicate_of_lem k options'.idempotency_key l e' h in
    elim (Option-cases (find (duplicates k) q)) [
      | inl n ↦
          let f : find (duplicates k) (q ++ m ∷ []) ≡ some m =
            find-append (duplicates k) q m n (ground (arith, eq_iff k k)) in
          rw (enqueue_new id now tenant message options q (same q ∙ n)) (
            enqueue_duplicate id' now' tenant' message' options' (q ++ m ∷ []) m
              (same' (q ++ m ∷ []) ∙ f))
      | inr (d, n) ↦
          rw (enqueue_duplicate id now tenant message options q d (same q ∙ n))
            (enqueue_duplicate id' now' tenant' message' options' q d (same' q ∙ n))
    ]

-- One round in which the handler fails: the message is delivered at `t`, and refused at `t'`.
unfoldable pub failed_round : ℕ × ℕ → Queue → Queue
failed_round (t, t') q = process_pending {S = Unit {0}} (tt ∷ []) t t' false q

unfoldable pub failed_rounds : List (ℕ × ℕ) → Queue → Queue
failed_rounds [] q = q
failed_rounds (r ∷ rs) q = failed_rounds rs (failed_round r q)

-- Each round begins once the message is visible: at `from`, then a second after each refusal.
abbrev pub Waits : ℕ → List (ℕ × ℕ) → Type 0
Waits from [] = Unit
Waits from ((t, t') ∷ rs) = (from ≤ t) × Waits (t' + 1000) rs

failed_round_lem :
    (t t' : ℕ) (m : InternalMessage)
    → m.state ≡ pending
    → m.visible_after ≤ t
    → failed_round (t, t') (m ∷ []) ≡ nacked t' none (taken t none m) ∷ []
unfolding failed_round process_pending
failed_round_lem t t' m s v = ground (arith, eq_iff m.id m.id)

-- A pending message that is alone in its queue, and whose handler fails in every round, becomes a
-- dead letter under its own id after exactly as many rounds as it has attempts left, if each round
-- begins once the message is visible.
pub failed_rounds-dead :
    (t t' : ℕ) (rs : List (ℕ × ℕ)) (m : InternalMessage)
    → m.state ≡ pending
    → Waits m.visible_after ((t, t') ∷ rs)
    → m.attempts + length ((t, t') ∷ rs) ≡ m.max_attempts
    → (m' : InternalMessage) × (failed_rounds ((t, t') ∷ rs) (m ∷ []) ≡ m' ∷ [])
      × (m'.state ≡ dead_letter)
      × (m'.id ≡ m.id)
      × (m'.attempts ≡ m.max_attempts)
unfolding failed_rounds
failed_rounds-dead t t' [] m s w n =
    rw (failed_round_lem t t' m s w.0)
      (nacked t' none (taken t none m), refl, ground arith, ground arith, ground arith)
failed_rounds-dead t t' ((u, u') ∷ rs) m s w n =
    let m₁ = nacked t' none (taken t none m) in
    let (m', e, d, i, k) =
      failed_rounds-dead u u' rs m₁ (ground arith) (ground arith) (ground arith) in
    (m', rw (failed_round_lem t t' m s w.0) e, d, ground (arith, i), ground (arith, k))
