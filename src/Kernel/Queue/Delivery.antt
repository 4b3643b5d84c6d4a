-- ===== src/Kernel/Queue/Delivery.antt =====
-- Which message `dequeue` delivers, and that a message in processing is never delivered again by time.
use openclaw_enterprise_plug.Common.{
  ℕ, ◌<◌, ◌≤◌, ◌≡◌, ◌⊎◌, refl, ltb, sym, subst, ◌∙◌, Bool, true, false, Option, none, some, List,
  [], ◌∷◌, arith, filter, All, inl, inr, Option-cases, Bool-cases, head?, head?-sort, indexed,
  get_elem?, set_at, get_elem?-set_at_ne, least, least-All, first_least, least_first, least_empty,
  All-map, All-of_filter, filter-All, All-filter, All-indexed, get_elem?-indexed, indexed-Rises,
  filter-Rises,
}
use openclaw_enterprise_plug.Kernel.Queue.{
  QueuePriority, high, normal, low, priority_order, InternalMessage, QueueMessage, Queue,
  is_pending, is_ready, no_later, taken, take_up, to_public_message, sorted_pending, dequeue,
}

abbrev ready_pairs : ℕ → Queue → List (ℕ × InternalMessage)
ready_pairs now q = filter (λ a. is_ready now a.1) (indexed 0 q)

abbrev before : ℕ × InternalMessage → ℕ × InternalMessage → Bool
before a b = no_later a.1 b.1

chosen-least :
    (now : ℕ) (q : Queue) → head? (sorted_pending now q) ≡ least before (ready_pairs now q)
unfolding sorted_pending
chosen-least now q = head?-sort before (ready_pairs now q)

before_total : (a b : ℕ × InternalMessage) → before a b ≡ false → before b a ≡ true
before_total a b h = ground arith

before_trans :
    (a b c : ℕ × InternalMessage) → before a b ≡ true → before b c ≡ true → before a c ≡ true
before_trans a b c h k = ground arith

-- One priority goes before another.
pub data Above : QueuePriority → QueuePriority → Type 0 where
  high_normal : Above high normal
  high_low : Above high low
  normal_low : Above normal low

-- Of a higher priority, or of the same one and no younger, or older.
abbrev pub Due : InternalMessage → InternalMessage → Type 0
Due m n = Above m.priority n.priority ⊎ ((m.priority ≡ n.priority) × (m.created_at ≤ n.created_at))

abbrev pub Sooner : InternalMessage → InternalMessage → Type 0
Sooner m n =
    Above m.priority n.priority ⊎ ((m.priority ≡ n.priority) × (m.created_at < n.created_at))

Above-order : (p q : QueuePriority) → priority_order p < priority_order q → Above p q
Above-order high normal h = high_normal
Above-order high low h = high_low
Above-order normal low h = normal_low
Above-order low q h = absurd (grind arith)
Above-order _ _ h = absurd (omega arith)

order_same : (p q : QueuePriority) → priority_order p ≡ priority_order q → p ≡ q
order_same high high h = refl
order_same normal normal h = refl
order_same low low h = refl
order_same _ _ h = absurd (omega arith)

no_later-Due : (m n : InternalMessage) → no_later m n ≡ true → Due m n
no_later-Due m n h =
    elim (Bool-cases (ltb (priority_order m.priority) (priority_order n.priority))) [
      | inl y ↦ inl (Above-order m.priority n.priority (ground (arith, y)))
      | inr y ↦ inr (order_same m.priority n.priority (ground (arith, y, h)), ground (arith, y, h))
    ]

no_later-Sooner : (m n : InternalMessage) → no_later n m ≡ false → Sooner m n
no_later-Sooner m n h =
    elim (Bool-cases (ltb (priority_order m.priority) (priority_order n.priority))) [
      | inl y ↦ inl (Above-order m.priority n.priority (ground (arith, y)))
      | inr y ↦ inr (order_same m.priority n.priority (ground (arith, y, h)), ground (arith, y, h))
    ]

-- The message at position `i` may be delivered, no other that may is due before it (by priority,
-- then by the date of creation), and one that stands earlier in the queue is due after it.
pub record IsNext (now : ℕ) (q : Queue) (i : ℕ) (m : InternalMessage) : Type 0 where
  pub found : get_elem? q i ≡ some m
  pub ready : is_ready now m ≡ true
  pub due : All (λ a. is_ready now a.1 ≡ true → Due m a.1) (indexed 0 q)
  pub first : All (λ a. is_ready now a.1 ≡ true → a.0 < i → Sooner m a.1) (indexed 0 q)

pub chosen-IsNext :
    (now : ℕ) (q : Queue) (a : ℕ × InternalMessage)
    → head? (sorted_pending now q) ≡ some a
    → IsNext now q a.0 a.1
chosen-IsNext now q a h =
    let e : least before (ready_pairs now q) ≡ some a = sym (chosen-least now q) ∙ h in
    let test = λ (b : ℕ × InternalMessage). is_ready now b.1 in
    record {
      found =
          least-All before (λ b. get_elem? q b.0 ≡ some b.1) (ready_pairs now q) a
            (All-filter _ test (indexed 0 q) (get_elem?-indexed q)) e;
      ready =
          least-All before (λ b. is_ready now b.1 ≡ true) (ready_pairs now q) a
            (filter-All test (indexed 0 q)) e;
      due =
          All-of_filter (λ b. Due a.1 b.1) test (indexed 0 q)
            (All-map (λ b. before a b ≡ true) (λ b. Due a.1 b.1) (ready_pairs now q)
              (λ b. no_later-Due a.1 b.1)
              (first_least before before_total before_trans (ready_pairs now q) a e));
      first =
          All-of_filter (λ b. b.0 < a.0 → Sooner a.1 b.1) test (indexed 0 q)
            (All-map (λ b. b.0 < a.0 → before b a ≡ false) (λ b. b.0 < a.0 → Sooner a.1 b.1)
              (ready_pairs now q) (λ b f l. no_later-Sooner a.1 b.1 (f l))
              (least_first before (ready_pairs now q) a
                (filter-Rises test (indexed 0 q) (indexed-Rises q 0)) e));
    }

-- What `dequeue` delivers is the next message: a visible pending one, of the highest priority, the
-- oldest of those, and the first in the queue of those. It goes to the processing state at its
-- place, with one attempt more and its deadline, and the rest of the queue is as it was.
pub dequeue-IsNext :
    (now : ℕ) (timeout : Option ℕ) (q : Queue) {p : QueueMessage}
    → (dequeue now timeout q).1 ≡ some p
    → (i : ℕ) × (m : InternalMessage) × IsNext now q i m
      × ((dequeue now timeout q).0 ≡ set_at i (taken now timeout m) q)
      × (p ≡ to_public_message (taken now timeout m))
unfolding dequeue
dequeue-IsNext now timeout q {p} h = elim (Option-cases (head? (sorted_pending now q))) [
  | inl n ↦ absurd (ground (arith, n))
  | inr (a, e) ↦ (a.0, a.1, chosen-IsNext now q a e, rw (e, take_up), ground (arith, e))
]

-- When `dequeue` delivers nothing, no message of the queue is pending and visible, and the queue is
-- as it was.
pub dequeue_nothing :
    (now : ℕ) (timeout : Option ℕ) (q : Queue)
    → (dequeue now timeout q).1 ≡ none
    → All (λ m. is_ready now m ≡ false) q × ((dequeue now timeout q).0 ≡ q)
unfolding dequeue
dequeue_nothing now timeout q h = elim (Option-cases (head? (sorted_pending now q))) [
  | inl n ↦
      let e : ready_pairs now q ≡ [] =
        least_empty before (ready_pairs now q) (sym (chosen-least now q) ∙ n) in
      let test = λ (b : ℕ × InternalMessage). is_ready now b.1 in
      (
        All-indexed (λ m. is_ready now m ≡ false) q 0
            (All-map (λ b. test b ≡ true → ⊥) (λ b. test b ≡ false) (indexed 0 q)
              (λ b k. elim (Bool-cases (test b)) [ inl t ↦ absurd (k t) | inr t ↦ t ])
              (All-of_filter (λ b. ⊥) test (indexed 0 q) (subst (All (λ b. ⊥)) (sym e) tt))),
        rw (n, take_up),
      )
  | inr (a, e) ↦ absurd (ground (arith, e))
]

-- The queue after `dequeue` at each of the times.
unfoldable pub dequeues : List ℕ → Queue → Queue
dequeues [] q = q
dequeues (now ∷ ns) q = dequeues ns (dequeue now none q).0

dequeue_keeps :
    (now i : ℕ) (timeout : Option ℕ) (q : Queue) (m : InternalMessage)
    → get_elem? q i ≡ some m
    → is_pending m.state ≡ false
    → get_elem? (dequeue now timeout q).0 i ≡ some m
unfolding dequeue
dequeue_keeps now i timeout q m h k = elim (Option-cases (head? (sorted_pending now q))) [
  | inl n ↦ rw (n, take_up) h
  | inr (a, e) ↦
      let v = chosen-IsNext now q a e in
      rw (e, take_up)
        (get_elem?-set_at_ne i a.0 (taken now timeout a.1) q
            (λ j. ground (arith, j, v.found, v.ready, h, k))
          ∙ h)
]

-- A message that is not pending, such as one in processing, stays as it is however often and however
-- late `dequeue` is called: the deadline of its processing is never looked at.
pub dequeues_keep :
    (ns : List ℕ) (i : ℕ) (q : Queue) (m : InternalMessage)
    → get_elem? q i ≡ some m
    → is_pending m.state ≡ false
    → get_elem? (dequeues ns q) i ≡ some m
unfolding dequeues
dequeues_keep [] i q m h k = h
dequeues_keep (now ∷ ns) i q m h k =
    dequeues_keep ns i (dequeue now none q).0 m (dequeue_keeps now i none q m h k) k
