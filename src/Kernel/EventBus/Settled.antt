-- ===== src/Kernel/EventBus/Settled.antt =====
-- The promises of `once`.
use openclaw_enterprise_plug.Common.{
  ℕ, suc, String, ◌≡◌, ◌≢◌, refl, sym, not, All, All-map, filter-All, subst, ◌∙◌, Bool, true, false,
  Option, none, some, List, [], ◌∷◌, ◌++◌, filter, find, ◌==◌, if◌then◌else◌, arith, Bool-cases,
  inl, inr,
}
use openclaw_enterprise_plug.Kernel.EventBus.Pattern.{Regex, test, glob_to_regex}
use openclaw_enterprise_plug.Kernel.EventBus.{
  PlatformEvent, Subscriber, EventBus, Handler, other, settling, Once, Outcome, pending, resolved,
  timed_out, bad_pattern, settle, settle_once, change_once, subscribe, unsubscribe, once,
  settle_event, is_called, call, publish,
}
use openclaw_enterprise_plug.Kernel.EventBus.Laws.{run_all, call_all-run_all}

filter-append :
    (p : Subscriber → Bool) (l : List Subscriber) (s : Subscriber)
    → p s ≡ true
    → filter p (l ++ s ∷ []) ≡ filter p l ++ s ∷ []
filter-append p [] s e = rw e refl
filter-append p (x ∷ l) s e = ground (arith, filter-append p l s e)

module _ {D : Type 0} where
  abbrev pub promise : ℕ → EventBus D → Option (Once D)
  promise id b = find (λ p. p.id == id) b.promises

  -- A promise of the first bus is one of the second, and its outcome, if it has one, is the same.
  abbrev pub Continues : Option (Once D) → Option (Once D) → Type 0
  Continues none q = Unit
  Continues (some p) none = ⊥
  Continues (some p) (some q) = p.outcome ≢ pending → q.outcome ≡ p.outcome

  abbrev pub Keeps : EventBus D → EventBus D → Type 0
  Keeps b b' = (id : ℕ) → Continues (promise id b) (promise id b')

  pub Continues-refl : (o : Option (Once D)) → Continues o o
  Continues-refl none = tt
  Continues-refl (some p) = λ _. refl

  Continues-trans : (o p q : Option (Once D)) → Continues o p → Continues p q → Continues o q
  Continues-trans none p q h k = tt
  Continues-trans (some o) none q h k = absurd h
  Continues-trans (some o) (some p) none h k = absurd k
  Continues-trans (some o) (some p) (some q) h k = λ ne. k (λ e. ne (sym (h ne) ∙ e)) ∙ h ne

  -- A change of one promise that leaves outcomes as they are.
  find-change :
      (id id' : ℕ) (f : Once D → Once D) (l : List (Once D))
      → ((p : Once D) → (f p).id ≡ p.id)
      → ((p : Once D) → p.outcome ≢ pending → (f p).outcome ≡ p.outcome)
      → Continues (find (λ p. p.id == id) l) (find (λ p. p.id == id) (change_once id' f l))
  find-change id id' f [] h k = tt
  find-change id id' f (p ∷ l) h k = elim (Bool-cases (p.id == id')) [
    | inl a ↦ elim (Bool-cases (p.id == id)) [
      | inl b ↦ rw (a, h p, b) (k p)
      | inr b ↦ rw (a, h p, b) (Continues-refl (find (λ p. p.id == id) l))
    ]
    | inr a ↦ elim (Bool-cases (p.id == id)) [
      | inl b ↦ rw (a, b) (λ _. refl)
      | inr b ↦ rw (a, b) (find-change id id' f l h k)
    ]
  ]

  settle_settled : (o o' : Outcome D) → o' ≢ pending → settle o o' ≡ o'
  settle_settled o pending ne = absurd (ne refl)
  settle_settled o (resolved e) ne = refl
  settle_settled o timed_out ne = refl
  settle_settled o bad_pattern ne = refl

  pub settle_event-Keeps :
      (id sub : ℕ) (e : PlatformEvent D) (b : EventBus D) → Keeps b (settle_event id sub e b)
  unfolding settle_event unsubscribe
  settle_event-Keeps id sub e b i =
      find-change i id (settle_once (resolved e)) b.promises (λ p. refl)
        (λ p ne. settle_settled (resolved e) p.outcome ne)

  -- Resolved or rejected, with its timer cleared.
  abbrev pub IsSettled : Option (Once D) → Type 0
  IsSettled none = ⊥
  IsSettled (some p) = (p.outcome ≢ pending) × (p.has_timer ≡ false)

  settle-outcome : (e : PlatformEvent D) (o : Outcome D) → settle (resolved e) o ≢ pending
  settle-outcome e pending h = cc
  settle-outcome e (resolved e') h = cc
  settle-outcome e timed_out h = cc
  settle-outcome e bad_pattern h = cc

  IsSettled-of_change :
      (id : ℕ) (e : PlatformEvent D) (p : Once D) (l : List (Once D))
      → Continues (some p) (find (λ q. q.id == id) l)
      → IsSettled (find (λ q. q.id == id) (change_once id (settle_once (resolved e)) l))
  IsSettled-of_change id e p [] c = absurd c
  IsSettled-of_change id e p (q ∷ l) c = elim (Bool-cases (q.id == id)) [
    | inl y ↦ rw (y, y) (settle-outcome e q.outcome, refl)
    | inr n ↦
        let c' =
          subst (λ b. Continues (some p) (if b then some q else find (λ q. q.id == id) l)) n c in
        rw (n, n) (IsSettled-of_change id e p l c')
  ]

  find_new :
      (id : ℕ) (p : Once D) (l : List (Once D))
      → (p.id == id) ≡ true
      → find (λ q. q.id == id) l ≡ none
      → find (λ q. q.id == id) (l ++ p ∷ []) ≡ some p
  find_new id p [] y n = rw y refl
  find_new id p (q ∷ l) y n = ground (arith, y, n, find_new id p l y)

module _ {D : Type 0} (handle : ℕ → PlatformEvent D → EventBus D → EventBus D × Bool)
    (calm : (n : ℕ) (e : PlatformEvent D) (b : EventBus D) → (handle n e b).1 ≡ false)
    (h : (n : ℕ) (e : PlatformEvent D) (b : EventBus D) → Keeps b (handle n e b).0) where
  call-Keeps :
      (e : PlatformEvent D) (k : Handler) (sub : ℕ) (b : EventBus D)
      → Keeps b (call handle e k sub b).0
  call-Keeps e (other n) sub b = h n e b
  call-Keeps e (settling id) sub b = settle_event-Keeps id sub e b

  run_all-Keeps :
      (e : PlatformEvent D) (ss : List Subscriber) (b : EventBus D)
      → Keeps b (run_all handle calm e ss b)
  run_all-Keeps e [] b i = Continues-refl (promise i b)
  run_all-Keeps e (s ∷ ss) b i =
      let b' = (call handle e s.handler s.id b).0 in
      Continues-trans (promise i b) (promise i b') (promise i (run_all handle calm e ss b'))
        (call-Keeps e s.handler s.id b i) (run_all-Keeps e ss b' i)

  run_all-append :
      (e : PlatformEvent D) (l m : List Subscriber) (b : EventBus D)
      → run_all handle calm e (l ++ m) b ≡ run_all handle calm e m (run_all handle calm e l b)
  run_all-append e [] m b = refl
  run_all-append e (s ∷ l) m b = run_all-append e l m (call handle e s.handler s.id b).0

  -- If a publication comes directly after a call of `once`, of an event of a type that the pattern's
  -- regular expression accepts, the promise is settled by it, its timer is cleared and its
  -- subscription has left the bus, whatever the handlers do that are called before its own, as long as
  -- none of them throws at once and they leave settled promises as they are.
  pub once-publish :
      (pattern : String) (e : PlatformEvent D) (b : EventBus D) (r : Regex)
      → glob_to_regex pattern ≡ some r
      → test r e.kind ≡ true
      → promise b.next_id b ≡ none
      → let b' = (publish handle e (once pattern b).0).0 in
        IsSettled (promise b.next_id b') × All (λ s. s.id ≢ suc b.next_id) b'.subscribers
  unfolding once subscribe publish settle_event unsubscribe
  once-publish pattern e b r g y n =
      let id = b.next_id in
      let s : Subscriber = record {
        id = suc id;
        pattern = pattern;
        regex = r;
        handler = settling id;
        active = true;
      } in
      let p : Once D = record {
        id = id;
        sub = some (suc id);
        has_timer = true;
        outcome = pending;
      } in
      let called = filter (is_called e) b.subscribers in
      let b₁ : EventBus D = record {
        subscribers = b.subscribers ++ s ∷ [];
        next_id = suc (suc id);
        promises = b.promises ++ p ∷ [];
        uncaught = b.uncaught;
      } in
      let before = run_all handle calm e called b₁ in
      let first = find_new id p b.promises (ground arith) n in
      let kept = run_all-Keeps e called b₁ id in
      let gone : All (λ (x : Subscriber). x.id ≢ suc id)
          (filter (λ x. not (x.id == suc id)) before.subscribers) =
        All-map (λ (x : Subscriber). not (x.id == suc id) ≡ true) _ _
          (λ x q q'. ground (arith, q, q'))
          (filter-All (λ (x : Subscriber). not (x.id == suc id)) before.subscribers) in
      rw
        (
          once,
          subscribe,
          g,
          filter-append (is_called e) b.subscribers s y,
          call_all-run_all handle calm e (called ++ s ∷ []) b₁,
          run_all-append e called (s ∷ []) b₁,
        )
        (
          IsSettled-of_change id e p before.promises
              (subst (λ o. Continues o (promise id before)) first kept),
          gone,
        )
