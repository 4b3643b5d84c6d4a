-- ===== src/Kernel/EventBus/Laws.antt =====
-- Which handlers a publication calls, if none of them throws at once.
use openclaw_enterprise_plug.Common.{
  ℕ, suc, String, ◌≡◌, refl, ap, Bool, true, false, ◌&&◌, not, some, List, [], ◌∷◌, ◌++◌, map,
  filter, ◌==◌, ==_iff, if◌then◌else◌, arith, Bool-cases, inl, inr,
}
use openclaw_enterprise_plug.Kernel.EventBus.Pattern.{Regex, test, glob_to_regex}
use openclaw_enterprise_plug.Kernel.EventBus.{
  PlatformEvent, Subscriber, EventBus, Handler, subscribe, unsubscribe, is_called, other, settling,
  call, call_all, publish,
}

-- The subscription is one of those called.
abbrev pub calls : ℕ → List ℕ → Bool
calls id [] = false
calls id (i ∷ l) = if i == id then true else calls id l

calls-unsubscribed :
    {D : Type 0} (id : ℕ) (e : PlatformEvent D) (l : List Subscriber)
    → calls id (map (λ s. s.id) (filter (is_called e) (filter (λ s. not (s.id == id)) l))) ≡ false
calls-unsubscribed id e [] = refl
calls-unsubscribed id e (s ∷ l) = ground (arith, calls-unsubscribed id e l)

calls-others :
    {D : Type 0} (id another : ℕ) (e : PlatformEvent D) (l : List Subscriber)
    → (another ≡ id → ⊥)
    → calls another (map (λ s. s.id) (filter (is_called e) (filter (λ s. not (s.id == id)) l)))
      ≡ calls another (map (λ s. s.id) (filter (is_called e) l))
calls-others id another e [] h = refl
calls-others id another e (s ∷ l) h = ground (arith, h, calls-others id another e l h)

calls-append :
    {D : Type 0} (id : ℕ) (e : PlatformEvent D) (l : List Subscriber) (s : Subscriber)
    → calls id (map (λ s. s.id) (filter (is_called e) (l ++ s ∷ []))) ≡ (
        if calls id (map (λ s. s.id) (filter (is_called e) l))
        then true
        else s.id == id && is_called e s)
calls-append id e [] s = ground arith
calls-append id e (x ∷ l) s = ground (arith, calls-append id e l s)

module _ {D : Type 0} (handle : ℕ → PlatformEvent D → EventBus D → EventBus D × Bool)
    (calm : (n : ℕ) (e : PlatformEvent D) (b : EventBus D) → (handle n e b).1 ≡ false) where
  -- The bus after all handlers are called.
  abbrev pub run_all : PlatformEvent D → List Subscriber → EventBus D → EventBus D
  run_all e [] b = b
  run_all e (s ∷ ss) b = run_all e ss (call handle e s.handler s.id b).0

  call_calm :
      (e : PlatformEvent D) (k : Handler) (sub : ℕ) (b : EventBus D)
      → (call handle e k sub b).1 ≡ false
  call_calm e (other n) sub b = calm n e b
  call_calm e (settling id) sub b = refl

  pub call_all-run_all :
      (e : PlatformEvent D) (ss : List Subscriber) (b : EventBus D)
      → call_all handle e ss b ≡ (run_all e ss b, map (λ s. s.id) ss, false)
  call_all-run_all e [] b = refl
  call_all-run_all e (s ∷ ss) b =
      let b' = (call handle e s.handler s.id b).0 in
      rw (call_calm e s.handler s.id b)
        (ap (λ r. (r.0, s.id ∷ r.1, r.2)) (call_all-run_all e ss b'))

  publish-ids :
      (e : PlatformEvent D) (b : EventBus D)
      → (publish handle e b).1 ≡ map (λ s. s.id) (filter (is_called e) b.subscribers)
  unfolding publish
  publish-ids e b = ap (λ r. r.1) (call_all-run_all e (filter (is_called e) b.subscribers) b)

  -- A subscription that was ended is not called by a publication, which calls any other if and only
  -- if it had called it without the end.
  pub unsubscribe-publish :
      (id another : ℕ) (e : PlatformEvent D) (b : EventBus D)
      → calls another (publish handle e (unsubscribe id b)).1
        ≡ (if another == id then false else calls another (publish handle e b).1)
  unfolding unsubscribe
  unsubscribe-publish id another e b =
      rw (publish-ids e (unsubscribe id b), publish-ids e b)
        (elim (Bool-cases (another == id)) [
          | inl y ↦ rw y (rw ((==_iff another id).0 y) (calls-unsubscribed id e b.subscribers))
          | inr n ↦ rw n (calls-others id another e b.subscribers (λ h. ground (arith, n, h)))
        ])

  -- A subscription with a pattern that is a regular expression is called by a publication if and only
  -- if the expression accepts the event's type, and every other subscription as it was before.
  pub subscribe-publish :
      (pattern : String) (h : Handler) (e : PlatformEvent D) (b : EventBus D) (r : Regex)
      → glob_to_regex pattern ≡ some r
      → (b' : EventBus D) × (subscribe pattern h b ≡ some (b', b.next_id))
        × ((i : ℕ)
            → calls i (publish handle e b').1
              ≡ (if calls i (publish handle e b).1 then true else b.next_id == i && test r e.kind))
  unfolding subscribe
  subscribe-publish pattern h e b r g =
      let s : Subscriber = record {
        id = b.next_id;
        pattern = pattern;
        regex = r;
        handler = h;
        active = true;
      } in
      (
        record b { subscribers = b.subscribers ++ s ∷ []; next_id = suc b.next_id },
        rw (subscribe, g) refl,
        λ i.
            rw
              (
                publish-ids e
                    (record b { subscribers = b.subscribers ++ s ∷ []; next_id = suc b.next_id }),
                publish-ids e b,
              )
              (calls-append i e b.subscribers s),
      )
