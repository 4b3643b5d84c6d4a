-- ===== src/Reliability/StateMachine/History.antt =====
-- What the history of a machine says, after any events, whatever its guards and actions do.
use openclaw_enterprise_plug.Common.{
  ℕ, String, ◌≡◌, refl, sym, ◌⊎◌, inl, inr, Bool, false, none, some, List, [], ◌∷◌, ◌++◌, map,
  filter, find, any, arith, str_eq, eq_iff, Option-cases, Bool-cases,
}
use openclaw_enterprise_plug.Common.Dict
use openclaw_enterprise_plug.Reliability.StateMachine.{
  TransitionDef, Definition, Entry, Machine, arrived, no_transition, guard_rejected, fits,
  new_machine, can_handle, available_events, send, act, enter, guard_passes,
}

-- The transition is one of the declared ones.
abbrev pub Edge : List TransitionDef → String → String → String → Type 0
Edge [] s e t = ⊥
Edge (x ∷ ts) s e t = ((x.from ≡ s) × (x.event ≡ e) × (x.to ≡ t)) ⊎ Edge ts s e t

find-Edge :
    (ts : List TransitionDef) (s e : String) (t : TransitionDef)
    → find (fits s e) ts ≡ some t
    → Edge ts s e t.to
find-Edge [] s e t h = cc
find-Edge (x ∷ ts) s e t h = elim (Bool-cases (fits s e x)) [
  | inl p ↦ inl (ground (arith, eq_iff x.from s, eq_iff x.event e))
  | inr p ↦ inr (find-Edge ts s e t (ground arith))
]

find-any {ℓ} : {A : Type ℓ} (p : A → Bool) (xs : List A) → find p xs ≡ none → any p xs ≡ false
find-any p [] h = refl
find-any p (x ∷ xs) h = ground (arith, find-any p xs)

any-events :
    (s e : String) (ts : List TransitionDef)
    → any (λ e'. str_eq e' e) (map (λ t. t.event) (filter (λ t. str_eq t.from s) ts))
      ≡ any (fits s e) ts
any-events s e [] = refl
any-events s e (t ∷ ts) = ground (arith, any-events s e ts)

module _ {C : Type 0} (d : Definition C) where
  -- An event can be handled exactly when it is one of the available events.
  pub can_handle-available_events :
      (e : String) (m : Machine C)
      → can_handle d e m ≡ any (λ e'. str_eq e' e) (available_events d m)
  unfolding can_handle available_events
  can_handle-available_events e m = sym (any-events m.state e d.transitions)

  abbrev pub entry : ℕ → String → Machine C → TransitionDef → Entry
  entry now e m t = record { from = m.state; to = t.to; event = e; timestamp = now }

  act_keeps :
      (from : String) (t : TransitionDef) (e : String) (m : Machine C)
      → ((act d from t e m).0.state ≡ m.state) × ((act d from t e m).0.history ≡ m.history)
  unfolding act
  act_keeps from t e m = ground arith

  -- The three ways in which `send` ends: no declared transition leaves the state on this event, and
  -- nothing changes; the guard of the first one says no, and nothing changes; or the machine stands
  -- in that transition's target, with one entry more in its history. It stands there also when the
  -- action throws.
  pub send-cases :
      (now : ℕ) (e : String) (m : Machine C)
      → ((can_handle d e m ≡ false)
          × (send d now e m ≡ (m, no_transition m.state e (available_events d m))))
        ⊎ (send d now e m ≡ (m, guard_rejected m.state e))
        ⊎ ((t : TransitionDef) × Edge d.transitions m.state e t.to
            × ((send d now e m).0.state ≡ t.to)
            × ((send d now e m).0.history ≡ m.history ++ entry now e m t ∷ []))
  unfolding send can_handle
  send-cases now e m = elim (Option-cases (find (fits m.state e) d.transitions)) [
    | inl p ↦ inl (find-any _ d.transitions p, rw (p, send))
    | inr (t, p) ↦ elim (Bool-cases (guard_passes d t e m)) [
      | inl g ↦ inr (
          inr (
            t,
            find-Edge d.transitions m.state e t p,
            ground (arith, p, g, act_keeps m.state t e (enter d now e t m)),
            ground (arith, p, g, act_keeps m.state t e (enter d now e t m)),
          ))
      | inr g ↦ inr (inl (ground (arith, p, g)))
    ]
  ]

  pub send_unhandled :
      (now : ℕ) (e : String) (m : Machine C)
      → find (fits m.state e) d.transitions ≡ none
      → send d now e m ≡ (m, no_transition m.state e (available_events d m))
  unfolding send
  send_unhandled now e m p = rw p

  -- With no guard and no action for it, a transition that is found is made.
  pub send_plain :
      (now : ℕ) (e : String) (m : Machine C) (t : TransitionDef)
      → d.guards ≡ []
      → d.actions ≡ []
      → find (fits m.state e) d.transitions ≡ some t
      → send d now e m
        ≡ (record m { state = t.to; history = m.history ++ entry now e m t ∷ [] }, arrived t.to)
  unfolding send guard_passes enter act Dict.get
  send_plain now e m t g a p = ground (arith, p, g, a)

  -- A sequence of events with their times; what they throw is passed over.
  unfoldable pub run : List (ℕ × String) → Machine C → Machine C
  run [] m = m
  run ((now, e) ∷ es) m = run es (send d now e m).0

  -- The entries lead from `s` to `t` by declared transitions, each from where the last one ended.
  abbrev pub DeclaredChain : String → List Entry → String → Type 0
  DeclaredChain s [] t = s ≡ t
  DeclaredChain s (x ∷ h) t =
      (x.from ≡ s) × Edge d.transitions s x.event x.to × DeclaredChain x.to h t

  DeclaredChain-snoc :
      (s t : String) (h : List Entry) (x : Entry)
      → DeclaredChain s h t
      → x.from ≡ t
      → Edge d.transitions t x.event x.to
      → DeclaredChain s (h ++ x ∷ []) x.to
  DeclaredChain-snoc s t [] x c p l = rw c (p, l, refl)
  DeclaredChain-snoc s t (y ∷ h) x c p l = (c.0, c.1, DeclaredChain-snoc y.to t h x c.2 p l)

  send-DeclaredChain :
      (now : ℕ) (e : String) (m : Machine C)
      → DeclaredChain d.initial_state m.history m.state
      → DeclaredChain d.initial_state (send d now e m).0.history (send d now e m).0.state
  send-DeclaredChain now e m c = elim (send-cases now e m) [
    | inl (_, p) ↦ rw p c
    | inr (inl p) ↦ rw p c
    | inr (inr (t, l, p, q)) ↦
        rw (p, q) (DeclaredChain-snoc d.initial_state m.state m.history (entry now e m t) c refl l)
  ]

  run-Chain_from :
      (es : List (ℕ × String)) (m : Machine C)
      → DeclaredChain d.initial_state m.history m.state
      → DeclaredChain d.initial_state (run es m).history (run es m).state
  unfolding run
  run-Chain_from [] m c = c
  run-Chain_from ((now, e) ∷ es) m c =
      run-Chain_from es (send d now e m).0 (send-DeclaredChain now e m c)

  -- Whatever its guards and actions do, after any events the history of a new machine leads from the
  -- initial state to the present one by declared transitions, each from where the last one ended.
  pub run-DeclaredChain :
      (c : C) (es : List (ℕ × String))
      → let m = run es (new_machine d c) in DeclaredChain d.initial_state m.history m.state
  run-DeclaredChain c es = run-Chain_from es (new_machine d c) (unfold new_machine in refl)
