-- ===== src/Kernel/Leader/Terms.antt =====
-- The terms of office of one candidate: at most one, and none without the lock.
use openclaw_enterprise_plug.Common.{
  ◌⊎◌, inl, inr, Bool-cases, is_some, ◌∙◌, sym, ℕ, zero, suc, String, ◌≡◌, refl, sym, ap, ◌∙◌, Bool,
  true, false, Option, none, some, List, [], ◌∷◌, arith, if_intro,
}
use openclaw_enterprise_plug.Kernel.Lock.{Locks, LockHandle, acquire}
use openclaw_enterprise_plug.Kernel.Leader.{
  LeaderElection, World, elect_leader, leader_key, acquired, tick, renew, extended, resign, give_up,
  resigned, start, took, took_if, renewed, left,
}

-- What happens in the course of an election, in any order: its steps and those that go on after they
-- waited, and what others do with the locks.
pub data Event : Type 0 where
  acquiring extending resigning leaving : Event
  ticking : ℕ → Event
  others : (Locks → Locks) → Event

unfoldable pub happens : ℕ → Event → World → World
happens ttl acquiring w = acquired w
happens ttl (ticking now) w = tick ttl now w
happens ttl extending w = extended w
happens ttl resigning w = resign w
happens ttl leaving w = resigned w
happens ttl (others f) w = record w { locks = f w.locks }

unfoldable pub happen : ℕ → List Event → World → World
happen ttl [] w = w
happen ttl (e ∷ es) w = happen ttl es (happens ttl e w)

-- An election that will not come to lead: it does not, and awaits no lock.
abbrev IsOver : LeaderElection → Type 0
IsOver e = (e.leader ≡ false) × (e.acquiring ≡ none)

-- Whoever leads awaits no lock and has a handle.
abbrev IsSound : LeaderElection → Type 0
IsSound e = e.leader ≡ true → (e.acquiring ≡ none) × (is_some e.handle ≡ true)

-- A resignation that found a handle awaits its release.
abbrev IsLeaving : LeaderElection → Type 0
IsLeaving e = (n : ℕ) × (e.leaving ≡ suc n)

-- It is over, or a resignation will end it.
abbrev Ends : LeaderElection → Type 0
Ends e = IsOver e ⊎ ((e.acquiring ≡ none) × IsLeaving e)

-- What each step keeps.
abbrev Keeps : LeaderElection → LeaderElection → Type 0
Keeps e e' =
    (IsSound e → IsSound e')
    × (IsOver e → IsOver e')
    × (Ends e → Ends e')
    × (e.acquiring ≡ none → e'.acquiring ≡ none)

same-Keeps :
    (e e' : LeaderElection)
    → e'.leader ≡ e.leader
    → e'.acquiring ≡ e.acquiring
    → (is_some e.handle ≡ true → is_some e'.handle ≡ true)
    → (IsLeaving e → IsLeaving e')
    → Keeps e e'
same-Keeps e e' l a h v = (
  (λ s t. let (n, k) = s (sym l ∙ t) in (a ∙ n, h k)),
  (λ o. (l ∙ o.0, a ∙ o.1)),
  (λ x. elim x [ inl o ↦ inl (l ∙ o.0, a ∙ o.1) | inr o ↦ inr (a ∙ o.0, v o.1) ]),
  (λ n. a ∙ n),
)

ended-Keeps : (e e' : LeaderElection) → e'.leader ≡ false → e'.acquiring ≡ e.acquiring → Keeps e e'
ended-Keeps e e' l a = (
  (λ s t. absurd (ground (arith, l, t))),
  (λ o. (l, a ∙ o.1)),
  (λ x. elim x [ inl o ↦ inl (l, a ∙ o.1) | inr o ↦ inl (l, a ∙ o.0) ]),
  (λ n. a ∙ n),
)

refl-Keeps : (e : LeaderElection) → Keeps e e
refl-Keeps e = ((λ s. s), (λ o. o), (λ x. x), (λ n. n))

awaited : {o : Option LockHandle} → some o ≡ none → ⊥
awaited e = cc

took_if-Keeps :
    (o : Option (Option LockHandle)) (e : LeaderElection) → e.acquiring ≡ o → Keeps e (took_if o e)
took_if-Keeps none e a = refl-Keeps e
took_if-Keeps (some none) e a = (
  (λ s t. absurd (awaited (sym a ∙ (s t).0))),
  (λ o. (o.0, refl)),
  (λ x. elim x [ inl o ↦ inl (o.0, refl) | inr o ↦ inr (refl, o.1) ]),
  (λ n. refl),
)
took_if-Keeps (some (some h)) e a = (
  (λ s t. (refl, refl)),
  (λ o. absurd (awaited (sym a ∙ o.1))),
  (λ x. elim x [ inl o ↦ absurd (awaited (sym a ∙ o.1)) | inr o ↦ absurd (awaited (sym a ∙ o.0)) ]),
  (λ n. refl),
)

renew-Keeps :
    (ttl now : ℕ) (h : Option LockHandle) (w : World)
    → Keeps w.election (renew ttl now h w).election
unfolding renew
renew-Keeps ttl now none w = refl-Keeps w.election
renew-Keeps ttl now (some h) w =
    same-Keeps w.election (renew ttl now (some h) w).election refl refl (λ k. refl) (λ v. v)

renewed-Keeps : (oks : List Bool) (e : LeaderElection) → Keeps e (renewed oks e)
renewed-Keeps [] e = refl-Keeps e
renewed-Keeps (true ∷ oks) e = same-Keeps e (renewed (true ∷ oks) e) refl refl (λ k. k) (λ v. v)
renewed-Keeps (false ∷ oks) e = ended-Keeps e (renewed (false ∷ oks) e) refl refl

give_up-Keeps : (h : Option LockHandle) (w : World) → Keeps w.election (give_up h w).election
unfolding give_up
give_up-Keeps none w = same-Keeps w.election (give_up none w).election refl refl (λ k. k) (λ v. v)
give_up-Keeps (some h) w =
    same-Keeps w.election (give_up (some h) w).election refl refl (λ k. k)
      (λ v. (w.election.leaving, refl))

left-Keeps : (n : ℕ) (e : LeaderElection) → Keeps e (left n e)
left-Keeps zero e = refl-Keeps e
left-Keeps (suc n) e = ended-Keeps e (left (suc n) e) refl refl

happens-Keeps : (ttl : ℕ) (e : Event) (w : World) → Keeps w.election (happens ttl e w).election
unfolding happens acquired tick extended resign resigned
happens-Keeps ttl acquiring w = took_if-Keeps w.election.acquiring w.election refl
happens-Keeps ttl (ticking now) w =
    if_intro (λ (v : World). Keeps w.election v.election) w.election.renewing
      (λ _. renew-Keeps ttl now w.election.handle w) (λ _. refl-Keeps w.election)
happens-Keeps ttl extending w = renewed-Keeps w.election.extending w.election
happens-Keeps ttl resigning w = give_up-Keeps w.election.handle w
happens-Keeps ttl leaving w = left-Keeps w.election.leaving w.election
happens-Keeps ttl (others f) w = refl-Keeps w.election

happen-Keeps : (ttl : ℕ) (es : List Event) (w : World) → Keeps w.election (happen ttl es w).election
unfolding happen
happen-Keeps ttl [] w = refl-Keeps w.election
happen-Keeps ttl (e ∷ es) w =
    let (s, o, x, n) = happens-Keeps ttl e w in
    let (s', o', x', n') = happen-Keeps ttl es (happens ttl e w) in
    ((λ y. s' (s y)), (λ y. o' (o y)), (λ y. x' (x y)), (λ y. n' (n y)))

give_up-Ends :
    (h : Option LockHandle) (w : World)
    → w.election.acquiring ≡ none
    → is_some h ≡ true
    → Ends (give_up h w).election
unfolding give_up
give_up-Ends none w a k = absurd (ground (arith, k))
give_up-Ends (some h) w a k = inr (a, (w.election.leaving, refl))

left-IsOver : (n : ℕ) (e : LeaderElection) → e.leaving ≡ n → Ends e → IsOver (left n e)
left-IsOver zero e v (inl o) = o
left-IsOver zero e v (inr (a, (n, v'))) = absurd (omega (arith, v, v'))
left-IsOver (suc n) e v (inl o) = (refl, o.1)
left-IsOver (suc n) e v (inr (a, m)) = (refl, a)

elect_leader-IsSound :
    (group : String) (ttl : ℕ) (token : String) (t t' : ℕ) (locks : Locks)
    → IsSound (elect_leader group ttl token t t' locks).election
unfolding elect_leader
elect_leader-IsSound group ttl token t t' locks l = absurd (ground (arith, l))

-- A candidate has at most one term. Once it leads: if at any later time it does not lead any more,
-- because a renewal failed or because it resigned, it never leads again; and if it resigns, and the
-- lock that it gave up is released, it never leads again. That holds whatever others do with the
-- locks, however often its interval ticks, and in whatever order the steps go on that wait for the
-- lock.
pub one_term :
    (group : String) (ttl : ℕ) (token : String) (t t' : ℕ) (locks : Locks) (es fs gs : List Event)
    → let u = happen ttl es (elect_leader group ttl token t t' locks) in
      let v = happen ttl fs u in
      let left = resigned (happen ttl fs (resign u)) in
      u.election.leader ≡ true
      → ((v.election.leader ≡ true) ⊎ ((happen ttl gs v).election.leader ≡ false))
        × ((happen ttl gs left).election.leader ≡ false)
unfolding resign resigned
one_term group ttl token t t' locks es fs gs y =
    let first = elect_leader group ttl token t t' locks in
    let u = happen ttl es first in
    let v = happen ttl fs u in
    let w = happen ttl fs (resign u) in
    let (awaits, holds) =
      (happen-Keeps ttl es first).0 (elect_leader-IsSound group ttl token t t' locks) y in
    let over =
      left-IsOver w.election.leaving w.election refl
        ((happen-Keeps ttl fs (resign u)).2 (give_up-Ends u.election.handle u awaits holds)) in
    (
      elim (Bool-cases v.election.leader) [
        | inl l ↦ inl l
        | inr n ↦
            let sound = (happen-Keeps ttl fs u).3 awaits in
            inr ((happen-Keeps ttl gs v).1 (n, sound)).0
      ],
      ((happen-Keeps ttl gs (resigned w)).1 over).0,
    )

-- A candidate that finds the lock taken never leads, whatever happens once it knows.
pub none_taken-leader :
    (group : String) (ttl : ℕ) (token : String) (t t' : ℕ) (locks : Locks) (es : List Event)
    → (acquire (leader_key group) ttl token t t' locks).1 ≡ none
    → (happen ttl es (acquired (elect_leader group ttl token t t' locks))).election.leader ≡ false
unfolding elect_leader acquired
none_taken-leader group ttl token t t' locks es h =
    let w = acquired (elect_leader group ttl token t t' locks) in
    let lost : w.election ≡ took none (record start { acquiring = some none }) =
      ap (λ o. took_if (some o) (record start { acquiring = some o })) h in
    ((happen-Keeps ttl es w).1 (ap (λ e. e.leader) lost, ap (λ e. e.acquiring) lost)).0
