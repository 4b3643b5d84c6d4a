-- ===== src/Kernel/Leader/Tests.antt =====
-- An election at concrete inputs.
use openclaw_enterprise_plug.Common.{◌⊎◌, ◌≡◌, refl, true, false, [], ◌∷◌}
use openclaw_enterprise_plug.Common.Dict
use openclaw_enterprise_plug.Kernel.Lock.{Locks, acquire, evict_expired, extend, release}
use openclaw_enterprise_plug.Kernel.Leader.{
  elected, deposed, elect_leader, acquired, tick, renew, extended, resign, give_up, resigned,
}
use openclaw_enterprise_plug.Kernel.Leader.Terms.{
  acquiring, ticking, extending, resigning, leaving, happens, happen, one_term, none_taken-leader,
}

abbrev taken : Locks
taken =
    ("leader:g", record { key = "leader:g"; token = "x"; holder_id = "local"; expires_at = 100 })
    ∷ []

-- The candidate leads, resigns and does not lead again.
one_term_example :
    let u = happen 30 (acquiring ∷ []) (elect_leader "g" 30 "mine" 10 10 []) in
    let fs = ticking 20 ∷ extending ∷ resigning ∷ leaving ∷ [] in
    let gs = ticking 200 ∷ extending ∷ acquiring ∷ [] in
    let v = happen 30 fs u in
    ((v.election.leader ≡ true) ⊎ ((happen 30 gs v).election.leader ≡ false))
    × ((happen 30 gs (resigned (happen 30 fs (resign u)))).election.leader ≡ false)
unfolding happen happens acquired elect_leader acquire evict_expired Dict.get Dict.set Dict.retain
one_term_example =
    one_term "g" 30 "mine" 10 10 [] (acquiring ∷ [])
      (ticking 20 ∷ extending ∷ resigning ∷ leaving ∷ []) (ticking 200 ∷ extending ∷ acquiring ∷ [])
      refl

-- The lock is taken at first, and free from 100 on: the candidate does not notice.
lost_run :
    (happen 30
      (ticking 200 ∷ ticking 300 ∷ [])
      (acquired (elect_leader "g" 30 "mine" 10 10 taken))).election.leader
    ≡ false
unfolding acquire evict_expired Dict.get Dict.retain
lost_run = none_taken-leader "g" 30 "mine" 10 10 taken (ticking 200 ∷ ticking 300 ∷ []) refl

-- A free group is led at once, until the candidate resigns.
leads :
    (resigned (
      resign
        (extended (tick 30 20 (acquired (elect_leader "g" 30 "mine" 10 10 [])))))).election.calls
    ≡ elected ∷ deposed ∷ []
unfolding resign resigned give_up tick renew extended acquired elect_leader acquire evict_expired
    extend release Dict.get Dict.set Dict.retain Dict.delete
leads = refl

-- A resignation before the lock is there is lost: the candidate leads after it.
early_resignation :
    (acquired (resigned (resign (elect_leader "g" 30 "mine" 10 10 [])))).election.leader ≡ true
unfolding resign resigned give_up acquired elect_leader acquire evict_expired Dict.get Dict.set
    Dict.retain
early_resignation = refl
