-- ===== src/Kernel/Lock/Tests.antt =====
-- Runs of the locks at concrete inputs.
use openclaw_enterprise_plug.Common.{
  String, ◌≡◌, ◌≢◌, ◌↔◌, refl, true, false, none, some, List, [], ◌∷◌, arith, is_some, inr, eq_iff,
  if◌then◌else◌,
}
use openclaw_enterprise_plug.Common.Dict
use openclaw_enterprise_plug.Kernel.Lock.{
  LockHandle, Locks, acquire, owns, release, extend, granted, acquire_with_retry,
}
use openclaw_enterprise_plug.Kernel.Lock.Exclusion.{
  Operation, acquiring, releasing, extending, evicting, perform_all, acquire_exclusive,
  release-acquire,
}
use openclaw_enterprise_plug.Kernel.Lock.Acquire.{acquire_iff, stale_handle, held_at}

abbrev mine : LockHandle
mine = record { key = "job"; token = "t1"; expires_at = 110 }

abbrev others : LockHandle
others = record { key = "job"; token = "t0"; expires_at = 50 }

abbrev locked : Locks
locked = ("job", record { key = "job"; token = "t1"; holder_id = "local"; expires_at = 110 }) ∷ []

acquires : acquire "job" 100 "t1" 10 10 [] ≡ (locked, some mine)
unfolding acquire Dict.get Dict.set Dict.retain
acquires = refl

-- The first two turns find the lock, which expires at 110; in the second turn it is still there.
retries :
    (acquire_with_retry "job" 30 "t2" 500
      (record { at = 60; evict_at = 60; acquire_at = 60; date_at = 60; others = λ l. l }
        ∷ record { at = 120; evict_at = 120; acquire_at = 120; date_at = 121; others = λ l. l }
        ∷ [])
      locked).1
    ≡ granted (record { key = "job"; token = "t2"; expires_at = 151 })
unfolding acquire_with_retry Dict.get Dict.set Dict.retain
retries = refl

acquire_iff_run :
    let (locks', h) = acquire "job" 100 "t2" 20 20 locked in
    ((is_some h ≡ true) ↔ (held_at 20 locked "job" ≡ none))
    × (Dict.get locks' "job" ≡ (
        if is_some h
        then some (record { key = "job"; token = "t2"; holder_id = "local"; expires_at = 120 })
        else held_at 20 locked "job"))
    × ((other : String) → other ≢ "job" → Dict.get locks' other ≡ held_at 20 locked other)
unfolding Dict.get
acquire_iff_run = acquire_iff "job" 100 "t2" 20 20 locked (refl, tt)

stale_handle_run :
    (release others locked ≡ locked) × (extend others 10 20 locked ≡ (locked, (others, false)))
unfolding Dict.get
stale_handle_run = stale_handle others 10 20 locked refl

abbrev meddling : List Operation
meddling =
    acquiring "job" 100 "t2" 20 20
    ∷ releasing others
    ∷ extending others 500 30
    ∷ evicting 40
    ∷ acquiring "other" 5 "t3" 50 50
    ∷ []

acquire_exclusive_example :
    let after = perform_all meddling (acquire "job" 100 "t1" 10 10 []).0 in
    ((acquire "job" 9 "t4" 109 109 after).1 ≡ none) × (owns mine (Dict.get after "job") ≡ true)
unfolding acquire Dict.get Dict.retain
acquire_exclusive_example =
    acquire_exclusive "job" 100 "t1" 10 10 [] mine meddling 9 "t4" 109 109 tt refl
      (
        omega arith,
        (
          inr (ground (arith, eq_iff "t0" "t1")),
          (inr (ground (arith, eq_iff "t0" "t1")), (omega arith, (omega arith, tt))),
        ),
      )
      (omega arith)

release-acquire_run : is_some (acquire "job" 9 "t2" 20 20 (release mine locked)).1 ≡ true
unfolding Dict.get
release-acquire_run = release-acquire mine 9 "t2" 20 20 locked (refl, tt) refl
