-- ===== src/Kernel/Lock.antt =====
-- src/kernel-impl/memory/lock.ts over the types of src/kernel/lock.ts. The map of locks is the
-- state; generated tokens and readings of the clock are arguments, in milliseconds.
pub mod Acquire
pub mod Exclusion
mod Tests
use openclaw_enterprise_plug.Common.{
  ℕ, ◌+◌, String, ◌≡◌, Bool, true, false, Option, none, some, List, [], ◌∷◌, ltb, leb, str_eq,
  if◌then◌else◌, or_else, is_some,
}
use openclaw_enterprise_plug.Common.Dict
use openclaw_enterprise_plug.Common.Dict.{Dict}

pub record InternalLock : Type 0 where
  pub key : String
  pub token : String
  pub holder_id : String
  pub expires_at : ℕ

pub record LockHandle : Type 0 where
  pub key : String
  pub token : String
  pub expires_at : ℕ

abbrev pub Locks : Type 0
Locks = Dict InternalLock

-- Not yet expired: `evictExpired` deletes the others.
abbrev pub is_held : ℕ → InternalLock → Bool
is_held now l = ltb now l.expires_at

unfoldable pub evict_expired : ℕ → Locks → Locks
evict_expired now locks = Dict.retain (is_held now) locks

grant : String → ℕ → String → ℕ → Locks → Locks × Option LockHandle
grant key ttl token now locks = (
  Dict.set locks key
      (record { key = key; token = token; holder_id = "local"; expires_at = now + ttl }),
  some (record { key = key; token = token; expires_at = now + ttl }),
)

grant_if_free : Option InternalLock → String → ℕ → String → ℕ → Locks → Locks × Option LockHandle
unfolding grant
grant_if_free none key ttl token now locks = grant key ttl token now locks
grant_if_free (some l) key ttl token now locks = (locks, none)

-- `acquire` with no `waitMs`: the clock is read at `t` to evict and at `t'` to date the lock.
unfoldable pub acquire : String → ℕ → String → ℕ → ℕ → Locks → Locks × Option LockHandle
unfolding evict_expired grant_if_free
acquire key ttl token t t' locks =
    let left = evict_expired t locks in grant_if_free (Dict.get left key) key ttl token t' left

-- The entry is the one that the handle was given for.
abbrev pub owns : LockHandle → Option InternalLock → Bool
owns h none = false
owns h (some l) = str_eq l.token h.token

unfoldable pub release : LockHandle → Locks → Locks
release h locks = if owns h (Dict.get locks h.key) then Dict.delete locks h.key else locks

prolong : LockHandle → ℕ → ℕ → Option InternalLock → Locks → Locks × (LockHandle × Bool)
prolong h ms now none locks = (locks, (h, false))
prolong h ms now (some l) locks =
    if str_eq l.token h.token
    then (
      Dict.set locks h.key (record l { expires_at = now + ms }),
      (record h { expires_at = now + ms }, true),
    )
    else (locks, (h, false))

-- `extend` changes the lock and the handle in place.
unfoldable pub extend : LockHandle → ℕ → ℕ → Locks → Locks × (LockHandle × Bool)
unfolding prolong
extend h ms now locks = prolong h ms now (Dict.get locks h.key) locks

-- One turn of the loop of `acquireWithRetry`: its three readings of the clock (the test of the
-- loop, the eviction, and those of the call of `acquire`), and what others do while it sleeps.
pub record Turn : Type 0 where
  pub at : ℕ
  pub evict_at : ℕ
  pub acquire_at : ℕ
  pub date_at : ℕ
  pub others : Locks → Locks

pub data Waited : Type 0 where
  granted : LockHandle → Waited
  gave_up : Waited
  still_waiting : Waited

waited : Option LockHandle → Waited
waited none = gave_up
waited (some h) = granted h

-- The loop of `acquireWithRetry`, for as many turns as are given.
unfoldable pub acquire_with_retry : String → ℕ → String → ℕ → List Turn → Locks → Locks × Waited
unfolding evict_expired acquire waited
acquire_with_retry key ttl token deadline [] locks = (locks, still_waiting)
acquire_with_retry key ttl token deadline (turn ∷ turns) locks =
    let left = evict_expired turn.evict_at locks in
    let again = acquire_with_retry key ttl token deadline turns (turn.others left) in
    let (locks', handle) = acquire key ttl token turn.acquire_at turn.date_at left in
    if ltb turn.at deadline
    then (if is_some (Dict.get left key) then again else (locks', waited handle))
    else (locks, gave_up)
