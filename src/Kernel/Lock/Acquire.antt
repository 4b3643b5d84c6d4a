-- ===== src/Kernel/Lock/Acquire.antt =====
-- What `acquire` does, on a free key and on a taken one, and what a stale handle can do: nothing.
use openclaw_enterprise_plug.Common.{
  ℕ, ◌+◌, ◌<◌, String, ◌≡◌, ◌≢◌, refl, ◌∙◌, ◌↔◌, true, false, Option, none, some, arith, eq_iff,
  if◌then◌else◌, inl, inr, Option-cases, is_some,
}
use openclaw_enterprise_plug.Common.Dict
use openclaw_enterprise_plug.Common.Dict.{
  Dict, IsUnique, get-set, get-set_self, get-delete, get-retain, set-IsUnique, delete-IsUnique,
  retain-IsUnique,
}
use openclaw_enterprise_plug.Kernel.Lock.{
  InternalLock, LockHandle, Locks, is_held, evict_expired, acquire, owns, release, extend,
}

-- What reads a key after the eviction at `t`.
pub get-evict :
    (t : ℕ) (locks : Locks) (key : String)
    → IsUnique locks
    → Dict.get (evict_expired t locks) key ≡ Dict.kept (is_held t) (Dict.get locks key)
unfolding evict_expired
get-evict t locks key u = get-retain (is_held t) locks key u

pub evict_keeps :
    (t : ℕ) (locks : Locks) (key : String) (l : InternalLock)
    → IsUnique locks
    → Dict.get locks key ≡ some l
    → t < l.expires_at
    → Dict.get (evict_expired t locks) key ≡ some l
evict_keeps t locks key l u e h = ground (arith, get-evict t locks key u)

pub evict-IsUnique : (t : ℕ) (locks : Locks) → IsUnique locks → IsUnique (evict_expired t locks)
unfolding evict_expired
evict-IsUnique t locks u = retain-IsUnique (is_held t) locks u

abbrev pub entry : String → ℕ → String → ℕ → InternalLock
entry key ttl token t' = record {
  key = key;
  token = token;
  holder_id = "local";
  expires_at = t' + ttl;
}

abbrev pub handle : String → ℕ → String → ℕ → LockHandle
handle key ttl token t' = record { key = key; token = token; expires_at = t' + ttl }

pub acquire_free :
    (key : String) (ttl : ℕ) (token : String) (t t' : ℕ) (locks : Locks)
    → Dict.get (evict_expired t locks) key ≡ none
    → acquire key ttl token t t' locks ≡ (
      Dict.set (evict_expired t locks) key (entry key ttl token t'),
      some (handle key ttl token t'),
    )
unfolding acquire
acquire_free key ttl token t t' locks g = rw g

pub acquire_taken :
    (key : String) (ttl : ℕ) (token : String) (t t' : ℕ) (locks : Locks) (l : InternalLock)
    → Dict.get (evict_expired t locks) key ≡ some l
    → acquire key ttl token t t' locks ≡ (evict_expired t locks, none)
unfolding acquire
acquire_taken key ttl token t t' locks l g = rw g

-- The live entry of a key, at a time.
abbrev pub held_at : ℕ → Locks → String → Option InternalLock
held_at t locks key = Dict.kept (is_held t) (Dict.get locks key)

-- `acquire` succeeds exactly if no lock on the key is unexpired when it looks; it then stores its
-- own token and the date `ttlMs` ahead, and every key that is not its own reads what was unexpired.
pub acquire_iff :
    (key : String) (ttl : ℕ) (token : String) (t t' : ℕ) (locks : Locks)
    → IsUnique locks
    → let (locks', h) = acquire key ttl token t t' locks in
      ((is_some h ≡ true) ↔ (held_at t locks key ≡ none))
      × (Dict.get locks' key
          ≡ (if is_some h then some (entry key ttl token t') else held_at t locks key))
      × ((other : String) → other ≢ key → Dict.get locks' other ≡ held_at t locks other)
acquire_iff key ttl token t t' locks u =
    let left = evict_expired t locks in
    let v = entry key ttl token t' in
    elim (Option-cases (held_at t locks key)) [
      | inl n ↦ rw (acquire_free key ttl token t t' locks (get-evict t locks key u ∙ n)) (
        (λ _. n, λ _. refl),
        get-set_self left key v,
        λ other d.
            ground (arith, get-set left key v other, eq_iff key other, get-evict t locks other u),
      )
      | inr (l, n) ↦
          rw (acquire_taken key ttl token t t' locks l (get-evict t locks key u ∙ n))
            ((λ e. cc, λ e. cc), get-evict t locks key u, λ other d. get-evict t locks other u)
    ]

pub acquire-IsUnique :
    (key : String) (ttl : ℕ) (token : String) (t t' : ℕ) (locks : Locks)
    → IsUnique locks
    → IsUnique (acquire key ttl token t t' locks).0
acquire-IsUnique key ttl token t t' locks u =
    let left = evict_expired t locks in
    elim (Option-cases (Dict.get left key)) [
      | inl n ↦
          rw (acquire_free key ttl token t t' locks n)
            (set-IsUnique left key (entry key ttl token t') (evict-IsUnique t locks u))
      | inr (l, n) ↦ rw (acquire_taken key ttl token t t' locks l n) (evict-IsUnique t locks u)
    ]

-- A handle whose token is not that of the entry (a lock that expired and went to another) changes
-- nothing, neither by `release` nor by `extend`.
pub stale_handle :
    (h : LockHandle) (ms now : ℕ) (locks : Locks)
    → owns h (Dict.get locks h.key) ≡ false
    → (release h locks ≡ locks) × (extend h ms now locks ≡ (locks, (h, false)))
unfolding release extend
stale_handle h ms now locks o = (rw o, ground (arith, Option-cases (Dict.get locks h.key)))
