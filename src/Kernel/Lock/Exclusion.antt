-- ===== src/Kernel/Lock/Exclusion.antt =====
-- A lock is held by one token at a time, until it expires or its holder releases it.
use openclaw_enterprise_plug.Common.{
  ℕ, ◌+◌, ◌<◌, String, ◌≡◌, ◌≢◌, refl, ap, ◌∙◌, ◌⊎◌, true, false, none, some, List, [], ◌∷◌, arith,
  All, eq_iff, str_eq, inl, inr, Option-cases, Bool-cases, is_some,
}
use openclaw_enterprise_plug.Common.Dict
use openclaw_enterprise_plug.Common.Dict.{
  Dict, IsUnique, get-set, get-set_self, get-delete, get-retain, set-IsUnique, delete-IsUnique,
  retain-IsUnique,
}
use openclaw_enterprise_plug.Kernel.Lock.{
  InternalLock, LockHandle, Locks, evict_expired, acquire, owns, release, prolong, extend,
}
use openclaw_enterprise_plug.Kernel.Lock.Acquire.{
  evict_keeps, evict-IsUnique, entry, handle, acquire_free, acquire_taken, acquire_iff,
  acquire-IsUnique, stale_handle,
}

-- The operations of one backend, with their readings of the clock.
pub data Operation : Type 0 where
  acquiring : String → ℕ → String → ℕ → ℕ → Operation
  releasing : LockHandle → Operation
  extending : LockHandle → ℕ → ℕ → Operation
  evicting : ℕ → Operation

unfoldable pub perform : Operation → Locks → Locks
perform (acquiring key ttl token t t') locks = (acquire key ttl token t t' locks).0
perform (releasing h) locks = release h locks
perform (extending h ms now) locks = (extend h ms now locks).0
perform (evicting now) locks = evict_expired now locks

unfoldable pub perform_all : List Operation → Locks → Locks
perform_all [] locks = locks
perform_all (o ∷ os) locks = perform_all os (perform o locks)

-- An operation of somebody who does not hold the lock, while it has not expired.
abbrev pub IsForeign : String → InternalLock → Operation → Type 0
IsForeign key l (acquiring k ttl token t t') = t < l.expires_at
IsForeign key l (releasing h) = (h.key ≢ key) ⊎ (h.token ≢ l.token)
IsForeign key l (extending h ms now) = (h.key ≢ key) ⊎ (h.token ≢ l.token)
IsForeign key l (evicting now) = now < l.expires_at

extend-IsUnique :
    (h : LockHandle) (ms now : ℕ) (locks : Locks)
    → IsUnique locks
    → IsUnique (extend h ms now locks).0
unfolding extend
extend-IsUnique h ms now locks u = elim (Option-cases (Dict.get locks h.key)) [
  | inl n ↦ rw (n, prolong) u
  | inr (l, n) ↦ elim (Bool-cases (str_eq l.token h.token)) [
    | inl b ↦ rw (n, prolong, b) (set-IsUnique locks h.key (record l { expires_at = now + ms }) u)
    | inr b ↦ rw (n, prolong, b) u
  ]
]

perform-IsUnique : (o : Operation) (locks : Locks) → IsUnique locks → IsUnique (perform o locks)
unfolding perform release
perform-IsUnique (acquiring key ttl token t t') locks u =
    acquire-IsUnique key ttl token t t' locks u
perform-IsUnique (releasing h) locks u = ground (arith, delete-IsUnique locks h.key u)
perform-IsUnique (extending h ms now) locks u = extend-IsUnique h ms now locks u
perform-IsUnique (evicting now) locks u = evict-IsUnique now locks u

-- The handle of somebody else does not own the entry, or is for another key.
foreign :
    (h : LockHandle) (locks : Locks) (key : String) (l : InternalLock)
    → Dict.get locks key ≡ some l
    → (h.key ≢ key) ⊎ (h.token ≢ l.token)
    → (owns h (Dict.get locks h.key) ≡ false) ⊎ (str_eq h.key key ≡ false)
foreign h locks key l e (inl d) = inr (ground (arith, eq_iff h.key key))
foreign h locks key l e (inr d) = elim (Bool-cases (str_eq h.key key)) [
  | inl b ↦
      let k : h.key ≡ key = (eq_iff h.key key).0 b in
      inl (rw (k, e) (ground (arith, eq_iff l.token h.token)))
  | inr b ↦ inr b
]

extend_keeps :
    (h : LockHandle) (ms now : ℕ) (locks : Locks) (key : String)
    → str_eq h.key key ≡ false
    → Dict.get (extend h ms now locks).0 key ≡ Dict.get locks key
unfolding extend
extend_keeps h ms now locks key b = elim (Option-cases (Dict.get locks h.key)) [
  | inl n ↦ rw (n, prolong)
  | inr (l, n) ↦ elim (Bool-cases (str_eq l.token h.token)) [
    | inl c ↦
        rw (n, prolong, c)
          (ground (arith, get-set locks h.key (record l { expires_at = now + ms }) key))
    | inr c ↦ rw (n, prolong, c)
  ]
]

acquire_keeps :
    (k : String) (ttl : ℕ) (token : String) (t t' : ℕ) (locks : Locks) (key : String)
    (l : InternalLock)
    → IsUnique locks
    → Dict.get locks key ≡ some l
    → t < l.expires_at
    → Dict.get (acquire k ttl token t t' locks).0 key ≡ some l
acquire_keeps k ttl token t t' locks key l u e f =
    let g = evict_keeps t locks key l u e f in
    elim (Option-cases (Dict.get (evict_expired t locks) k)) [
      | inl n ↦ rw (acquire_free k ttl token t t' locks n) (
          ground (
            arith,
            get-set (evict_expired t locks) k (entry k ttl token t') key,
            eq_iff k key,
            n,
            g,
          ))
      | inr (m, n) ↦ rw (acquire_taken k ttl token t t' locks m n) g
    ]

release_keeps :
    (h : LockHandle) (locks : Locks) (key : String) (l : InternalLock)
    → Dict.get locks key ≡ some l
    → (owns h (Dict.get locks h.key) ≡ false) ⊎ (str_eq h.key key ≡ false)
    → Dict.get (release h locks) key ≡ some l
unfolding release
release_keeps h locks key l e f = ground (arith, get-delete locks h.key key, f)

extend_keeps_foreign :
    (h : LockHandle) (ms now : ℕ) (locks : Locks) (key : String) (l : InternalLock)
    → Dict.get locks key ≡ some l
    → (owns h (Dict.get locks h.key) ≡ false) ⊎ (str_eq h.key key ≡ false)
    → Dict.get (extend h ms now locks).0 key ≡ some l
extend_keeps_foreign h ms now locks key l e (inl o) = rw (stale_handle h ms now locks o).1 e
extend_keeps_foreign h ms now locks key l e (inr b) = extend_keeps h ms now locks key b ∙ e

perform_keeps :
    (o : Operation) (locks : Locks) (key : String) (l : InternalLock)
    → IsUnique locks
    → Dict.get locks key ≡ some l
    → IsForeign key l o
    → Dict.get (perform o locks) key ≡ some l
unfolding perform
perform_keeps (acquiring k ttl token t t') locks key l u e f =
    acquire_keeps k ttl token t t' locks key l u e f
perform_keeps (releasing h) locks key l u e f =
    release_keeps h locks key l e (foreign h locks key l e f)
perform_keeps (extending h ms now) locks key l u e f =
    extend_keeps_foreign h ms now locks key l e (foreign h locks key l e f)
perform_keeps (evicting now) locks key l u e f = evict_keeps now locks key l u e f

perform_all_keeps :
    (os : List Operation) (locks : Locks) (key : String) (l : InternalLock)
    → IsUnique locks
    → Dict.get locks key ≡ some l
    → All (IsForeign key l) os
    → (Dict.get (perform_all os locks) key ≡ some l) × IsUnique (perform_all os locks)
unfolding perform_all
perform_all_keeps [] locks key l u e f = (e, u)
perform_all_keeps (o ∷ os) locks key l u e f =
    perform_all_keeps os (perform o locks) key l (perform-IsUnique o locks u)
      (perform_keeps o locks key l u e f.0) f.1

-- Mutual exclusion: once a lock has been acquired, whatever others do before it expires (acquire any
-- key, release or extend by handles for other keys or with other tokens, evict), an `acquire` of its
-- key is refused as long as it has not expired, and its holder's `release` still finds it.
pub acquire_exclusive :
    (key : String) (ttl : ℕ) (token : String) (t t' : ℕ) (locks : Locks) (h : LockHandle)
    (os : List Operation) (ttl' : ℕ) (token' : String) (s s' : ℕ)
    → IsUnique locks
    → (acquire key ttl token t t' locks).1 ≡ some h
    → All (IsForeign key (entry key ttl token t')) os
    → s < t' + ttl
    → let after = perform_all os (acquire key ttl token t t' locks).0 in
      ((acquire key ttl' token' s s' after).1 ≡ none) × (owns h (Dict.get after key) ≡ true)
acquire_exclusive key ttl token t t' locks h os ttl' token' s s' u e f b =
    let v = entry key ttl token t' in
    elim (Option-cases (Dict.get (evict_expired t locks) key)) [
      | inl n ↦
          let a = acquire_free key ttl token t t' locks n in
          let k : h ≡ handle key ttl token t' = ground (arith, a) in
          let first : Dict.get (acquire key ttl token t t' locks).0 key ≡ some v =
            rw a (get-set_self (evict_expired t locks) key v) in
          let (g, w) =
            perform_all_keeps os (acquire key ttl token t t' locks).0 key v
              (acquire-IsUnique key ttl token t t' locks u) first f in
          let after = perform_all os (acquire key ttl token t t' locks).0 in
          (
            ap (λ r. r.1)
                (acquire_taken key ttl' token' s s' after v (evict_keeps s after key v w g b)),
            rw (g, k) ((eq_iff token token).1 refl),
          )
      | inr (l, n) ↦ absurd (cc (acquire_taken key ttl token t t' locks l n, e))
    ]

released :
    (h : LockHandle) (locks : Locks)
    → owns h (Dict.get locks h.key) ≡ true
    → release h locks ≡ Dict.delete locks h.key
unfolding release
released h locks o = rw o

-- The holder's `release` frees the key: the next `acquire` succeeds, whenever it comes.
pub release-acquire :
    (h : LockHandle) (ttl : ℕ) (token : String) (t t' : ℕ) (locks : Locks)
    → IsUnique locks
    → owns h (Dict.get locks h.key) ≡ true
    → is_some (acquire h.key ttl token t t' (release h locks)).1 ≡ true
release-acquire h ttl token t t' locks u o =
    let empty : Dict.get (Dict.delete locks h.key) h.key ≡ none =
      ground (arith, get-delete locks h.key h.key, eq_iff h.key h.key) in
    rw (released h locks o) (
      (acquire_iff h.key ttl token t t' (Dict.delete locks h.key)
          (delete-IsUnique locks h.key u)).0.1
        (rw empty))
