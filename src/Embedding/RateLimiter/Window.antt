-- ===== src/Embedding/RateLimiter/Window.antt =====
-- What the limiter promises: no more than the limit in one window, and when to come back.
use openclaw_enterprise_plug.Common.{
  ℕ, ◌+◌, ◌-◌, ◌≤◌, ◌<◌, String, ◌≡◌, ◌≢◌, refl, ap, true, false, not, ◌&&◌, none, some, List, [],
  ◌∷◌, arith, All, eq_iff, str_eq, if◌then◌else◌, inl, inr, Option-cases,
}
use openclaw_enterprise_plug.Common.Dict
use openclaw_enterprise_plug.Common.Dict.{
  IsUnique, get-set, get-delete, get-retain, get-set_self, set-IsUnique, retain-IsUnique,
  delete-IsUnique,
}
use openclaw_enterprise_plug.Embedding.RateLimiter.{
  RateLimitKey, WindowState, Limiter, composite_key, is_over, current, verdict, check, consume,
  reset, cleanup_expired,
}

-- `check` changes nothing and answers whether `consume` of one token would be allowed; a `consume`
-- that is refused changes nothing.
pub check-consume :
    (now : ℕ) (key : RateLimitKey) (tokens : ℕ) (l : Limiter)
    → ((check now key l).0 ≡ l)
      × ((check now key l).1.allowed ≡ (consume now key 1 l).1.allowed)
      × ((consume now key tokens l).1.allowed ≡ false → (consume now key tokens l).0 ≡ l)
unfolding check consume
check-consume now key tokens l = (refl, refl, λ h. rw h)

-- A refused request for no more than the limit is told how long to wait, and is allowed after
-- exactly that time if nobody else comes in between.
pub consume_after_retry :
    (now : ℕ) (key : RateLimitKey) (tokens : ℕ) (l : Limiter)
    → tokens ≤ l.default_limit
    → (consume now key tokens l).1.allowed ≡ false
    → (d : ℕ) × ((consume now key tokens l).1.retry_after_ms ≡ some d)
      × ((consume (now + d) key tokens (consume now key tokens l).0).1.allowed ≡ true)
unfolding consume
consume_after_retry now key tokens l h r =
    elim (Option-cases (Dict.get l.store (composite_key key))) [
      | inl n ↦ absurd (ground (arith, n))
      | inr (w, n) ↦
          (w.window_start + l.default_window_ms - now, ground (arith, n), ground (arith, n))
    ]

-- The operations of the limiter, with their readings of the clock.
pub data Operation : Type 0 where
  consuming : ℕ → RateLimitKey → ℕ → Operation
  checking : ℕ → RateLimitKey → Operation
  cleaning : ℕ → Operation
  resetting : RateLimitKey → Operation

unfoldable pub perform : Operation → Limiter → Limiter
perform (consuming now key tokens) l = (consume now key tokens l).0
perform (checking now key) l = (check now key l).0
perform (cleaning now) l = cleanup_expired now l
perform (resetting key) l = reset key l

-- The tokens that an operation grants to the keys with the given composite key.
unfoldable pub granted_by : String → Operation → Limiter → ℕ
granted_by ck (consuming now key tokens) l =
    if str_eq (composite_key key) ck && (consume now key tokens l).1.allowed then tokens else 0
granted_by ck _ l = 0

unfoldable pub granted : String → List Operation → Limiter → ℕ
granted ck [] l = 0
granted ck (o ∷ os) l = granted_by ck o l + granted ck os (perform o l)

-- Before the end of the window, and no reset of it.
abbrev pub IsInside : String → ℕ → Operation → Type 0
IsInside ck end (consuming now key tokens) = now < end
IsInside ck end (checking now key) = Unit
IsInside ck end (cleaning now) = now < end
IsInside ck end (resetting key) = composite_key key ≢ ck

-- The window of a composite key, with what it has counted.
record Counts (ck : String) (start n limit window : ℕ) (l : Limiter) : Type 0 where
  entry : Dict.get l.store ck ≡ some (record { count = n; window_start = start })
  within : n ≤ limit
  limited : l.default_limit ≡ limit
  windowed : l.default_window_ms ≡ window
  unique : IsUnique l.store

module _ (ck : String) (start n limit window : ℕ) (l : Limiter)
    (c : Counts ck start n limit window l) where
  open c use {entry, within, limited, windowed, unique}

  consume-Counts :
      (now : ℕ) (key : RateLimitKey) (tokens : ℕ)
      → now < start + window
      → Counts ck start
          (n + granted_by ck (consuming now key tokens) l)
          limit
          window
          (consume now key tokens l).0
  unfolding granted_by consume
  consume-Counts now key tokens h =
      let k = composite_key key in
      let w = current l.default_window_ms now (Dict.get l.store k) in
      let v = record w { count = w.count + tokens } in
      record {
        entry =
            ground (arith, get-set l.store k v ck, eq_iff k ck, entry, within, limited, windowed);
        within = ground (arith, eq_iff k ck, entry, within, limited, windowed);
        limited = limited;
        windowed = windowed;
        unique = ground (arith, set-IsUnique l.store k v unique, unique);
      }

  perform-Counts :
      (o : Operation)
      → IsInside ck (start + window) o
      → Counts ck start (n + granted_by ck o l) limit window (perform o l)
  unfolding perform granted_by check cleanup_expired reset
  perform-Counts (consuming now key tokens) h = consume-Counts now key tokens h
  perform-Counts (checking now key) h = ground (arith, c)
  perform-Counts (cleaning now) h = record {
    entry = ground (
      arith,
      get-retain (λ w. not (is_over l.default_window_ms now w)) l.store ck unique,
      entry,
      windowed,
    );
    within = omega arith;
    limited = limited;
    windowed = windowed;
    unique = retain-IsUnique (λ w. not (is_over l.default_window_ms now w)) l.store unique;
  }
  perform-Counts (resetting key) h = record {
    entry =
        ground
          (arith, get-delete l.store (composite_key key) ck, eq_iff (composite_key key) ck, entry);
    within = omega arith;
    limited = limited;
    windowed = windowed;
    unique = delete-IsUnique l.store (composite_key key) unique;
  }

granted-le :
    (ck : String) (start n limit window : ℕ) (os : List Operation) (l : Limiter)
    → Counts ck start n limit window l
    → All (IsInside ck (start + window)) os
    → n + granted ck os l ≤ limit
unfolding granted
granted-le ck start n limit window [] l c h = omega (arith, c.within)
granted-le ck start n limit window (o ∷ os) l c h = omega (
  arith,
  granted-le ck start (n + granted_by ck o l) limit window os (perform o l)
      (perform-Counts ck start n limit window l c o h.0) h.1,
)

-- The entry of the key is missing or its window is over, so that a request at `now` opens a window.
abbrev pub Opens : ℕ → RateLimitKey → Limiter → Type 0
Opens now key l =
    Dict.kept (λ w. not (is_over l.default_window_ms now w)) (Dict.get l.store (composite_key key))
    ≡ none

consume_first :
    (now : ℕ) (key : RateLimitKey) (tokens : ℕ) (l : Limiter)
    → IsUnique l.store
    → Opens now key l
    → (consume now key tokens l).1.allowed ≡ true
    → Counts
        (composite_key key)
        now
        tokens
        l.default_limit
        l.default_window_ms
        (consume now key tokens l).0
unfolding consume
consume_first now key tokens l u o h =
    let k = composite_key key in
    let v : WindowState = record { count = tokens; window_start = now } in
    elim (Option-cases (Dict.get l.store k)) [
      | inl n ↦ record {
        entry = ground (arith, n, get-set_self l.store k v);
        within = ground (arith, n);
        limited = refl;
        windowed = refl;
        unique = ground (arith, n, set-IsUnique l.store k v u);
      }
      | inr (w, n) ↦ record {
        entry = ground (arith, n, o, get-set_self l.store k v);
        within = ground (arith, n, o);
        limited = refl;
        windowed = refl;
        unique = ground (arith, n, o, set-IsUnique l.store k v u);
      }
    ]

-- In the window that a granted request opens, the tokens granted to its composite key, by that
-- request and by all that come before the window ends, never exceed the limit, whatever the other
-- keys do and whenever the cleanup runs, as long as nobody resets the key.
pub window_limit :
    (now : ℕ) (key : RateLimitKey) (tokens : ℕ) (l : Limiter) (os : List Operation)
    → IsUnique l.store
    → Opens now key l
    → (consume now key tokens l).1.allowed ≡ true
    → All (IsInside (composite_key key) (now + l.default_window_ms)) os
    → tokens + granted (composite_key key) os (consume now key tokens l).0 ≤ l.default_limit
window_limit now key tokens l os u o a h =
    granted-le (composite_key key) now tokens l.default_limit l.default_window_ms os
      (consume now key tokens l).0 (consume_first now key tokens l u o a) h

-- The cleanup is never noticed: a later request gets the answer that it would have got without it.
pub consume-cleanup_expired :
    (now later : ℕ) (key : RateLimitKey) (tokens : ℕ) (l : Limiter)
    → IsUnique l.store
    → now ≤ later
    → (consume later key tokens (cleanup_expired now l)).1 ≡ (consume later key tokens l).1
unfolding consume cleanup_expired
consume-cleanup_expired now later key tokens l u h =
    let k = composite_key key in
    let keep = λ (w : WindowState). not (is_over l.default_window_ms now w) in
    let e : current l.default_window_ms later (Dict.get (Dict.retain keep l.store) k)
        ≡ current l.default_window_ms later (Dict.get l.store k) =
      ground (arith, get-retain keep l.store k u) in
    ap (verdict l.default_limit l.default_window_ms later tokens) e
