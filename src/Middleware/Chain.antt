-- ===== src/Middleware/Chain.antt =====
-- What the chain of stages runs, and what each stage adds to it.
use openclaw_enterprise_plug.Common.{
  ℕ, String, ◌≡◌, refl, ap, false, Option, none, some, List, [], ◌∷◌, ◌++◌, if_intro, leb, length,
  ◌==◌, arith, ◌↔◌, ◌⊎◌, inl, inr, true,
}
use openclaw_enterprise_plug.Common.Dict
use openclaw_enterprise_plug.Governance.Identity.{AuthResult, UserIdentity}
use openclaw_enterprise_plug.Audit.{AuditEvent, denied}
use openclaw_enterprise_plug.Audit.Pipeline.{Pipeline, added, emit, flush}
use openclaw_enterprise_plug.Middleware.{
  Exchange, Before, going, ending, throwing, End, returned, threw, Middleware, execute,
}
use openclaw_enterprise_plug.Middleware.Stages.{
  is_excluded, authn_stage, caught, bearer, with_identity,
}
use openclaw_enterprise_plug.Middleware.Services.{Moment, outcome_of, request_event, audit_stage}

-- The exchange that comes out of the stages, if all of them call `next`.
abbrev pub reach : List Middleware → Exchange → Option Exchange
reach [] x = some x
reach (m ∷ ms) x = elim (m.before x) [ going y ↦ reach ms y | ending y ↦ none | throwing y ↦ none ]

-- A stage that begins like this, in front of two chains of which the second stops where it does.
abbrev ran : Middleware → (Exchange → Exchange × End) → Exchange → Before → Exchange × End
ran m k x (going y) = let (z, e) = k y in m.after x z e
ran m k x (ending y) = (y, returned)
ran m k x (throwing y) = (y, threw)

ran_alike :
    (m : Middleware) (ms : List Middleware) (k k' : Exchange → Exchange × End) (x : Exchange)
    (b : Before)
    → ((y : Exchange) → reach ms y ≡ none → k y ≡ k' y)
    → elim b [ going y ↦ reach ms y | ending y ↦ none | throwing y ↦ none ] ≡ none
    → ran m k x b ≡ ran m k' x b
ran_alike m ms k k' x (going y) ih h = ap (λ r. m.after x r.0 r.1) (ih y h)
ran_alike m ms k k' x (ending y) ih h = refl
ran_alike m ms k k' x (throwing y) ih h = refl

-- If one of the first stages does not call `next`, none of the later ones is run.
pub execute-refused :
    (ms ks : List Middleware) (x : Exchange)
    → reach ms x ≡ none
    → execute (ms ++ ks) x ≡ execute ms x
unfolding execute
execute-refused [] ks x h = cc
execute-refused (m ∷ ms) ks x h =
    ran_alike m ms (execute (ms ++ ks)) (execute ms) x (m.before x) (execute-refused ms ks) h

emit-all_events :
    (event : AuditEvent) (p : Pipeline) → (emit event p).all_events ≡ p.all_events ++ event ∷ []
unfolding emit flush
emit-all_events event p =
    let q = added event p in
    if_intro (λ (r : Pipeline). r.all_events ≡ p.all_events ++ event ∷ [])
      (leb q.batch_size (length q.buffer))
      (λ _.
        if_intro (λ (r : Pipeline). r.all_events ≡ p.all_events ++ event ∷ [])
          (length q.buffer == 0) (λ _. refl) (λ _. refl))
      (λ _. refl)

outcome_of_denied :
    (status : ℕ) (e : End) → (outcome_of status e ≡ denied) ↔ ((e ≡ returned) × (status ≡ 403))
outcome_of_denied status returned = ground arith
outcome_of_denied status threw = ground arith

-- On a path that is not excluded, the audit stage emits exactly one event, after all stages behind
-- it and whether they threw or not, and leaves their response and their end as they are; the event's
-- outcome is `denied` if and only if they returned with the status 403.
pub execute-audit_stage :
    (m : Moment) (exclude_paths : List String) (ms : List Middleware) (x : Exchange)
    → is_excluded exclude_paths x ≡ false
    → let (y, e) = execute ms x in
      let (z, e') = execute (audit_stage m exclude_paths ∷ ms) x in
      (z.audit.all_events ≡ y.audit.all_events ++ request_event m y e ∷ [])
      × (z.response ≡ y.response)
      × (e' ≡ e)
      × (((request_event m y e).outcome ≡ denied)
          ↔ ((e ≡ returned) × (y.response.status_code ≡ 403)))
unfolding execute audit_stage request_event
execute-audit_stage m exclude_paths ms x h =
    let (y, e) = execute ms x in
    rw h (
      emit-all_events (request_event m y e) y.audit,
      refl,
      refl,
      outcome_of_denied y.response.status_code e,
    )

-- The answer is an error of the authentication service, and nothing else of the exchange changed.
abbrev pub IsAuthError : Exchange → Exchange → Type 0
IsAuthError y z =
    (z.response.status_code ≡ 500)
    × (z.response.body
        ≡ some (record {
          code = "AUTH_ERROR";
          message = "Authentication service unavailable";
          retry_after_ms = none;
        }))
    × (z.request ≡ y.request)
    × (z.limiter ≡ y.limiter)
    × (z.audit ≡ y.audit)

-- The later stages returned, and what they made of the exchange is left as it is, or they threw.
abbrev pub Guarded : Exchange × End → Exchange → Type 0
Guarded (y, e) z = ((e ≡ returned) × (z ≡ y)) ⊎ ((e ≡ threw) × IsAuthError y z)

caught-Guarded :
    (y : Exchange) (e : End) → ((caught y e).1 ≡ returned) × Guarded (y, e) (caught y e).0
caught-Guarded y returned = (refl, inl (refl, refl))
caught-Guarded y threw = (refl, inr (refl, (refl, refl, refl, refl, refl)))

-- On a path that is not excluded, for a bearer token that the provider accepts, the stages behind
-- the authentication are run with the identity that the provider gave, and the chain never throws:
-- if they return, what they made of the exchange is left as it is, and if any of them throws, the
-- answer is the status 500 with an error of the authentication service.
pub execute-authn_stage :
    (authenticate : String → Option AuthResult) (exclude_paths : List String) (ms : List Middleware)
    (x : Exchange) (token : String) (r : AuthResult) (i : UserIdentity)
    → is_excluded exclude_paths x ≡ false
    → bearer (Dict.get x.request.headers "authorization") ≡ some token
    → authenticate token ≡ some r
    → r.identity ≡ some i
    → r.authenticated ≡ true
    → let (z, e) = execute (authn_stage authenticate exclude_paths ∷ ms) x in
      (e ≡ returned) × Guarded (execute ms (with_identity i x)) z
unfolding execute authn_stage
execute-authn_stage authenticate exclude_paths ms x token r i n b a g ok =
    let (y, e) = execute ms (with_identity i x) in
    rw (execute, n, b, a, g, ok, n) (caught-Guarded y e)
