-- ===== src/Audit/Pipeline/Query.antt =====
-- What a query of the pipeline answers, against one test for all its filters.
use openclaw_enterprise_plug.Common.{
  ℕ, ◌+◌, ◌≤◌, ◌<◌, String, ◌≡◌, refl, ap, ◌∙◌, ◌↔◌, ◌⊎◌, Bool, true, ◌&&◌, Option, none, some,
  List, [], ◌∷◌, filter, slice, length, sort, All, filter-All, All-map, str_eq, eq_iff, or_else,
  arith,
}
use openclaw_enterprise_plug.Common.Sorting.{
  length-sort, All-sort, IsSorted, IsOrder, sort-IsSorted, count, count-sort,
}
use openclaw_enterprise_plug.Audit.{AuditEvent, category_name, outcome_name}
use openclaw_enterprise_plug.Audit.Pipeline.{
  Pipeline, AuditQuery, is_text, is_from, is_to, filtered, no_older, query,
}

-- The filter is not given, or empty, or it is the text.
abbrev pub IsText : Option String → String → Type 0
IsText none s = Unit
IsText (some t) s = (t ≡ "") ⊎ (s ≡ t)

abbrev pub IsFrom : Option ℕ → ℕ → Type 0
IsFrom none t = Unit
IsFrom (some from) t = from ≤ t

abbrev pub IsTo : Option ℕ → ℕ → Type 0
IsTo none t = Unit
IsTo (some to) t = t ≤ to

-- An event of the tenant that passes every filter that is given.
abbrev pub IsAnswer : String → AuditQuery → AuditEvent → Type 0
IsAnswer tenant q e =
    (e.tenant_id ≡ tenant)
    × IsFrom q.from e.timestamp
    × IsTo q.to e.timestamp
    × IsText q.category (category_name e.category)
    × IsText q.action e.action
    × IsText q.actor_id e.actor.id
    × IsText q.outcome (outcome_name e.outcome)
    × IsText q.resource_type e.resource.kind
    × IsText q.request_id e.source.request_id

is_text_iff : (o : Option String) (s : String) → (is_text o s ≡ true) ↔ IsText o s
is_text_iff none s = ((λ _. tt), (λ _. refl))
is_text_iff (some t) s = ground (arith, eq_iff t "", eq_iff s t)

is_from_iff : (o : Option ℕ) (t : ℕ) → (is_from o t ≡ true) ↔ IsFrom o t
is_from_iff none t = ((λ _. tt), (λ _. refl))
is_from_iff (some from) t = ground arith

is_to_iff : (o : Option ℕ) (t : ℕ) → (is_to o t ≡ true) ↔ IsTo o t
is_to_iff none t = ((λ _. tt), (λ _. refl))
is_to_iff (some to) t = ground arith

-- One test for all filters.
unfoldable pub answers : String → AuditQuery → AuditEvent → Bool
answers tenant q e =
    (((((((str_eq e.tenant_id tenant && is_from q.from e.timestamp) && is_to q.to e.timestamp)
              && is_text q.category (category_name e.category))
            && is_text q.action e.action)
          && is_text q.actor_id e.actor.id)
        && is_text q.outcome (outcome_name e.outcome))
      && is_text q.resource_type e.resource.kind)
    && is_text q.request_id e.source.request_id

and_iff {ℓ κ} :
    {a b : Bool} {P : Type ℓ} {Q : Type κ}
    → ((a ≡ true) ↔ P)
    → ((b ≡ true) ↔ Q)
    → ((a && b) ≡ true) ↔ (P × Q)
and_iff {a} {b} f g = (
  (λ h. (f.0 (ground (arith, h)), g.0 (ground (arith, h)))),
  (λ h. (let x = f.1 h.0 in let y = g.1 h.1 in ground (arith, x, y))),
)

-- The test decides what an answer is.
pub answers_iff :
    (tenant : String) (q : AuditQuery) (e : AuditEvent)
    → (answers tenant q e ≡ true) ↔ IsAnswer tenant q e
unfolding answers
answers_iff tenant q e =
    let from = and_iff (eq_iff e.tenant_id tenant) (is_from_iff q.from e.timestamp) in
    let to = and_iff from (is_to_iff q.to e.timestamp) in
    let category = and_iff to (is_text_iff q.category (category_name e.category)) in
    let action = and_iff category (is_text_iff q.action e.action) in
    let actor = and_iff action (is_text_iff q.actor_id e.actor.id) in
    let outcome = and_iff actor (is_text_iff q.outcome (outcome_name e.outcome)) in
    let resource = and_iff outcome (is_text_iff q.resource_type e.resource.kind) in
    let all = and_iff resource (is_text_iff q.request_id e.source.request_id) in
    (
      λ h. let ((((((((a, b), c), d), e'), f), g), i), j) = all.0 h in (a, b, c, d, e', f, g, i, j),
      λ (a, b, c, d, e', f, g, i, j). all.1 ((((((((a, b), c), d), e'), f), g), i), j),
    )

filter-filter :
    (f g : AuditEvent → Bool) (l : List AuditEvent)
    → filter g (filter f l) ≡ filter (λ e. f e && g e) l
filter-filter f g [] = refl
filter-filter f g (x ∷ l) = ground (arith, filter-filter f g l)

filtered_once :
    (tenant : String) (q : AuditQuery) (events : List AuditEvent)
    → filtered tenant q events ≡ filter (answers tenant q) events
unfolding filtered answers
filtered_once tenant q events = simp (filter-filter)

no_older-IsOrder : IsOrder no_older
no_older-IsOrder = ((λ x y h. ground (arith, h)), (λ x y z h k. ground (arith, h, k)))

-- All events that a query finds, the newest first: those emitted that pass its test, each as often.
abbrev pub IsFound : String → AuditQuery → List AuditEvent → List AuditEvent → Type 0
IsFound tenant q emitted found =
    IsSorted no_older found
    × All (IsAnswer tenant q) found
    × ((p : AuditEvent → Bool) → count p found ≡ count p (filter (answers tenant q) emitted))

-- A query answers a page of all events that were emitted, are of the tenant and pass every filter
-- given, the newest first and each as often as it was emitted: from the offset on, up to the limit,
-- which are 0 and 50 where they are not given. The total is the number of all of them, and there are
-- more if and only if the page ends before it.
pub query_lem :
    (tenant : String) (q : AuditQuery) (p : Pipeline)
    → let r = query tenant q p in
      (found : List AuditEvent) × IsFound tenant q p.all_events found
      × (r.items ≡ slice found (or_else q.offset 0) (or_else q.limit 50))
      × (r.total ≡ length (filter (answers tenant q) p.all_events))
      × ((r.has_more ≡ true) ↔ (or_else q.offset 0 + or_else q.limit 50 < r.total))
unfolding query
query_lem tenant q p =
    let events = filtered tenant q p.all_events in
    let once = filtered_once tenant q p.all_events in
    let right : All (IsAnswer tenant q) events = rw once (
      All-map (λ e. answers tenant q e ≡ true) (IsAnswer tenant q)
        (filter (answers tenant q) p.all_events) (λ e. (answers_iff tenant q e).0)
        (filter-All (answers tenant q) p.all_events)) in
    (
      sort no_older events,
      (
        sort-IsSorted no_older no_older-IsOrder events,
        All-sort (IsAnswer tenant q) no_older events right,
        λ f. count-sort no_older f events ∙ ap (count f) once,
      ),
      refl,
      length-sort no_older events ∙ ap length once,
      ground arith,
    )
