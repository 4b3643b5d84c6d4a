-- ===== src/Audit/Pipeline.antt =====
-- src/audit/impl/memory-pipeline.ts over the types of audit-pipeline.ts. A sink is its name and the
-- batches that it was handed, the latest last; how it ends is never looked at.
pub mod Delivery
pub mod Query
pub mod Tests
use openclaw_enterprise_plug.Common.{
  ℕ, suc, ◌+◌, String, ◌≡◌, Bool, true, false, ◌&&◌, Option, none, some, List, [], ◌∷◌, ◌++◌, map,
  filter, length, slice, sort, leb, ltb, ◌==◌, str_eq, if◌then◌else◌, or_else,
}
use openclaw_enterprise_plug.Audit.{AuditEvent, category_name, outcome_name}

pub record Sink : Type 0 where
  pub name : String
  pub batches : List (List AuditEvent)

pub record Pipeline : Type 0 where
  pub sinks : List Sink
  pub buffer : List AuditEvent
  pub total_emitted : ℕ
  pub all_events : List AuditEvent
  pub flush_interval : Bool
  pub lost_intervals : ℕ
  pub batch_size : ℕ

pub record AuditMetrics : Type 0 where
  pub buffered_events : ℕ
  pub total_emitted : ℕ
  pub sink_count : ℕ

pub record AuditQuery : Type 0 where
  pub from : Option ℕ
  pub to : Option ℕ
  pub category : Option String
  pub action : Option String
  pub actor_id : Option String
  pub outcome : Option String
  pub resource_type : Option String
  pub request_id : Option String
  pub offset : Option ℕ
  pub limit : Option ℕ

pub record PaginatedResult : Type 0 where
  pub items : List AuditEvent
  pub total : ℕ
  pub has_more : Bool

unfoldable pub new_pipeline : ℕ → Pipeline
new_pipeline batch_size = record {
  sinks = [];
  buffer = [];
  total_emitted = 0;
  all_events = [];
  flush_interval = false;
  lost_intervals = 0;
  batch_size = batch_size;
}

unfoldable pub register_sink : String → Pipeline → Pipeline
register_sink name p = record p { sinks = p.sinks ++ record { name = name; batches = [] } ∷ [] }

abbrev pub write_batch : List AuditEvent → Sink → Sink
write_batch batch s = record s { batches = s.batches ++ batch ∷ [] }

unfoldable pub flush : Pipeline → Pipeline
flush p =
    if length p.buffer == 0
    then p
    else record p { sinks = map (write_batch p.buffer) p.sinks; buffer = [] }

abbrev pub added : AuditEvent → Pipeline → Pipeline
added event p = record p {
  buffer = p.buffer ++ event ∷ [];
  all_events = p.all_events ++ event ∷ [];
  total_emitted = suc p.total_emitted;
}

unfoldable pub emit : AuditEvent → Pipeline → Pipeline
unfolding flush
emit event p = let q = added event p in if leb q.batch_size (length q.buffer) then flush q else q

-- A second `start` overwrites the handle of the interval that runs, which goes on.
unfoldable pub start : Pipeline → Pipeline
start p = record p {
  flush_interval = true;
  lost_intervals = if p.flush_interval then suc p.lost_intervals else p.lost_intervals;
}

-- An interval runs.
unfoldable pub has_interval : Pipeline → Bool
has_interval p = if p.flush_interval then true else ltb 0 p.lost_intervals

-- A tick of an interval.
unfoldable pub tick : Pipeline → Pipeline
unfolding flush has_interval
tick p = if has_interval p then flush p else p

unfoldable pub stop : Pipeline → Pipeline
unfolding flush
stop p = flush (record p { flush_interval = false })

unfoldable pub get_metrics : Pipeline → AuditMetrics
get_metrics p = record {
  buffered_events = length p.buffer;
  total_emitted = p.total_emitted;
  sink_count = length p.sinks;
}

-- A filter by a text: a missing or empty one lets everything through.
abbrev pub is_text : Option String → String → Bool
is_text none s = true
is_text (some t) s = if str_eq t "" then true else str_eq s t

abbrev pub is_from : Option ℕ → ℕ → Bool
is_from none t = true
is_from (some from) t = leb from t

abbrev pub is_to : Option ℕ → ℕ → Bool
is_to none t = true
is_to (some to) t = leb t to

-- The chain of filters.
unfoldable pub filtered : String → AuditQuery → List AuditEvent → List AuditEvent
filtered tenant q events =
    filter (λ e. is_text q.request_id e.source.request_id)
      (filter (λ e. is_text q.resource_type e.resource.kind)
        (filter (λ e. is_text q.outcome (outcome_name e.outcome))
          (filter (λ e. is_text q.actor_id e.actor.id)
            (filter (λ e. is_text q.action e.action)
              (filter (λ e. is_text q.category (category_name e.category))
                (filter (λ e. is_to q.to e.timestamp)
                  (filter (λ e. is_from q.from e.timestamp)
                    (filter (λ e. str_eq e.tenant_id tenant) events))))))))

-- The comparison of `sort` is at most 0: newest first.
abbrev pub no_older : AuditEvent → AuditEvent → Bool
no_older a b = leb b.timestamp a.timestamp

unfoldable pub query : String → AuditQuery → Pipeline → PaginatedResult
unfolding filtered
query tenant q p =
    let found = sort no_older (filtered tenant q p.all_events) in
    let offset = or_else q.offset 0 in
    let limit = or_else q.limit 50 in
    record {
      items = slice found offset limit;
      total = length found;
      has_more = ltb (offset + limit) (length found);
    }
