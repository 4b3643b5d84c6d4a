-- ===== src/Audit/Pipeline/Tests.antt =====
-- The pipeline at concrete inputs.
use openclaw_enterprise_plug.Common.{
  slice, List, ℕ, ◌+◌, ◌<◌, String, ◌≡◌, refl, ◌↔◌, ◌++◌, none, some, [], ◌∷◌, length, filter, All,
  get_elem?, or_else, true, false, arith,
}
use openclaw_enterprise_plug.Audit.{AuditEvent, config_change, success, user}
use openclaw_enterprise_plug.Audit.Pipeline.{Sink, Pipeline, AuditQuery, query, new_pipeline}
use openclaw_enterprise_plug.Audit.Pipeline.Query.{IsFound, answers, query_lem}
use openclaw_enterprise_plug.Audit.Pipeline.Delivery.{
  registering, emitting, starting, ticking, stopping, perform_all, emitted, received,
  perform_all-received, perform_all-buffer, unstarted_silent,
}

abbrev pub event : String → String → ℕ → AuditEvent
event id tenant time = record {
  id = id;
  timestamp = time;
  version = "1.0";
  tenant_id = tenant;
  actor = record { kind = user; id = "alice"; name = none; ip = none; user_agent = none };
  action = "config.update";
  category = config_change;
  outcome = success;
  resource = record { kind = "config"; id = none; name = none; tenant_id = tenant };
  source = record { service = "api"; instance_name = none; request_id = "r1" };
  details = none;
  duration = none;
  error = none;
}

abbrev e1 : AuditEvent
e1 = event "e1" "acme" 10

abbrev e2 : AuditEvent
e2 = event "e2" "globex" 20

abbrev e3 : AuditEvent
e3 = event "e3" "acme" 30

abbrev one_sink : Pipeline
one_sink = record {
  sinks = record { name = "storage"; batches = [] } ∷ [];
  buffer = e1 ∷ [];
  total_emitted = 1;
  all_events = e1 ∷ [];
  flush_interval = false;
  lost_intervals = 0;
  batch_size = 2;
}

abbrev three : Pipeline
three = record one_sink { all_events = e1 ∷ e2 ∷ e3 ∷ [] }

abbrev latest : AuditQuery
latest = record {
  from = some 5;
  to = none;
  category = some "config_change";
  action = none;
  actor_id = some "";
  outcome = none;
  resource_type = none;
  request_id = none;
  offset = none;
  limit = some 1;
}

perform_all-received_example :
    (s' : Sink) × (get_elem?
        (perform_all (emitting e2 ∷ emitting e3 ∷ stopping ∷ []) one_sink).sinks
        0
      ≡ some s')
    × (received s' (perform_all (emitting e2 ∷ emitting e3 ∷ stopping ∷ []) one_sink)
        ≡ (e1 ∷ []) ++ emitted (emitting e2 ∷ emitting e3 ∷ stopping ∷ []))
perform_all-received_example =
    perform_all-received (emitting e2 ∷ emitting e3 ∷ stopping ∷ []) one_sink 0
      (record { name = "storage"; batches = [] }) refl

perform_all-buffer_run :
    length
      (perform_all (emitting e1 ∷ starting ∷ emitting e2 ∷ ticking ∷ []) (new_pipeline 2)).buffer
    < 2
perform_all-buffer_run =
    perform_all-buffer (emitting e1 ∷ starting ∷ emitting e2 ∷ ticking ∷ []) 2 (omega arith)

unstarted_silent_example :
    All
      (λ s. s.batches ≡ [])
      (perform_all
        (registering "log" ∷ emitting e1 ∷ ticking ∷ emitting e2 ∷ [])
        (new_pipeline 100)).sinks
unstarted_silent_example =
    unstarted_silent (registering "log" ∷ emitting e1 ∷ ticking ∷ emitting e2 ∷ []) 100
      (tt, (tt, (tt, (tt, tt)))) (omega arith)

query_lem_example :
    let r = query "acme" latest three in
    (found : List AuditEvent) × IsFound "acme" latest three.all_events found
    × (r.items ≡ slice found (or_else latest.offset 0) (or_else latest.limit 50))
    × (r.total ≡ length (filter (answers "acme" latest) three.all_events))
    × ((r.has_more ≡ true) ↔ (or_else latest.offset 0 + or_else latest.limit 50 < r.total))
query_lem_example = query_lem "acme" latest three

query_run : query "acme" latest three ≡ record { items = e3 ∷ []; total = 2; has_more = true }
unfolding query
query_run = refl
