-- ===== src/Collaboration/Handoff/Tests.antt =====
-- Runs of hand-overs on the memory storage.
use openclaw_enterprise_plug.Common.{◌≡◌, ◌⊎◌, refl, inl, none, some, List, [], ◌∷◌}
use openclaw_enterprise_plug.Common.Dict
use openclaw_enterprise_plug.Kernel.Storage.{Store}
use openclaw_enterprise_plug.Kernel.Storage.Interface.{StorageBackend}
use openclaw_enterprise_plug.Kernel.Storage.Laws.{memory_backend}
use openclaw_enterprise_plug.Collaboration.Handoff.{
  resolved, HandoffRequest, HandoffResult, System, new_row, settle_row, high, resolve_request,
}
use openclaw_enterprise_plug.Collaboration.Handoff.Lifecycle.{
  Operation, assigning, resolving, cancelling, Leads, row_of, perform_all, perform_all-Leads,
  settled_final,
}
use openclaw_enterprise_plug.Collaboration.Handoff.Announced.{
  Refused, Announced, resolve_request-published,
}

abbrev memory : StorageBackend HandoffResult
memory = memory_backend

abbrev request : HandoffRequest
request = record {
  task_id = none;
  session_key = none;
  agent_id = "bot";
  reason = "stuck";
  priority = some high;
  expires_at = none;
}

abbrev asked : HandoffResult
unfolding new_row
asked = new_row "h1" 5 "t" request

abbrev answered : HandoffResult
unfolding asked
answered = settle_row "ok" 7 asked

abbrev with_row : HandoffResult → System (Store HandoffResult)
with_row row = record {
  store =
      (
        "t",
        ("handoff_requests", ("h1", record { value = row; created_at = 5; updated_at = 5 }) ∷ [])
            ∷ [],
      )
      ∷ [];
  published = [];
}

abbrev operations : List Operation
operations = assigning 6 "t" "h1" "ann" ∷ resolving 7 "t" "h1" "ok" ∷ cancelling 8 "t" "h1" ∷ []

perform_all-Leads_example :
    (row : HandoffResult) × (row_of memory "t" "h1" (perform_all memory operations (with_row asked))
      ≡ some row)
    × Leads asked row
unfolding Dict.get
perform_all-Leads_example =
    perform_all-Leads memory operations (with_row asked) "t" "h1" asked (tt, (tt, (tt, tt))) refl

settled_final_run :
    row_of memory "t" "h1" (perform_all memory operations (with_row answered)) ≡ some answered
unfolding Dict.get answered
settled_final_run =
    settled_final memory operations (with_row answered) "t" "h1" answered (tt, (tt, (tt, tt))) refl
      (inl refl)

resolve_request-published_run :
    let (s', r) = resolve_request memory 7 "t" "h1" "ok" (with_row asked) in
    Refused memory "t" "h1" (with_row asked) s' r
    ⊎ ((row : HandoffResult) × ((row.status ≡ resolved)
          × (row.resolution ≡ some "ok")
          × (row.resolved_at ≡ some 7))
        × Announced memory "handoff.request.resolved" 7 "t" "h1" row (with_row asked) s' r)
resolve_request-published_run =
    resolve_request-published memory 7 "t" "h1" "ok" "t" "h1" (with_row asked)
