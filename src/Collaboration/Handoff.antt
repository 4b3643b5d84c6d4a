-- ===== src/Collaboration/Handoff.antt =====
-- src/collaboration/handoff/impl/storage-handoff.ts over the types of handoff-manager.ts, for any
-- backend that keeps the laws of StorageBackend. Dates are numbers here, so that `asDate` changes
-- nothing; the readings of the clock in one operation are taken as one. The event bus is the list of
-- the events published, the latest last.
pub mod Lifecycle
pub mod Announced
mod Tests
use openclaw_enterprise_plug.Common.{
  ℕ, String, ◌≡◌, Option, none, some, List, [], ◌∷◌, ◌++◌, or_else, append,
}
use openclaw_enterprise_plug.Kernel.Storage.{Updated, updated, threw}
use openclaw_enterprise_plug.Kernel.Storage.Interface.{StorageBackend}

pub data Priority : Type 0 where
  high normal low : Priority

pub data Status : Type 0 where
  pending assigned resolved expired cancelled : Status

abbrev pub status_name : Status → String
status_name pending = "pending"
status_name assigned = "assigned"
status_name resolved = "resolved"
status_name expired = "expired"
status_name cancelled = "cancelled"

pub record HandoffRequest : Type 0 where
  pub task_id : Option String
  pub session_key : Option String
  pub agent_id : String
  pub reason : String
  pub priority : Option Priority
  pub expires_at : Option ℕ

pub record HandoffResult : Type 0 where
  pub id : String
  pub tenant_id : String
  pub task_id : Option String
  pub session_key : Option String
  pub agent_id : String
  pub reason : String
  pub priority : Priority
  pub status : Status
  pub assigned_to : Option String
  pub resolution : Option String
  pub created_at : ℕ
  pub updated_at : ℕ
  pub expires_at : Option ℕ
  pub resolved_at : Option ℕ

-- The published event, less its generated id and its constant source.
pub record HandoffEvent : Type 0 where
  pub kind : String
  pub tenant_id : String
  pub timestamp : ℕ
  pub payload : HandoffResult

-- The storage, with the events published so far.
pub record System (S : Type 0) : Type 0 where
  pub store : S
  pub published : List HandoffEvent

-- A method that returns nothing, or throws.
pub data Ended : Type 0 where
  done : Ended
  thrown : String → Ended

abbrev pub handoffs : String
handoffs = "handoff_requests"

unfoldable pub not_found : String → String
not_found id = append "Handoff not found: " id

-- The three updaters.
unfoldable pub assign_row : String → String → ℕ → Option HandoffResult → Updated HandoffResult
unfolding not_found
assign_row id assignee now none = threw (not_found id)
assign_row id assignee now (some row) = elim (row.status) [
  | pending ↦
      updated (record row { status = assigned; assigned_to = some assignee; updated_at = now })
  | _ ↦ threw (append "Handoff " (append id " is not pending"))
]

abbrev settle_row : String → ℕ → HandoffResult → HandoffResult
settle_row resolution now row = record row {
  status = resolved;
  resolution = some resolution;
  resolved_at = some now;
  updated_at = now;
}

unfoldable pub resolve_row : String → String → ℕ → Option HandoffResult → Updated HandoffResult
unfolding not_found
resolve_row id resolution now none = threw (not_found id)
resolve_row id resolution now (some row) = elim (row.status) [
  | pending ↦ updated (settle_row resolution now row)
  | assigned ↦ updated (settle_row resolution now row)
  | s ↦
      threw
        (append "Handoff " (append id (append " cannot be resolved from status " (status_name s))))
]

unfoldable pub cancel_row : String → ℕ → Option HandoffResult → Updated HandoffResult
unfolding not_found
cancel_row id now none = threw (not_found id)
cancel_row id now (some row) = elim (row.status) [
  | resolved ↦ threw (append "Handoff " (append id " cannot be cancelled from status resolved"))
  | cancelled ↦ threw (append "Handoff " (append id " cannot be cancelled from status cancelled"))
  | _ ↦ updated (record row { status = cancelled; updated_at = now })
]

unfoldable pub new_row : String → ℕ → String → HandoffRequest → HandoffResult
new_row id now tenant request = record {
  id = id;
  tenant_id = tenant;
  task_id = request.task_id;
  session_key = request.session_key;
  agent_id = request.agent_id;
  reason = request.reason;
  priority = or_else request.priority normal;
  status = pending;
  assigned_to = none;
  resolution = none;
  created_at = now;
  updated_at = now;
  expires_at = request.expires_at;
  resolved_at = none;
}

abbrev publish : {S : Type 0} → String → String → ℕ → HandoffResult → System S → System S
publish kind tenant now row s = record s {
  published =
      s.published
      ++ record { kind = kind; tenant_id = tenant; timestamp = now; payload = row } ∷ [];
}

module _ (b : StorageBackend HandoffResult) where
  open b use {State, read, get, set, atomic_update}

  -- `createRequest`, with the generated id.
  unfoldable pub create_request :
      String → ℕ → String → HandoffRequest → System State → System State × HandoffResult
  unfolding new_row
  create_request id now tenant request s =
      let row = new_row id now tenant request in
      let stored = record s { store = set now tenant handoffs id row s.store } in
      (publish "handoff.request.pending" tenant now row stored, row)

  -- What the three transitions do with the outcome of their `atomicUpdate`.
  unfoldable pub announce :
      String → String → ℕ → State → Updated HandoffResult → System State → System State × Ended
  announce kind tenant now store (updated row) s =
      (publish kind tenant now row (record s { store = store }), done)
  announce kind tenant now store (threw e) s = (record s { store = store }, thrown e)

  unfoldable pub move :
      String
      → ℕ
      → String
      → String
      → (Option HandoffResult → Updated HandoffResult)
      → System State
      → System State × Ended
  unfolding announce
  move kind now tenant id updater s =
      let (store, outcome) = atomic_update now tenant handoffs id updater s.store in
      announce kind tenant now store outcome s

  unfoldable pub assign_request : ℕ → String → String → String → System State → System State × Ended
  unfolding move
  assign_request now tenant id assignee s =
      move "handoff.request.assigned" now tenant id (assign_row id assignee now) s

  unfoldable pub resolve_request :
      ℕ → String → String → String → System State → System State × Ended
  unfolding move
  resolve_request now tenant id resolution s =
      move "handoff.request.resolved" now tenant id (resolve_row id resolution now) s

  unfoldable pub cancel_request : ℕ → String → String → System State → System State × Ended
  unfolding move
  cancel_request now tenant id s =
      move "handoff.request.cancelled" now tenant id (cancel_row id now) s

  unfoldable pub get_request : String → String → System State → System State × Option HandoffResult
  get_request tenant id s =
      let (store, row) = get tenant handoffs id s.store in (record s { store = store }, row)
