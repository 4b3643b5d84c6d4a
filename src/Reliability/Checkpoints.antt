-- ===== src/Reliability/Checkpoints.antt =====
-- src/reliability/checkpoint: the types of checkpoint-manager.ts and the manager of
-- impl/storage-checkpoint.ts over any backend that lists pages. States and metadata are texts, and
-- every stored checkpoint has all its fields, as `save` writes them, so that the normalisation of
-- older ones changes nothing. The loops over pages run on fuel.
mod Laws
mod Tests
use openclaw_enterprise_plug.Common.{
  ℕ, String, Bool, true, false, Option, none, some, List, [], ◌∷◌, sort, head?, leb, str_eq,
  or_else, append, colon,
}
use openclaw_enterprise_plug.Kernel.Storage.Interface.{StorageBackend}
use openclaw_enterprise_plug.Kernel.Storage.Paging.{PagedBackend, collect, scan}

pub data TargetType : Type 0 where
  task workflow session : TargetType

abbrev pub target_name : TargetType → String
target_name task = "task"
target_name workflow = "workflow"
target_name session = "session"

pub record CheckpointInput : Type 0 where
  pub target_id : String
  pub target_type : TargetType
  pub state : String
  pub step_index : Option ℕ
  pub completed_steps : Option (List String)
  pub pending_steps : Option (List String)
  pub metadata : Option String

pub record Checkpoint : Type 0 where
  pub id : String
  pub tenant_id : String
  pub target_id : String
  pub target_type : TargetType
  pub state : String
  pub step_index : Option ℕ
  pub completed_steps : List String
  pub pending_steps : List String
  pub metadata : String
  pub created_at : ℕ

abbrev pub checkpoints : String
checkpoints = "checkpoints"

abbrev pub storage_key : TargetType → String → String → String
storage_key target_type target_id id = colon (target_name target_type) (colon target_id id)

abbrev pub target_prefix : TargetType → String → String
target_prefix target_type target_id =
    append (target_name target_type) (append ":" (append target_id ":"))

-- The comparison of `sort` is at most 0: newest first.
abbrev pub no_older : Checkpoint → Checkpoint → Bool
no_older a b = leb b.created_at a.created_at

unfoldable pub new_checkpoint : String → String → ℕ → CheckpointInput → Checkpoint
new_checkpoint tenant id now input = record {
  id = id;
  tenant_id = tenant;
  target_id = input.target_id;
  target_type = input.target_type;
  state = input.state;
  step_index = input.step_index;
  completed_steps = or_else input.completed_steps [];
  pending_steps = or_else input.pending_steps [];
  metadata = or_else input.metadata "{}";
  created_at = now;
}

module _ (b : PagedBackend Checkpoint) where
  unfoldable pub save :
      String → String → ℕ → CheckpointInput → b.backend.State → b.backend.State × Checkpoint
  unfolding new_checkpoint
  save tenant id now input s =
      let c = new_checkpoint tenant id now input in
      (
        b.backend.set now tenant checkpoints (storage_key input.target_type input.target_id id) c s,
        c,
      )

  unfoldable pub load : ℕ → String → String → b.backend.State → b.backend.State × Option Checkpoint
  load fuel tenant id s = scan b tenant checkpoints none 200 (λ c. str_eq c.id id) fuel 0 s

  unfoldable pub list :
      ℕ → String → String → TargetType → b.backend.State → b.backend.State × List Checkpoint
  list fuel tenant target_id target_type s =
      let prefix = some (target_prefix target_type target_id) in
      let (s', out) = collect b tenant checkpoints prefix 200 fuel 0 s in (s', sort no_older out)

  unfoldable pub load_latest :
      ℕ → String → String → TargetType → b.backend.State → b.backend.State × Option Checkpoint
  unfolding list
  load_latest fuel tenant target_id target_type s =
      let (s', l) = list fuel tenant target_id target_type s in (s', head? l)

  abbrev delete_existing : String → b.backend.State → Option Checkpoint → b.backend.State × Bool
  delete_existing tenant s none = (s, false)
  delete_existing tenant s (some c) =
      b.backend.delete tenant checkpoints (storage_key c.target_type c.target_id c.id) s

  unfoldable pub delete : ℕ → String → String → b.backend.State → b.backend.State × Bool
  unfolding load
  delete fuel tenant id s =
      let (s', existing) = load fuel tenant id s in delete_existing tenant s' existing
