-- ===== src/Reliability/Checkpoints/Tests.antt =====
-- The checkpoints over the memory storage, with two targets of which one's name begins the other's.
use openclaw_enterprise_plug.Common.{
  ℕ, ◌≤◌, String, ◌≡◌, refl, Bool, true, none, some, [], ◌∷◌, find, sort, All, str_eq, arith,
}
use openclaw_enterprise_plug.Common.Dict
use openclaw_enterprise_plug.Common.Sorting.{IsSorted}
use openclaw_enterprise_plug.Kernel.Storage.{Store, StoredEntry, selected}
use openclaw_enterprise_plug.Kernel.Storage.Paging.{PagedBackend}
use openclaw_enterprise_plug.Kernel.Storage.Paging.Memory.{
  paged_memory, memory_entries, memory_list,
}
use openclaw_enterprise_plug.Reliability.Checkpoints.{
  Checkpoint, task, checkpoints, target_prefix, no_older, load, list, load_latest,
}
use openclaw_enterprise_plug.Reliability.Checkpoints.Laws.{list-all, load_latest-newest, load-find}

abbrev any_order : String → String → Bool
any_order j k = true

abbrev memory : PagedBackend Checkpoint
memory = paged_memory any_order

abbrev checkpoint : String → String → ℕ → Checkpoint
checkpoint id target now = record {
  id = id;
  tenant_id = "acme";
  target_id = target;
  target_type = task;
  state = "{}";
  step_index = none;
  completed_steps = [];
  pending_steps = [];
  metadata = "{}";
  created_at = now;
}

abbrev stored : Checkpoint → ℕ → StoredEntry Checkpoint
stored c now = record { value = c; created_at = now; updated_at = now }

-- Checkpoints of the tasks `a` and `a:b`.
abbrev store : Store Checkpoint
store =
    (
      "acme",
      (
        "checkpoints",
        ("task:a:c1", stored (checkpoint "c1" "a" 1) 1)
            ∷ ("task:a:b:c2", stored (checkpoint "c2" "a:b" 2) 2)
            ∷ [],
      )
          ∷ [],
    )
    ∷ []

list-all_run :
    ((list memory 5 "acme" "a" task store).1
      ≡ sort no_older (memory.entries "acme" checkpoints (some (target_prefix task "a")) store))
    × IsSorted no_older (list memory 5 "acme" "a" task store).1
unfolding memory_entries selected Dict.get
list-all_run = list-all memory 5 "acme" "a" task store (omega arith)

load-find_run :
    (load memory 5 "acme" "c2" store).1
    ≡ find (λ c. str_eq c.id "c2") (memory.entries "acme" checkpoints none store)
unfolding memory_entries selected Dict.get
load-find_run = load-find memory 5 "acme" "c2" store (omega arith)

-- The latest checkpoint of the task `a` is one of the task `a:b`.
load_latest_run : (load_latest memory 5 "acme" "a" task store).1 ≡ some (checkpoint "c2" "a:b" 2)
unfolding load_latest memory_list list selected Dict.get
load_latest_run = refl

load_latest-newest_run : All (λ x. x.created_at ≤ 2) (list memory 5 "acme" "a" task store).1
unfolding load_latest memory_list list selected Dict.get
load_latest-newest_run =
    load_latest-newest memory 5 "acme" "a" task store (checkpoint "c2" "a:b" 2) refl
