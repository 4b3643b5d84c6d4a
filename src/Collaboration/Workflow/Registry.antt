-- ===== src/Collaboration/Workflow/Registry.antt =====
-- The definitions that SimpleWorkflowEngine of src/collaboration/workflow/impl/simple-workflow.ts
-- keeps, over the memory storage, whose order of equal dates `key_le` does not enter.
use openclaw_enterprise_plug.Common.{
  ℕ, ◌+◌, ◌≤◌, String, Bool, false, none, List, [], ◌∷◌, length, slice, arith,
}
use openclaw_enterprise_plug.Common.Dict
use openclaw_enterprise_plug.Common.Dict.{Dict, get-set_self}
use openclaw_enterprise_plug.Common.Sorting.{length-take}
use openclaw_enterprise_plug.Kernel.Storage.{Store, StorageQuery, collection, selected, list, set}
use openclaw_enterprise_plug.Collaboration.Workflow.{WorkflowDefinition}

abbrev pub workflow_definitions : String
workflow_definitions = "workflow_definitions"

-- The query `{}`.
abbrev pub any_query : StorageQuery
any_query = record { prefix = none; by_key = false; order = none; offset = none; limit = none }

abbrev pub add_all : List WorkflowDefinition → Dict WorkflowDefinition → Dict WorkflowDefinition
add_all [] m = m
add_all (d ∷ ds) m = add_all ds (Dict.set m d.id d)

unfoldable pub initialize :
    (String → String → Bool)
    → Store WorkflowDefinition
    → Dict WorkflowDefinition
    → Store WorkflowDefinition × Dict WorkflowDefinition
unfolding list
initialize key_le s definitions =
    let (s', page) = list key_le "default" workflow_definitions any_query s in
    (s', add_all page.items definitions)

unfoldable pub shutdown : Dict WorkflowDefinition → Dict WorkflowDefinition
shutdown definitions = []

unfoldable pub register_workflow :
    ℕ
    → WorkflowDefinition
    → Store WorkflowDefinition × Dict WorkflowDefinition
    → Store WorkflowDefinition × Dict WorkflowDefinition
unfolding set
register_workflow now d (s, definitions) =
    (set now "default" workflow_definitions d.id d s, Dict.set definitions d.id d)

length-set :
    (m : Dict WorkflowDefinition) (k : String) (d : WorkflowDefinition)
    → length (Dict.set m k d) ≤ length m + 1
unfolding Dict.set
length-set [] k d = omega arith
length-set ((j, v) ∷ m) k d = ground (arith, length-set m k d)

length-add_all :
    (ds : List WorkflowDefinition) (m : Dict WorkflowDefinition)
    → length (add_all ds m) ≤ length m + length ds
length-add_all [] m = omega arith
length-add_all (d ∷ ds) m =
    omega (arith, length-add_all ds (Dict.set m d.id d), length-set m d.id d)

-- An engine that starts knows at most 20 of the workflows that were registered, however many are
-- stored: it asks for no page but the first.
pub initialize-length :
    (key_le : String → String → Bool) (s : Store WorkflowDefinition)
    → length (initialize key_le s []).1 ≤ 20
unfolding initialize list
initialize-length key_le s =
    let found = selected key_le any_query (collection "default" workflow_definitions s) in
    omega (arith, length-add_all (slice found 0 20) [], length-take 20 found)
