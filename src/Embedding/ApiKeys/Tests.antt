-- ===== src/Embedding/ApiKeys/Tests.antt =====
-- Runs of the API keys on the memory storage.
use openclaw_enterprise_plug.Common.{
  arith, eq_iff, List, String, ◌≡◌, refl, true, false, Bool, none, some, [], ◌∷◌, append,
}
use openclaw_enterprise_plug.Common.Dict
use openclaw_enterprise_plug.Kernel.Storage.{Store, PaginatedResult, selected}
use openclaw_enterprise_plug.Kernel.Storage.Paging.{PagedBackend}
use openclaw_enterprise_plug.Kernel.Storage.Paging.Memory.{paged_memory, memory_list}
use openclaw_enterprise_plug.Kernel.Storage.Interface.{StorageBackend}
use openclaw_enterprise_plug.Kernel.Storage.Laws.{memory_backend}
use openclaw_enterprise_plug.Embedding.ApiKeys.{
  Stored, row, index, StoredApiKey, ApiKeyCreateInput, valid, revoked, create, validate, revoke,
  new_row,
}
use openclaw_enterprise_plug.Embedding.ApiKeys.Listing.{ApiKeyInfo, ApiKeyQuery, list, to_info}
use openclaw_enterprise_plug.Embedding.ApiKeys.Validity.{create-validate}
use openclaw_enterprise_plug.Embedding.ApiKeys.Revocation.{
  Operation, creating, validating, revoking, rotating, perform_all, revoke-validate,
}

abbrev memory : StorageBackend Stored
memory = memory_backend

-- A hash for the tests.
abbrev hash : String → String
hash s = append "#" s

abbrev input : ApiKeyCreateInput
input = record { name = "ci"; scopes = "task.read" ∷ []; expires_at = some 100; metadata = none }

abbrev made : StoredApiKey
made = new_row "1" "#raw" 10 "t" input

abbrev stored : Store Stored
stored =
    (
      "t",
      (
        "api_keys",
        ("k:1", record { value = row made; created_at = 10; updated_at = 10 })
            ∷ ("h:#raw", record { value = index "1"; created_at = 10; updated_at = 10 })
            ∷ [],
      )
          ∷ [],
    )
    ∷ []

create-validate_example :
    (validate memory hash 50 "t" "raw" (create memory hash "1" "raw" 10 "t" input []).0).1
    ≡ valid "1" "t" ("task.read" ∷ [])
create-validate_example = create-validate memory hash "1" "raw" "t" 10 50 input [] refl

-- Another key is made, the revoked one is tried and revoked again, and then it is rotated.
abbrev later_operations : List Operation
later_operations =
    creating "2" "raw2" 25 "t" input
    ∷ validating 30 "t" "raw"
    ∷ revoking 35 "t" "1"
    ∷ rotating "3" "raw3" 40 "t" "1"
    ∷ []

revoke-validate_example :
    let (s', found) = revoke memory hash 20 "t" "1" stored in
    (found ≡ true)
    × ((validate memory hash 50 "t" "raw" (perform_all memory hash later_operations s')).1
        ≡ revoked "1" "t")
unfolding Dict.get
revoke-validate_example =
    revoke-validate memory hash "1" "raw" "t" 20 50 made stored later_operations refl refl refl (
      ((λ e. ground (arith, e, eq_iff "2" "1")), (λ e. ground (arith, e, eq_iff "#raw2" "#raw"))),
      (
        tt,
        (
          tt,
          (
            (
              (λ e. ground (arith, e, eq_iff "3" "1")),
              (λ e. ground (arith, e, eq_iff "#raw3" "#raw")),
            ),
            tt,
          ),
        ),
      ),
    )

abbrev any_order : String → String → Bool
any_order j k = true

abbrev paged : PagedBackend Stored
paged = paged_memory any_order

abbrev usual : ApiKeyQuery
usual = record { include_revoked = none; offset = none; limit = none }

abbrev shown_page : PaginatedResult ApiKeyInfo
shown_page = record { items = to_info made ∷ []; total = 1; has_more = false }

-- The index of the key is not listed.
list_run : (list paged 3 "t" usual stored).1 ≡ shown_page
unfolding list memory_list selected Dict.get
list_run = refl
