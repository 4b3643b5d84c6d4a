-- ===== src/Governance/Quota/Tests.antt =====
-- Runs of the quota manager on the memory storage and the memory cache.
use openclaw_enterprise_plug.Common.{
  ℕ, ◌≤◌, ◌<◌, String, ◌≡◌, none, some, List, [], ◌∷◌, arith, if◌then◌else◌, ltb,
}
use openclaw_enterprise_plug.Common.Dict
use openclaw_enterprise_plug.Kernel.Storage.Interface.{StorageBackend}
use openclaw_enterprise_plug.Kernel.Storage.Laws.{memory_backend}
use openclaw_enterprise_plug.Kernel.Cache.Interface.{CacheBackend, memory_cache}
use openclaw_enterprise_plug.Governance.Quota.{
  user, QuotaKey, StoredUsage, TokenQuotaManagerOptions, window_for, Quotas,
}
use openclaw_enterprise_plug.Governance.Quota.Accounts.{Accounts, window_for_bounds}
use openclaw_enterprise_plug.Governance.Quota.Limit.{Operation, consuming, checking, reporting}

abbrev storage : StorageBackend StoredUsage
storage = memory_backend

abbrev cache : CacheBackend ℕ
cache = memory_cache

-- Enough digits for the tests.
abbrev shown : ℕ → String
shown n = if ltb n 1000 then "0" else "1000"

abbrev options : TokenQuotaManagerOptions
options = record { window_ms = 1000; default_limit = 10; resolve_limit = none }

abbrev alice : QuotaKey
alice = record { scope_type = user; scope_id = some "alice"; resource_type = "tokens" }

abbrev empty : Quotas storage cache shown options
empty = record { store = []; cache = some [] }

abbrev run : List Operation
run =
    consuming 100 101 "t" alice 6
    ∷ checking 200 201 "t" alice
    ∷ consuming 300 301 "t" alice 6
    ∷ consuming 400 401 "t" alice 4
    ∷ reporting 500 501 "t" alice
    ∷ []

window_for_bounds_run :
    let win = window_for options 2500 in
    (win.window_start ≤ 2500)
    × (2500 < win.window_end)
    × (win.window_start ≤ 2700 → 2700 < win.window_end → window_for options 2700 ≡ win)
window_for_bounds_run = window_for_bounds options 2500 2700 (omega arith)
