-- ===== src/Governance/Quota.antt =====
-- src/governance/quota/impl/token-quota.ts over the types of quota-manager.ts, for any storage and any
-- cache, or none. Amounts and limits are whole numbers. How a number is printed in a key is a
-- parameter; `resolve_limit` is the configured resolver, where `none` stands for a number that is not
-- finite or negative. The clock is read at `now`, and to date a cache entry at `later`.
pub mod Accounts
pub mod Limit
mod Tests
use openclaw_enterprise_plug.Common.{
  ℕ, ◌+◌, ◌-◌, ◌*◌, ◌/◌, min, String, ◌≡◌, Bool, true, false, Option, none, some, ltb, ◌==◌, str_eq,
  if◌then◌else◌, or_else, append, colon,
}
use openclaw_enterprise_plug.Kernel.Storage.{Updated, updated, threw}
use openclaw_enterprise_plug.Kernel.Storage.Interface.{StorageBackend}
use openclaw_enterprise_plug.Kernel.Cache.Interface.{CacheBackend}

pub data ScopeType : Type 0 where
  tenant user role agent : ScopeType

abbrev scope_name : ScopeType → String
scope_name tenant = "tenant"
scope_name user = "user"
scope_name role = "role"
scope_name agent = "agent"

pub record QuotaKey : Type 0 where
  pub scope_type : ScopeType
  pub scope_id : Option String
  pub resource_type : String

-- `percent_used` is the fraction of the first number over the second.
pub record QuotaCheckResult : Type 0 where
  pub allowed : Bool
  pub remaining : ℕ
  pub limit : ℕ
  pub reset_at : ℕ
  pub percent_used : ℕ × ℕ

pub record QuotaUsage : Type 0 where
  pub used_value : ℕ
  pub max_value : ℕ
  pub window_start : ℕ
  pub window_end : ℕ

pub record StoredUsage : Type 0 where
  pub used : ℕ

pub record TokenQuotaManagerOptions : Type 0 where
  pub window_ms : ℕ
  pub default_limit : ℕ
  pub resolve_limit : Option (String → QuotaKey → Option ℕ)

pub record WindowInfo : Type 0 where
  pub window_start : ℕ
  pub window_end : ℕ

-- The result of `consume`, or an error that is passed on.
pub data Consumed : Type 0 where
  answered : QuotaCheckResult → Consumed
  raised : String → Consumed

abbrev pub usage_collection : String
usage_collection = "token_quota_usage"

-- The `QuotaExceededError`.
abbrev pub quota_exceeded : String
quota_exceeded = "quota exceeded"

unfoldable pub window_for : TokenQuotaManagerOptions → ℕ → WindowInfo
window_for o now =
    let start = now / o.window_ms * o.window_ms in
    record { window_start = start; window_end = start + o.window_ms }

unfoldable pub record_key : (ℕ → String) → QuotaKey → ℕ → String
record_key shown key start =
    colon (scope_name key.scope_type)
      (colon (or_else key.scope_id "") (colon key.resource_type (shown start)))

cache_key : String → String → String
cache_key tenant_id key = colon "token-quota" (colon tenant_id key)

resolved : Option (Option ℕ) → ℕ → ℕ
resolved none default = default
resolved (some none) default = default
resolved (some (some n)) default = n

unfoldable pub resolve_quota_limit : TokenQuotaManagerOptions → String → QuotaKey → ℕ
unfolding resolved
resolve_quota_limit o tenant_id key = elim (o.resolve_limit) [
  | none ↦ o.default_limit
  | some f ↦ resolved (some (f tenant_id key)) o.default_limit
]

abbrev pub used_of : Option StoredUsage → ℕ
used_of none = 0
used_of (some row) = row.used

percent : ℕ → ℕ → ℕ × ℕ
percent used limit =
    if limit == 0
    then (if ltb 0 used then (100, 1) else (0, 1))
    else (min (100 * limit) (used * 100), limit)

unfoldable pub to_check_result : ℕ → ℕ → WindowInfo → Bool → QuotaCheckResult
unfolding percent
to_check_result used limit win allowed = record {
  allowed = allowed;
  remaining = limit - used;
  limit = limit;
  reset_at = win.window_end;
  percent_used = percent used limit;
}

-- The updater of `consume`.
unfoldable pub add_usage : ℕ → ℕ → Option StoredUsage → Updated StoredUsage
add_usage limit amount current =
    if ltb limit (used_of current + amount)
    then threw quota_exceeded
    else updated (record { used = used_of current + amount })

-- What the manager works on: the storage, and the cache if it has one.
pub record QuotaState (S C : Type 0) : Type 0 where
  pub store : S
  pub cache : Option C

module _ (b : StorageBackend StoredUsage) (c : CacheBackend ℕ) (shown : ℕ → String)
    (o : TokenQuotaManagerOptions) where
  open b use {State, get, atomic_update}

  abbrev pub Quotas : Type 0
  Quotas = QuotaState State (c.State)

  cached : ℕ → String → Option (c.State) → Option (c.State) × Option ℕ
  cached now ck none = (none, none)
  cached now ck (some cs) = let (cs', v) = c.get now ck cs in (some cs', v)

  write_cache_used : ℕ → String → String → ℕ → WindowInfo → Option (c.State) → Option (c.State)
  unfolding cache_key
  write_cache_used later tenant_id key used win none = none
  write_cache_used later tenant_id key used win (some cs) =
      let ttl = win.window_end - later in
      some (c.set later (cache_key tenant_id key) used (if ttl == 0 then none else some ttl) cs)

  -- `readUsed` after its look into the cache.
  read_through : ℕ → String → String → WindowInfo → Option ℕ → Quotas → Quotas × ℕ
  unfolding write_cache_used
  read_through later tenant_id key win (some used) s = (s, used)
  read_through later tenant_id key win none s =
      let (store, row) = get tenant_id usage_collection key s.store in
      (
        record {
          store = store;
          cache = write_cache_used later tenant_id key (used_of row) win s.cache;
        },
        used_of row,
      )

  unfoldable pub read_used : ℕ → ℕ → String → String → WindowInfo → Quotas → Quotas × ℕ
  unfolding cached cache_key read_through
  read_used now later tenant_id key win s =
      let (cache, hit) = cached now (cache_key tenant_id key) s.cache in
      read_through later tenant_id key win hit (record s { cache = cache })

  -- Reads the usage and reports it.
  unfoldable pub report :
      ℕ → ℕ → String → String → WindowInfo → ℕ → (ℕ → Bool) → Quotas → Quotas × QuotaCheckResult
  unfolding read_used to_check_result
  report now later tenant_id key win limit allowed s =
      let (s', used) = read_used now later tenant_id key win s in
      (s', to_check_result used limit win (allowed used))

  unfoldable pub check : ℕ → ℕ → String → QuotaKey → Quotas → Quotas × QuotaCheckResult
  unfolding report window_for resolve_quota_limit record_key
  check now later tenant_id key s =
      let win = window_for o now in
      let limit = resolve_quota_limit o tenant_id key in
      report now later tenant_id (record_key shown key win.window_start) win limit
        (λ used. ltb used limit) s

  answer : Quotas × QuotaCheckResult → Quotas × Consumed
  answer (s, r) = (s, answered r)

  -- `consume` after its `atomicUpdate`, with the `catch`.
  settled :
      ℕ → ℕ → String → String → WindowInfo → ℕ → Updated StoredUsage → Quotas → Quotas × Consumed
  unfolding write_cache_used to_check_result report answer
  settled now later tenant_id key win limit (updated next) s = (
    record s { cache = write_cache_used later tenant_id key next.used win s.cache },
    answered (to_check_result next.used limit win true),
  )
  settled now later tenant_id key win limit (threw e) s =
      if str_eq e quota_exceeded
      then answer (report now later tenant_id key win limit (λ used. false) s)
      else (s, raised e)

  consume_stored : ℕ → ℕ → String → String → WindowInfo → ℕ → ℕ → Quotas → Quotas × Consumed
  unfolding settled add_usage
  consume_stored now later tenant_id key win limit amount s =
      let (store, outcome) =
        atomic_update now tenant_id usage_collection key (add_usage limit amount) s.store in
      settled now later tenant_id key win limit outcome (record s { store = store })

  unfoldable pub consume : ℕ → ℕ → String → QuotaKey → ℕ → Quotas → Quotas × Consumed
  unfolding window_for resolve_quota_limit record_key report answer consume_stored
  consume now later tenant_id key amount s =
      let win = window_for o now in
      let limit = resolve_quota_limit o tenant_id key in
      let rk = record_key shown key win.window_start in
      if amount == 0
      then answer (report now later tenant_id rk win limit (λ used. true) s)
      else if limit == 0
      then answer (report now later tenant_id rk win limit (λ used. false) s)
      else consume_stored now later tenant_id rk win limit amount s

  unfoldable pub get_usage : ℕ → ℕ → String → QuotaKey → Quotas → Quotas × QuotaUsage
  unfolding window_for resolve_quota_limit record_key read_used
  get_usage now later tenant_id key s =
      let win = window_for o now in
      let limit = resolve_quota_limit o tenant_id key in
      let (s', used) =
        read_used now later tenant_id (record_key shown key win.window_start) win s in
      (
        s',
        record {
          used_value = used;
          max_value = limit;
          window_start = win.window_start;
          window_end = win.window_end;
        },
      )
