-- ===== src/Governance/Quota/Accounts.antt =====
-- What the quota manager promises about the stored usage of a window, with any cache or none.
use native.Mathlib.Nat.{div-mul-le_self, lt-div-mul-add, div-eq_of_lt-le, add-mul, one-mul}
use openclaw_enterprise_plug.Common.{
  ℕ, ◌+◌, ◌*◌, ◌/◌, ◌≤◌, ◌<◌, String, ◌≡◌, refl, ap, Bool, ◌&&◌, ◌||◌, Option, none, some, arith,
  str_eq, if◌then◌else◌, leb, ◌==◌,
}
use openclaw_enterprise_plug.Kernel.Storage.Interface.{StorageBackend}
use openclaw_enterprise_plug.Kernel.Cache.Interface.{CacheBackend}
use openclaw_enterprise_plug.Governance.Quota.{
  QuotaCheckResult, StoredUsage, TokenQuotaManagerOptions, WindowInfo, Consumed, answered,
  usage_collection, window_for, used_of, read_through, read_used, report, Quotas,
}

-- Each moment falls into the window that is taken for it, and a window is its own.
pub window_for_bounds :
    (o : TokenQuotaManagerOptions) (now later : ℕ)
    → 0 < o.window_ms
    → let win = window_for o now in
      (win.window_start ≤ now)
      × (now < win.window_end)
      × (win.window_start ≤ later → later < win.window_end → window_for o later ≡ win)
unfolding window_for
window_for_bounds o now later h = (
  div-mul-le_self now o.window_ms,
  lt-div-mul-add h,
  λ l m.
      ap
        (λ q. record { window_start = q * o.window_ms; window_end = q * o.window_ms + o.window_ms })
        (div-eq_of_lt-le o.window_ms l
          (omega (arith, m, add-mul (now / o.window_ms) 1 o.window_ms, one-mul o.window_ms))),
)

module _ (b : StorageBackend StoredUsage) (c : CacheBackend ℕ) (shown : ℕ → String)
    (o : TokenQuotaManagerOptions) where
  open b use {State, read, get, atomic_update, get-read, atomic_update-read}

  -- The usage that is stored for a tenant under a record key.
  abbrev pub stored_used : String → String → Quotas b c shown o → ℕ
  stored_used t k s = used_of (read s.store t usage_collection k)

  read_through-used :
      (later : ℕ) (tenant_id key : String) (win : WindowInfo) (hit : Option ℕ)
      (s : Quotas b c shown o) (t k : String)
      → stored_used t k (read_through b c shown o later tenant_id key win hit s).0
        ≡ stored_used t k s
  unfolding read_through
  read_through-used later tenant_id key win (some n) s t k = refl
  read_through-used later tenant_id key win none s t k =
      ap used_of (get-read tenant_id usage_collection key s.store t usage_collection k).1

  pub read_used-used :
      (now later : ℕ) (tenant_id key : String) (win : WindowInfo) (s : Quotas b c shown o)
      (t k : String)
      → stored_used t k (read_used b c shown o now later tenant_id key win s).0 ≡ stored_used t k s
  unfolding read_used
  read_used-used now later tenant_id key win s t k =
      read_through-used later tenant_id key win _ _ t k

  pub report-used :
      (now later : ℕ) (tenant_id key : String) (win : WindowInfo) (limit : ℕ) (allowed : ℕ → Bool)
      (s : Quotas b c shown o) (t k : String)
      → stored_used t k (report b c shown o now later tenant_id key win limit allowed s).0
        ≡ stored_used t k s
  unfolding report
  report-used now later tenant_id key win limit allowed s t k =
      read_used-used now later tenant_id key win s t k

  -- What an operation that answers does to the stored usage.
  pub record Accounts (tenant_id rk : String) (amount limit : ℕ) (s s' : Quotas b c shown o)
      (r : Consumed) : Type 0 where
    pub result : QuotaCheckResult
    pub answers : r ≡ answered result
    pub exactly : result.allowed ≡ (amount == 0 || leb (stored_used tenant_id rk s + amount) limit)
    pub added :
        (t k : String)
        → stored_used t k s'
          ≡ stored_used t k s
            + (if result.allowed && (str_eq tenant_id t && str_eq rk k) then amount else 0)
