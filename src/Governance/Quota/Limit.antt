-- ===== src/Governance/Quota/Limit.antt =====
-- Over any run of the quota manager: the stored usage is what was granted, and stays within the limit.
use openclaw_enterprise_plug.Common.{
  ℕ, ◌+◌, String, Bool, false, ◌&&◌, List, [], ◌∷◌, str_eq, if◌then◌else◌,
}
use openclaw_enterprise_plug.Kernel.Storage.Interface.{StorageBackend}
use openclaw_enterprise_plug.Kernel.Cache.Interface.{CacheBackend}
use openclaw_enterprise_plug.Governance.Quota.{
  QuotaKey, StoredUsage, TokenQuotaManagerOptions, Consumed, answered, raised, window_for,
  record_key, check, consume, get_usage, Quotas,
}
use openclaw_enterprise_plug.Governance.Quota.Accounts.{Accounts}

pub data Operation : Type 0 where
  consuming : ℕ → ℕ → String → QuotaKey → ℕ → Operation
  checking : ℕ → ℕ → String → QuotaKey → Operation
  reporting : ℕ → ℕ → String → QuotaKey → Operation

abbrev pub allowed_of : Consumed → Bool
allowed_of (answered r) = r.allowed
allowed_of (raised e) = false

module _ (b : StorageBackend StoredUsage) (c : CacheBackend ℕ) (shown : ℕ → String)
    (o : TokenQuotaManagerOptions) where
  unfoldable pub perform : Operation → Quotas b c shown o → Quotas b c shown o
  perform (consuming now later t key amount) s = (consume b c shown o now later t key amount s).0
  perform (checking now later t key) s = (check b c shown o now later t key s).0
  perform (reporting now later t key) s = (get_usage b c shown o now later t key s).0

  unfoldable pub perform_all : List Operation → Quotas b c shown o → Quotas b c shown o
  perform_all [] s = s
  perform_all (p ∷ ps) s = perform_all ps (perform p s)

  -- What an operation grants to a tenant under a record key.
  unfoldable pub granted_by : String → String → Operation → Quotas b c shown o → ℕ
  granted_by t k (consuming now later tenant_id key amount) s =
      if allowed_of (consume b c shown o now later tenant_id key amount s).1
        && (str_eq tenant_id t && str_eq (record_key shown key ((window_for o now).window_start)) k)
      then amount
      else 0
  granted_by t k _ s = 0

  unfoldable pub granted : String → String → List Operation → Quotas b c shown o → ℕ
  granted t k [] s = 0
  granted t k (p ∷ ps) s = granted_by t k p s + granted t k ps (perform p s)
