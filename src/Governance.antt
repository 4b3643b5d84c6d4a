-- ===== src/Governance.antt =====
-- src/governance: quotas, the scope policy and the default identity provider.
pub mod Quota
pub mod Identity
pub mod Scopes
pub mod ContentFilter
pub mod Rbac
