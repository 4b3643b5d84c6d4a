-- ===== src/Kernel/Cache/Interface.antt =====
-- The interface CacheBackend of src/kernel/cache.ts, as far as its clients here use it, and the memory
-- cache as an instance.
use openclaw_enterprise_plug.Common.{ℕ, String, Option}
use openclaw_enterprise_plug.Kernel.Cache.{Cache, get, set}

pub record CacheBackend (V : Type 0) : Type 1 where
  pub State : Type 0
  pub get : ℕ → String → State → State × Option V
  pub set : ℕ → String → V → Option ℕ → State → State

abbrev pub memory_cache : {V : Type 0} → CacheBackend V
memory_cache {V} = record { State = Cache V; get = get; set = set }
