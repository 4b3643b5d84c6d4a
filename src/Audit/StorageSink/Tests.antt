-- ===== src/Audit/StorageSink/Tests.antt =====
-- The storage sink over the memory backend, with a batch of two tenants.
use openclaw_enterprise_plug.Common.{String, ◌≡◌, ◌≢◌, [], ◌∷◌, arith, eq_iff}
use openclaw_enterprise_plug.Kernel.Storage.Interface.{StorageBackend}
use openclaw_enterprise_plug.Kernel.Storage.Laws.{memory_backend}
use openclaw_enterprise_plug.Audit.{AuditEvent}
use openclaw_enterprise_plug.Audit.Pipeline.Tests.{event}
use openclaw_enterprise_plug.Audit.StorageSink.{Stores, write_batch, write_batch-Stores}

abbrev memory : StorageBackend AuditEvent
memory = memory_backend {V = AuditEvent}

write_batch-Stores_example :
    Stores memory "acme"
      (event "e1" "acme" 10 ∷ event "e2" "globex" 20 ∷ [])
      (write_batch memory 0 (event "e1" "acme" 10 ∷ event "e2" "globex" 20 ∷ []) [])
    × ((t c k : String)
        → t ≢ "acme"
        → memory.read
            (write_batch memory 0 (event "e1" "acme" 10 ∷ event "e2" "globex" 20 ∷ []) [])
            t
            c
            k
          ≡ memory.read [] t c k)
write_batch-Stores_example =
    write_batch-Stores memory 0 (event "e1" "acme" 10) (event "e2" "globex" 20 ∷ []) []
      (((λ h. ground (arith, h, eq_iff "e1" "e2")), tt), (tt, tt))
