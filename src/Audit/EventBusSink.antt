-- ===== src/Audit/EventBusSink.antt =====
-- src/audit/impl/eventbus-sink.ts over the event bus in memory.
use openclaw_enterprise_plug.Common.{
  ℕ, ◌≡◌, refl, ap, Bool, true, false, if◌then◌else◌, List, [], ◌∷◌, map, none, append,
}
use openclaw_enterprise_plug.Audit.{AuditEvent, category_name}
use openclaw_enterprise_plug.Kernel.EventBus.{PlatformEvent, EventBus, publish, publish_batch}

-- The event of the bus for an audit event.
unfoldable pub announced : AuditEvent → PlatformEvent AuditEvent
announced e = record {
  id = e.id;
  kind = append "audit." (category_name e.category);
  tenant_id = e.tenant_id;
  source = "audit-pipeline";
  timestamp = e.timestamp;
  data_of = e;
  metadata = none;
}

module _
    (handle : ℕ → PlatformEvent AuditEvent → EventBus AuditEvent → EventBus AuditEvent × Bool) where
  -- With whether the promise is rejected.
  unfoldable pub write : AuditEvent → EventBus AuditEvent → EventBus AuditEvent × Bool
  unfolding publish announced
  write e b = let (b', ids, threw) = publish handle (announced e) b in (b', threw)

  unfoldable pub write_batch : List AuditEvent → EventBus AuditEvent → EventBus AuditEvent × Bool
  unfolding write
  write_batch [] b = (b, false)
  write_batch (e ∷ es) b =
      let (b', threw) = write e b in
      let rest = write_batch es b' in if threw then (b', true) else rest

  -- A batch is one publication for each event, in the order of the events, up to one that is rejected.
  pub write_batch-publish_batch :
      (es : List AuditEvent) (b : EventBus AuditEvent)
      → write_batch es b ≡ publish_batch handle (map announced es) b
  unfolding write_batch publish_batch write
  write_batch-publish_batch [] b = refl
  write_batch-publish_batch (e ∷ es) b =
      let (b', ids, threw) = publish handle (announced e) b in
      ap (λ r. if threw then (b', true) else r) (write_batch-publish_batch es b')
