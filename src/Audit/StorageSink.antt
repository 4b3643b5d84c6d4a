-- ===== src/Audit/StorageSink.antt =====
-- src/audit/impl/storage-sink.ts over any StorageBackend.
mod Tests
use openclaw_enterprise_plug.Common.{
  ℕ, String, ◌≡◌, ◌≢◌, refl, ap, ◌∙◌, Bool, true, false, ◌&&◌, Option, none, some, List, [], ◌∷◌,
  map, All, All-map, arith, str_eq, eq_iff, if◌then◌else◌,
}
use openclaw_enterprise_plug.Audit.{AuditEvent}
use openclaw_enterprise_plug.Kernel.Storage.Interface.{StorageBackend, same_place}

abbrev pub audit_events : String
audit_events = "audit_events"

All_of {ℓ κ} : {A : Type ℓ} {P : A → Type κ} → ((x : A) → P x) → (xs : List A) → All P xs
All_of f [] = tt
All_of f (x ∷ xs) = (f x, All_of f xs)

-- No later event has the same id.
abbrev pub IsUnique : List AuditEvent → Type 0
IsUnique [] = Unit
IsUnique (e ∷ es) = All (λ e'. e.id ≢ e'.id) es × IsUnique es

abbrev entry : AuditEvent → String × AuditEvent
entry e = (e.id, e)

module _ (b : StorageBackend AuditEvent) where
  -- The tenant context of both operations has only the tenant that a backend reads.
  unfoldable pub write : ℕ → AuditEvent → b.State → b.State
  write now event s = b.set now event.tenant_id audit_events event.id event s

  unfoldable pub write_batch : ℕ → List AuditEvent → b.State → b.State
  write_batch now [] s = s
  write_batch now (e ∷ es) s = b.batch_set now e.tenant_id audit_events (map entry (e ∷ es)) s

  -- `t, c, k` is none of the places of the events under the tenant.
  batch_set_elsewhere :
      (now : ℕ) (tenant : String) (es : List AuditEvent) (s : b.State) (t c k : String)
      → All (λ e. same_place tenant audit_events e.id t c k ≡ false) es
      → b.read (b.batch_set now tenant audit_events (map entry es) s) t c k ≡ b.read s t c k
  batch_set_elsewhere now tenant [] s t c k h = b.batch_set-nil now tenant audit_events s t c k
  batch_set_elsewhere now tenant (e ∷ es) s t c k h =
      let set = b.read-set now tenant audit_events e.id e s t c k in
      b.batch_set-cons now tenant audit_events e.id e (map entry es) s t c k
      ∙ batch_set_elsewhere now tenant es (b.set now tenant audit_events e.id e s) t c k h.1
      ∙ ground (arith, set, h.0)

  -- Each event is read back under the tenant.
  abbrev pub Stores : String → List AuditEvent → b.State → Type 0
  Stores tenant es s = All (λ e. b.read s tenant audit_events e.id ≡ some e) es

  batch_set-Stores :
      (now : ℕ) (tenant : String) (es : List AuditEvent) (s : b.State)
      → IsUnique es
      → Stores tenant es (b.batch_set now tenant audit_events (map entry es) s)
  batch_set-Stores now tenant [] s u = tt
  batch_set-Stores now tenant (e ∷ es) s u =
      let s' = b.set now tenant audit_events e.id e s in
      let cons = b.batch_set-cons now tenant audit_events e.id e (map entry es) s in
      let set = b.read-set now tenant audit_events e.id e s tenant audit_events e.id in
      let later =
        batch_set_elsewhere now tenant es s' tenant audit_events e.id (
          All-map (λ e'. e.id ≢ e'.id) _ es (λ e' ne. ground (arith, ne, eq_iff e'.id e.id)) u.0) in
      (
        cons tenant audit_events e.id
            ∙ later
            ∙ ground (
              arith,
              set,
              eq_iff tenant tenant,
              eq_iff audit_events audit_events,
              eq_iff e.id e.id,
            ),
        All-map
            (λ e'.
              b.read (b.batch_set now tenant audit_events (map entry es) s') tenant audit_events
                e'.id
              ≡ some e')
            _ es (λ e' h. cons tenant audit_events e'.id ∙ h)
            (batch_set-Stores now tenant es s' u.1),
      )

  -- After a batch of events with different ids, each of them is read back under its id and the
  -- tenant of the first event, and whatever is stored for any other tenant is as it was, also where
  -- it is the tenant of a later event of the batch.
  pub write_batch-Stores :
      (now : ℕ) (e : AuditEvent) (es : List AuditEvent) (s : b.State)
      → IsUnique (e ∷ es)
      → Stores e.tenant_id (e ∷ es) (write_batch now (e ∷ es) s)
        × ((t c k : String)
            → t ≢ e.tenant_id
            → b.read (write_batch now (e ∷ es) s) t c k ≡ b.read s t c k)
  unfolding write_batch
  write_batch-Stores now e es s u = (
    batch_set-Stores now e.tenant_id (e ∷ es) s u,
    λ t c k ne.
        batch_set_elsewhere now e.tenant_id (e ∷ es) s t c k
          (All_of (λ e'. ground (arith, ne, eq_iff e.tenant_id t)) (e ∷ es)),
  )
