-- ===== src/Collaboration/Handoff/Announced.antt =====
-- What the transitions of a hand-over publish, and what they leave when they throw.
use openclaw_enterprise_plug.Common.{
  ℕ, String, ◌≡◌, refl, sym, ◌∙◌, ◌⊎◌, Option, none, some, [], ◌∷◌, ◌++◌, arith, eq_iff, inl, inr,
}
use openclaw_enterprise_plug.Kernel.Storage.{Updated, updated, threw}
use openclaw_enterprise_plug.Kernel.Storage.Interface.{StorageBackend}
use openclaw_enterprise_plug.Collaboration.Handoff.{
  resolved, HandoffResult, HandoffEvent, System, Ended, done, thrown, handoffs, resolve_row,
  announce, move, resolve_request,
}
use openclaw_enterprise_plug.Collaboration.Handoff.Lifecycle.{row_of, move-row}

-- What resolving makes of a row.
resolved_row :
    (id what : String) (now : ℕ) (old : Option HandoffResult) (row : HandoffResult)
    → resolve_row id what now old ≡ updated row
    → (row.status ≡ resolved) × (row.resolution ≡ some what) × (row.resolved_at ≡ some now)
unfolding resolve_row
resolved_row id what now none row h = ground arith
resolved_row id what now (some old) row h = grind arith

abbrev pub event : String → String → ℕ → HandoffResult → HandoffEvent
event kind tenant now row = record {
  kind = kind;
  tenant_id = tenant;
  timestamp = now;
  payload = row;
}

module _ (b : StorageBackend HandoffResult) where
  open b use {State, read, atomic_update, atomic_update-read}

  -- A transition that threw, and one that came through.
  abbrev pub Refused : String → String → System State → System State → Ended → Type 0
  Refused t i s s' r =
      (e : String) × (r ≡ thrown e)
      × (s'.published ≡ s.published)
      × (row_of b t i s' ≡ row_of b t i s)

  abbrev pub Announced :
      String → ℕ → String → String → HandoffResult → System State → System State → Ended → Type 0
  Announced kind now tenant id row s s' r =
      (r ≡ done)
      × (row_of b tenant id s' ≡ some row)
      × (s'.published ≡ s.published ++ event kind tenant now row ∷ [])

  announce-cases :
      (kind : String) (now : ℕ) (tenant id : String) (store : State) (u : Updated HandoffResult)
      (s : System State)
      → let (s', r) = announce b kind tenant now store u s in
        ((e : String) × (u ≡ threw e) × (r ≡ thrown e) × (s'.published ≡ s.published))
        ⊎ ((row : HandoffResult) × (u ≡ updated row)
            × (r ≡ done)
            × (s'.published ≡ s.published ++ event kind tenant now row ∷ []))
  unfolding announce
  announce-cases kind now tenant id store (updated row) s = inr (row, refl, refl, refl)
  announce-cases kind now tenant id store (threw e) s = inl (e, refl, refl, refl)

  move-cases :
      (kind : String) (now : ℕ) (tenant id : String)
      (f : Option HandoffResult → Updated HandoffResult) (s : System State) (t i : String)
      → let (s', r) = move b kind now tenant id f s in
        Refused t i s s' r
        ⊎ ((row : HandoffResult) × (f (row_of b tenant id s) ≡ updated row)
            × Announced kind now tenant id row s s' r)
  unfolding move
  move-cases kind now tenant id f s t i =
      let (store, u) = atomic_update now tenant handoffs id f s.store in
      let same : u ≡ f (row_of b tenant id s) =
        (atomic_update-read now tenant handoffs id f s.store tenant handoffs id).0 in
      let there = move-row b kind now tenant id f s t i in
      let here = move-row b kind now tenant id f s tenant id in
      elim (announce-cases kind now tenant id store u s) [
        | inl (e, x, r, p) ↦ inl (e, r, p, ground (arith, there, sym same ∙ x))
        | inr (row, x, r, p) ↦
            (let read_back : row_of b tenant id (move b kind now tenant id f s).0 ≡ some row =
                ground (arith, here, sym same ∙ x, eq_iff tenant tenant, eq_iff id id) in
              inr (row, sym same ∙ x, (r, read_back, p)))
      ]

  -- Resolving throws, publishes nothing and changes nothing that anybody reads, or it publishes
  -- exactly one event, with the row that is read from then on: resolved, now, as given.
  pub resolve_request-published :
      (now : ℕ) (tenant id what t i : String) (s : System State)
      → let (s', r) = resolve_request b now tenant id what s in
        Refused t i s s' r
        ⊎ ((row : HandoffResult) × ((row.status ≡ resolved)
              × (row.resolution ≡ some what)
              × (row.resolved_at ≡ some now))
            × Announced "handoff.request.resolved" now tenant id row s s' r)
  unfolding resolve_request
  resolve_request-published now tenant id what t i s =
      elim (move-cases "handoff.request.resolved" now tenant id (resolve_row id what now) s t i) [
        | inl refused ↦ inl refused
        | inr (row, e, announced) ↦
            inr (row, resolved_row id what now (row_of b tenant id s) row e, announced)
      ]
