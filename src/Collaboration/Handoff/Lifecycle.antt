-- ===== src/Collaboration/Handoff/Lifecycle.antt =====
-- The life of a hand-over: which changes of status there are, and that a settled one is final.
use openclaw_enterprise_plug.Common.{
  ℕ, String, ◌≡◌, ◌≢◌, refl, sym, subst, ap, ◌∙◌, ◌⊎◌, Option, some, List, [], ◌∷◌, arith, All,
  eq_iff, if◌then◌else◌, inl, inr, Bool-cases,
}
use openclaw_enterprise_plug.Kernel.Storage.{Updated, updated, threw}
use openclaw_enterprise_plug.Kernel.Storage.Interface.{StorageBackend, same_place, written, outcome}
use openclaw_enterprise_plug.Collaboration.Handoff.{
  Status, pending, assigned, resolved, expired, cancelled, HandoffRequest, HandoffResult, System,
  handoffs, new_row, assign_row, resolve_row, cancel_row, announce, move, create_request,
  assign_request, resolve_request, cancel_request, get_request,
}

-- The changes of status that the comments and the guards allow.
pub data Moves : Status → Status → Type 0 where
  assigns : Moves pending assigned
  resolves_pending : Moves pending resolved
  resolves_assigned : Moves assigned resolved
  cancels_pending : Moves pending cancelled
  cancels_assigned : Moves assigned cancelled
  cancels_expired : Moves expired cancelled

ruleset moves = (
  assigns, resolves_pending, resolves_assigned, cancels_pending, cancels_assigned, cancels_expired,
)

-- The tenant, the id and the date of creation never change, and the status moves.
pub record Changes (row row' : HandoffResult) : Type 0 where
  pub moved : Moves row.status row'.status
  pub same_id : row'.id ≡ row.id
  pub same_tenant : row'.tenant_id ≡ row.tenant_id
  pub same_created : row'.created_at ≡ row.created_at

assign-Changes :
    (id who : String) (now : ℕ) (row : HandoffResult) {row' : HandoffResult}
    → assign_row id who now (some row) ≡ updated row'
    → Changes row row'
unfolding assign_row
assign-Changes id who now row h = grind (arith, moves)

resolve-Changes :
    (id what : String) (now : ℕ) (row : HandoffResult) {row' : HandoffResult}
    → resolve_row id what now (some row) ≡ updated row'
    → Changes row row'
unfolding resolve_row
resolve-Changes id what now row h = grind (arith, moves)

cancel-Changes :
    (id : String) (now : ℕ) (row : HandoffResult) {row' : HandoffResult}
    → cancel_row id now (some row) ≡ updated row'
    → Changes row row'
unfolding cancel_row
cancel-Changes id now row h = grind (arith, moves)

-- Any number of changes.
pub data Leads (row : HandoffResult) : HandoffResult → Type 0 where
  stays : Leads row row
  changes : {r r' : HandoffResult} → Leads row r → Changes r r' → Leads row r'

Moves-final : {s t : Status} → Moves s t → (s ≡ resolved) ⊎ (s ≡ cancelled) → ⊥
Moves-final assigns h = ground arith
Moves-final _ h = ground arith

Leads-final :
    {row row' : HandoffResult}
    → Leads row row'
    → (row.status ≡ resolved) ⊎ (row.status ≡ cancelled)
    → row' ≡ row
Leads-final stays h = refl
Leads-final {row} (changes {r} {r'} l c) h =
    let e : r ≡ row = Leads-final l h in
    absurd
      (Moves-final c.moved (subst (λ x. (x.status ≡ resolved) ⊎ (x.status ≡ cancelled)) (sym e) h))

pub Updated-cases :
    (u : Updated HandoffResult)
    → ((r : HandoffResult) × (u ≡ updated r)) ⊎ ((e : String) × (u ≡ threw e))
Updated-cases (updated r) = inl (r, refl)
Updated-cases (threw e) = inr (e, refl)

pub data Operation : Type 0 where
  creating : String → ℕ → String → HandoffRequest → Operation
  assigning : ℕ → String → String → String → Operation
  resolving : ℕ → String → String → String → Operation
  cancelling : ℕ → String → String → Operation
  getting : String → String → Operation

-- The generated id of a new request is not the given one.
abbrev pub IsFresh : String → Operation → Type 0
IsFresh id (creating new now tenant request) = new ≢ id
IsFresh id _ = Unit

module _ (b : StorageBackend HandoffResult) where
  open b use {State, read, atomic_update, get-read, read-set, atomic_update-read}

  unfoldable pub perform : Operation → System State → System State
  perform (creating id now tenant request) s = (create_request b id now tenant request s).0
  perform (assigning now tenant id who) s = (assign_request b now tenant id who s).0
  perform (resolving now tenant id what) s = (resolve_request b now tenant id what s).0
  perform (cancelling now tenant id) s = (cancel_request b now tenant id s).0
  perform (getting tenant id) s = (get_request b tenant id s).0

  unfoldable pub perform_all : List Operation → System State → System State
  perform_all [] s = s
  perform_all (o ∷ os) s = perform_all os (perform o s)

  -- What a tenant reads under an id.
  abbrev pub row_of : String → String → System State → Option HandoffResult
  row_of tenant id s = read s.store tenant handoffs id

  announce-store :
      (kind tenant : String) (now : ℕ) (store : State) (u : Updated HandoffResult)
      (s : System State)
      → (announce b kind tenant now store u s).0.store ≡ store
  unfolding announce
  announce-store kind tenant now store (updated r) s = refl
  announce-store kind tenant now store (threw e) s = refl

  pub move-row :
      (kind : String) (now : ℕ) (tenant id : String)
      (f : Option HandoffResult → Updated HandoffResult) (s : System State) (t i : String)
      → row_of t i (move b kind now tenant id f s).0 ≡ (
          if same_place tenant handoffs id t handoffs i
          then written (outcome (f (row_of tenant id s))) (row_of t i s)
          else row_of t i s)
  unfolding move
  move-row kind now tenant id f s t i =
      let (store, u) = atomic_update now tenant handoffs id f s.store in
      ap (λ st. read st t handoffs i) (announce-store kind tenant now store u s)
      ∙ (atomic_update-read now tenant handoffs id f s.store t handoffs i).1

  move-Leads :
      (kind : String) (now : ℕ) (tenant id : String)
      (f : Option HandoffResult → Updated HandoffResult) (s : System State) (t i : String)
      (row₀ row : HandoffResult)
      → ((r r' : HandoffResult) → f (some r) ≡ updated r' → Changes r r')
      → row_of t i s ≡ some row
      → Leads row₀ row
      → (row' : HandoffResult) × (row_of t i (move b kind now tenant id f s).0 ≡ some row')
        × Leads row₀ row'
  move-Leads kind now tenant id f s t i row₀ row change e l =
      let m = move-row kind now tenant id f s t i in
      elim (Bool-cases (same_place tenant handoffs id t handoffs i)) [
        | inr n ↦ (row, ground (arith, m, n, e), l)
        | inl y ↦
            let same : row_of tenant id s ≡ some row =
              ground (arith, eq_iff tenant t, eq_iff id i, y, e) in
            elim (Updated-cases (f (some row))) [
              | inl (r, u) ↦ (r, ground (arith, m, y, same, u, e), changes l (change row r u))
              | inr (x, u) ↦ (row, ground (arith, m, y, same, u, e), l)
            ]
      ]

  perform-Leads :
      (o : Operation) (s : System State) (t i : String) (row₀ row : HandoffResult)
      → IsFresh i o
      → row_of t i s ≡ some row
      → Leads row₀ row
      → (row' : HandoffResult) × (row_of t i (perform o s) ≡ some row') × Leads row₀ row'
  unfolding perform create_request assign_request resolve_request cancel_request get_request
  perform-Leads (creating id now tenant request) s t i row₀ row h e l = (
    row,
    ground (
      arith,
      read-set now tenant handoffs id (new_row id now tenant request) s.store t handoffs i,
      eq_iff id i,
      h,
      e,
    ),
    l,
  )
  perform-Leads (assigning now tenant id who) s t i row₀ row h e l =
      move-Leads _ now tenant id (assign_row id who now) s t i row₀ row
        (λ r r' u. assign-Changes id who now r u) e l
  perform-Leads (resolving now tenant id what) s t i row₀ row h e l =
      move-Leads _ now tenant id (resolve_row id what now) s t i row₀ row
        (λ r r' u. resolve-Changes id what now r u) e l
  perform-Leads (cancelling now tenant id) s t i row₀ row h e l =
      move-Leads _ now tenant id (cancel_row id now) s t i row₀ row
        (λ r r' u. cancel-Changes id now r u) e l
  perform-Leads (getting tenant id) s t i row₀ row h e l =
      (row, (get-read tenant handoffs id s.store t handoffs i).1 ∙ e, l)

  perform_all-Leads_from :
      (os : List Operation) (s : System State) (t i : String) (row₀ row : HandoffResult)
      → All (IsFresh i) os
      → row_of t i s ≡ some row
      → Leads row₀ row
      → (row' : HandoffResult) × (row_of t i (perform_all os s) ≡ some row') × Leads row₀ row'
  unfolding perform_all
  perform_all-Leads_from [] s t i row₀ row h e l = (row, e, l)
  perform_all-Leads_from (o ∷ os) s t i row₀ row h e l =
      let (r, e', l') = perform-Leads o s t i row₀ row h.0 e l in
      perform_all-Leads_from os (perform o s) t i row₀ r h.1 e' l'

  -- A request that a tenant reads is there after any operations of any tenants, if no later request
  -- gets its id, and has changed only by the allowed changes of status, which keep its id, its
  -- tenant and the date of its creation.
  pub perform_all-Leads :
      (os : List Operation) (s : System State) (t i : String) (row : HandoffResult)
      → All (IsFresh i) os
      → row_of t i s ≡ some row
      → (row' : HandoffResult) × (row_of t i (perform_all os s) ≡ some row') × Leads row row'
  perform_all-Leads os s t i row h e = perform_all-Leads_from os s t i row row h e stays

  -- A resolved or cancelled request stays exactly as it is, whatever operations follow.
  pub settled_final :
      (os : List Operation) (s : System State) (t i : String) (row : HandoffResult)
      → All (IsFresh i) os
      → row_of t i s ≡ some row
      → (row.status ≡ resolved) ⊎ (row.status ≡ cancelled)
      → row_of t i (perform_all os s) ≡ some row
  settled_final os s t i row h e d =
      let (row', e', l) = perform_all-Leads os s t i row h e in e' ∙ ap some (Leads-final l d)
