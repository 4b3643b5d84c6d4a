-- ===== src/Reliability/Checkpoints/Laws.antt =====
-- What the checkpoint manager lists and loads.
use openclaw_enterprise_plug.Common.{
  ℕ, ◌≤◌, ◌<◌, String, ◌≡◌, ap, true, none, some, List, [], ◌∷◌, sort, head?, length, find, All,
  All-map, str_eq, arith, leb→le, subst,
}
use openclaw_enterprise_plug.Common.Sorting.{IsSorted, IsOrder, sort-IsSorted}
use openclaw_enterprise_plug.Kernel.Storage.Paging.{PagedBackend, collect, collect-all, scan-find}
use openclaw_enterprise_plug.Reliability.Checkpoints.{
  Checkpoint, TargetType, checkpoints, target_prefix, no_older, load, list, load_latest,
}

no_older-IsOrder : IsOrder no_older
no_older-IsOrder = ((λ x y h. ground (arith, h)), (λ x y z h k. ground (arith, h, k)))

some_inj : {c d : Checkpoint} → some c ≡ some d → c ≡ d
some_inj h = cc

head?-newest :
    (l : List Checkpoint) (c : Checkpoint)
    → IsSorted no_older l
    → head? l ≡ some c
    → All (λ x. x.created_at ≤ c.created_at) l
head?-newest [] c s h = tt
head?-newest (x ∷ l) c s h =
    subst (λ d. All (λ y. y.created_at ≤ d.created_at) (x ∷ l)) (some_inj h)
      (
        omega arith,
        All-map (λ y. no_older x y ≡ true) (λ y. y.created_at ≤ x.created_at) l
            (λ y e. leb→le y.created_at x.created_at e) s.0,
      )

module _ (b : PagedBackend Checkpoint) where
  -- A listing that may read as many pages as there are entries, and one more, has all checkpoints
  -- stored under the prefix of the target, sorted, newest first.
  pub list-all :
      (fuel : ℕ) (tenant target_id : String) (target_type : TargetType) (s : b.backend.State)
      → length (b.entries tenant checkpoints (some (target_prefix target_type target_id)) s) < fuel
      → let l = (list b fuel tenant target_id target_type s).1 in
        (l
          ≡ sort no_older
              (b.entries tenant checkpoints (some (target_prefix target_type target_id)) s))
        × IsSorted no_older l
  unfolding list
  list-all fuel tenant target_id target_type s h =
      let prefix = some (target_prefix target_type target_id) in
      let e =
        collect-all b tenant checkpoints prefix 200 fuel 0 s (omega arith) (omega (arith, h)) in
      (
        ap (sort no_older) e,
        sort-IsSorted no_older no_older-IsOrder
            (collect b tenant checkpoints prefix 200 fuel 0 s).1,
      )

  -- The latest checkpoint of a target is one of those listed, and none of them is newer.
  pub load_latest-newest :
      (fuel : ℕ) (tenant target_id : String) (target_type : TargetType) (s : b.backend.State)
      (c : Checkpoint)
      → (load_latest b fuel tenant target_id target_type s).1 ≡ some c
      → All (λ x. x.created_at ≤ c.created_at) (list b fuel tenant target_id target_type s).1
  unfolding load_latest list
  load_latest-newest fuel tenant target_id target_type s c h =
      let prefix = some (target_prefix target_type target_id) in
      let out = (collect b tenant checkpoints prefix 200 fuel 0 s).1 in
      head?-newest (sort no_older out) c (sort-IsSorted no_older no_older-IsOrder out) h

  -- A load by identity that may read as many pages as there are entries, and one more, answers the
  -- first checkpoint of the tenant with that identity, and nothing if there is none.
  pub load-find :
      (fuel : ℕ) (tenant id : String) (s : b.backend.State)
      → length (b.entries tenant checkpoints none s) < fuel
      → (load b fuel tenant id s).1
        ≡ find (λ c. str_eq c.id id) (b.entries tenant checkpoints none s)
  unfolding load
  load-find fuel tenant id s h =
      scan-find b tenant checkpoints none 200 (λ c. str_eq c.id id) fuel 0 s (omega arith)
        (omega (arith, h))
