-- ===== src/Common/Dict.antt =====
-- The `Map` of the source language with texts for keys: its entries in the order of insertion.
use Prim.Native.String.{String}
use mathlib.Core.Path.{◌≡◌, refl}
use mathlib.Core.Bool.{Bool}
use mathlib.Core.List.{List, [], ◌∷◌}
use mathlib.Core.Option.{Option, none, some}
use native.Mathlib.Omega.{arith}
use text.Mathlib.TextEquality.{eq_iff}
use openclaw_enterprise_plug.Common.Tests.{str_eq, if◌then◌else◌}

abbrev pub Dict {ℓ} : Type ℓ → Type ℓ
Dict V = List (String × V)

module _ {ℓ} {V : Type ℓ} where
  -- `m.get(k)`
  unfoldable pub get : Dict V → String → Option V
  get [] k = none
  get ((j, v) ∷ m) k = if str_eq j k then some v else get m k

  -- `m.set(k, v)`: an entry that is there keeps its place, a new one goes to the end.
  unfoldable pub set : Dict V → String → V → Dict V
  set [] k v = (k, v) ∷ []
  set ((j, w) ∷ m) k v = if str_eq j k then (j, v) ∷ m else (j, w) ∷ set m k v

  -- `m.delete(k)`
  unfoldable pub delete : Dict V → String → Dict V
  delete [] k = []
  delete ((j, v) ∷ m) k = if str_eq j k then delete m k else (j, v) ∷ delete m k

  -- The loop `for (const [k, v] of m) if (!keep(v)) m.delete(k)`.
  unfoldable pub retain : (V → Bool) → Dict V → Dict V
  retain keep [] = []
  retain keep ((j, v) ∷ m) = if keep v then (j, v) ∷ retain keep m else retain keep m

  -- Each key stands once, as in every `Map`.
  abbrev pub IsUnique : Dict V → Type ℓ
  IsUnique [] = Unit
  IsUnique ((j, v) ∷ m) = (get m j ≡ none) × IsUnique m

  pub get-set :
      (m : Dict V) (k : String) (v : V) (j : String)
      → get (set m k v) j ≡ (if str_eq k j then some v else get m j)
  unfolding get set
  get-set [] k v j = refl
  get-set ((i, w) ∷ m) k v j = ground (arith, eq_iff k j, eq_iff i k, eq_iff i j, get-set m k v j)

  pub get-set_self : (m : Dict V) (k : String) (v : V) → get (set m k v) k ≡ some v
  get-set_self m k v = ground (arith, get-set m k v k, eq_iff k k)

  pub get-delete :
      (m : Dict V) (k j : String) → get (delete m k) j ≡ (if str_eq k j then none else get m j)
  unfolding get delete
  get-delete [] k j = ground arith
  get-delete ((i, w) ∷ m) k j = ground (arith, eq_iff k j, eq_iff i k, eq_iff i j, get-delete m k j)

  -- What a key reads after the loop, in a map whose keys stand once.
  abbrev pub kept : (V → Bool) → Option V → Option V
  kept keep none = none
  kept keep (some v) = if keep v then some v else none

  retain_absent :
      (keep : V → Bool) (m : Dict V) (k : String) → get m k ≡ none → get (retain keep m) k ≡ none
  unfolding get retain
  retain_absent keep [] k h = refl
  retain_absent keep ((i, w) ∷ m) k h = ground (arith, retain_absent keep m k)

  pub get-retain :
      (keep : V → Bool) (m : Dict V) (k : String)
      → IsUnique m
      → get (retain keep m) k ≡ kept keep (get m k)
  unfolding get retain
  get-retain keep [] k u = refl
  get-retain keep ((i, w) ∷ m) k u =
      ground (arith, eq_iff i k, get-retain keep m k u.1, retain_absent keep m k)

  pub set-IsUnique : (m : Dict V) (k : String) (v : V) → IsUnique m → IsUnique (set m k v)
  unfolding get set
  set-IsUnique [] k v u = (refl, tt)
  set-IsUnique ((i, w) ∷ m) k v u =
      ground (arith, eq_iff i k, eq_iff k i, get-set m k v i, set-IsUnique m k v u.1)

  pub delete-IsUnique : (m : Dict V) (k : String) → IsUnique m → IsUnique (delete m k)
  unfolding get delete
  delete-IsUnique [] k u = tt
  delete-IsUnique ((i, w) ∷ m) k u = ground (arith, get-delete m k i, delete-IsUnique m k u.1)

  pub retain-IsUnique : (keep : V → Bool) (m : Dict V) → IsUnique m → IsUnique (retain keep m)
  unfolding get retain
  retain-IsUnique keep [] u = tt
  retain-IsUnique keep ((i, w) ∷ m) u =
      ground (arith, retain_absent keep m i, retain-IsUnique keep m u.1)
