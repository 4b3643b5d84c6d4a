-- ===== src/Kernel/Storage/Interface.antt =====
-- The interface StorageBackend of src/kernel/storage.ts, as far as the managers built on it rely on
-- it: what is read under each key, and how each operation changes that.
use openclaw_enterprise_plug.Common.{
  ℕ, String, ◌≡◌, Bool, ◌&&◌, Option, none, some, str_eq, if◌then◌else◌, is_some, List, [], ◌∷◌,
}
use openclaw_enterprise_plug.Kernel.Storage.{Updated, updated, threw}

-- The same place: tenant, collection and key.
abbrev pub same_place : String → String → String → String → String → String → Bool
same_place t c k t' c' k' = str_eq t t' && (str_eq c c' && str_eq k k')

-- What a key reads after `atomicUpdate`: an updater that throws changes nothing.
abbrev pub written {ℓ} : {V : Type ℓ} → Option V → Option V → Option V
written none old = old
written (some v) old = some v

abbrev pub outcome : {V : Type 0} → Updated V → Option V
outcome (updated v) = some v
outcome (threw e) = none

pub record StorageBackend (V : Type 0) : Type 1 where
  pub State : Type 0
  pub read : State → String → String → String → Option V
  pub get : String → String → String → State → State × Option V
  pub set : ℕ → String → String → String → V → State → State
  pub delete : String → String → String → State → State × Bool
  pub atomic_update :
      ℕ → String → String → String → (Option V → Updated V) → State → State × Updated V
  pub batch_set : ℕ → String → String → List (String × V) → State → State
  pub get-read :
      (t c k : String) (s : State) (t' c' k' : String)
      → ((get t c k s).1 ≡ read s t c k) × (read (get t c k s).0 t' c' k' ≡ read s t' c' k')
  pub read-set :
      (now : ℕ) (t c k : String) (v : V) (s : State) (t' c' k' : String)
      → read (set now t c k v s) t' c' k'
        ≡ (if same_place t c k t' c' k' then some v else read s t' c' k')
  pub read-delete :
      (t c k : String) (s : State) (t' c' k' : String)
      → ((delete t c k s).1 ≡ is_some (read s t c k))
        × (read (delete t c k s).0 t' c' k'
            ≡ (if same_place t c k t' c' k' then none else read s t' c' k'))
  pub atomic_update-read :
      (now : ℕ) (t c k : String) (f : Option V → Updated V) (s : State) (t' c' k' : String)
      → ((atomic_update now t c k f s).1 ≡ f (read s t c k))
        × (read (atomic_update now t c k f s).0 t' c' k' ≡ (
            if same_place t c k t' c' k'
            then written (outcome (f (read s t c k))) (read s t' c' k')
            else read s t' c' k'))
  pub batch_set-nil :
      (now : ℕ) (t c : String) (s : State) (t' c' k' : String)
      → read (batch_set now t c [] s) t' c' k' ≡ read s t' c' k'
  pub batch_set-cons :
      (now : ℕ) (t c k : String) (v : V) (es : List (String × V)) (s : State) (t' c' k' : String)
      → read (batch_set now t c ((k, v) ∷ es) s) t' c' k'
        ≡ read (batch_set now t c es (set now t c k v s)) t' c' k'
