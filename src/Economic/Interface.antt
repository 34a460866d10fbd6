-- ===== src/Economic/Interface.antt =====
-- storage/traits.rs, `StorageBackend`: what the economic operations call, for one caller and one
-- namespace, and the laws that they rely on. `InMemory` fills it.
use icn_covm.Prelude.{ℕ, ◌≡◌, Bool, true, List, Text, ◌==◌, if◌then◌else◌}
use icn_covm.Prelude.Actions.{ok, Action}
use icn_covm.Storage.Types.{StorageError, StorageResult}
use icn_covm.Storage.InMemory.{Times}

pub record Backend : Type 1 where
  pub State : Type 0
  pub user : Text
  pub namespace : Text
  pub contains : Text → State → StorageResult Bool
  pub get : Text → State → StorageResult (List ℕ)
  pub set : Times → Text → List ℕ → Action State StorageError (Unit {0})
  pub contains_set :
      (t : Times) (k : Text) (v : List ℕ) (s : State) (j : Text)
      → (set t k v s).0 ≡ ok tt
      → contains j (set t k v s).1 ≡ (if k == j then ok true else contains j s)
  pub get_set :
      (t : Times) (k : Text) (v : List ℕ) (s : State) (j : Text)
      → (set t k v s).0 ≡ ok tt
      → get j (set t k v s).1 ≡ (if k == j then ok v else get j s)
