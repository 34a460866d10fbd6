-- ===== src/Storage/InMemory/Transactions.antt =====
-- storage/implementations/in_memory.rs: transactions, a stack of rollback logs.
use icn_covm.Prelude.{Option, none, some, List, [], ◌∷◌, Text, text, Dict, ℕ, insert_in, remove_in}
use icn_covm.Prelude.Actions.{ok, err, modify}
use icn_covm.Storage.Types.{StorageResult, transaction_error}
use icn_covm.Storage.Auth.{AuthContext}
use icn_covm.Storage.InMemory.{
  InMemoryStorage, Times, Entry, Run, set, delete, create_account, create_namespace,
}

unfoldable pub begin_transaction : Run (Unit {0})
begin_transaction = modify (λ s. record s { transaction_stack = [] ∷ s.transaction_stack })

abbrev pub commit_stack :
    List (List Entry) → InMemoryStorage → StorageResult (Unit {0}) × InMemoryStorage
commit_stack [] s = (err (transaction_error (text "No active transaction to commit")), s)
commit_stack (current ∷ stack) s = (ok tt, record s { transaction_stack = stack })

unfoldable pub commit_transaction : Run (Unit {0})
commit_transaction s = commit_stack s.transaction_stack s

abbrev pub undo : Entry → Dict (Dict (List ℕ)) → Dict (Dict (List ℕ))
undo (namespace, key, some old) values = insert_in namespace key old values
undo (namespace, key, none) values = remove_in namespace key values

-- newest entry first
unfoldable pub undo_all : List Entry → Dict (Dict (List ℕ)) → Dict (Dict (List ℕ))
undo_all [] values = values
undo_all (e ∷ entries) values = undo_all entries (undo e values)

abbrev pub rollback_stack :
    List (List Entry) → InMemoryStorage → StorageResult (Unit {0}) × InMemoryStorage
rollback_stack [] s = (err (transaction_error (text "No active transaction to rollback")), s)
rollback_stack (current ∷ stack) s =
    (ok tt, record s { values = undo_all current s.values; transaction_stack = stack })

unfoldable pub rollback_transaction : Run (Unit {0})
rollback_transaction s = rollback_stack s.transaction_stack s

-- a call that may stand inside a transaction
pub data Request (J : Type 0) : Type 0 where
  set_value : Times → Option (AuthContext J) → Text → Text → List ℕ → Request J
  delete_key : Times → Option (AuthContext J) → Text → Text → Request J
  add_account : Times → Option (AuthContext J) → Text → ℕ → Request J
  add_namespace : Times → AuthContext J → Text → ℕ → Option Text → Request J

-- the storage after a call, whether it succeeded or not
unfoldable pub perform : {J : Type 0} → Request J → InMemoryStorage → InMemoryStorage
perform (set_value times auth ns key value) s = (set times auth ns key value s).1
perform (delete_key times auth ns key) s = (delete times auth ns key s).1
perform (add_account times auth user quota) s = (create_account times auth user quota s).1
perform (add_namespace times a ns quota parent) s = (create_namespace times a ns quota parent s).1

unfoldable pub perform_all : {J : Type 0} → List (Request J) → InMemoryStorage → InMemoryStorage
perform_all [] s = s
perform_all (r ∷ rs) s = perform_all rs (perform r s)
