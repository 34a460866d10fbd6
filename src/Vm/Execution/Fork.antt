-- ===== src/Vm/Execution/Fork.antt =====
-- vm/execution.rs: transactions on a copy of the engine.
use icn_covm.Prelude.{true, false, not, Option, none, some, [], ◌++◌, Text, text}
use icn_covm.Prelude.Actions.{Result, ok, err, Action, fail_if, ◌>>◌, modify}
use icn_covm.Storage.Types.{StorageError}
use icn_covm.Vm.Error.{VmError, storage_unavailable, storage_error}
use icn_covm.Vm.Values.{Floats}
use icn_covm.Vm.Execution.{Host, VmExecution}

module _ {N : Floats} (H : Host N) where
  open H use {S, J}

  abbrev pub forked_with :
      VmExecution S J → Result StorageError (Unit {0}) × S → Result VmError (VmExecution S J)
  forked_with e (ok u, s) =
      ok (record e { storage_backend = some s; events = []; transaction_active = true })
  forked_with e (err error, s) =
      err (storage_error (text "Failed to begin transaction: " ++ H.debug_error error))

  -- The transaction begins on the copy; `e` itself does not change.
  unfoldable pub fork : VmExecution S J → Result VmError (VmExecution S J)
  fork e = elim e.storage_backend [
    | none ↦ err storage_unavailable
    | some s ↦ forked_with e (H.begin_transaction s)
  ]

  abbrev pub finished : Text → Result StorageError (Unit {0}) → Result VmError (Unit {0})
  finished failure (ok u) = ok tt
  finished failure (err error) = err (storage_error (failure ++ H.debug_error error))

  -- `backend.…().map_err(…)?` where there is a backend
  abbrev pub finish_transaction :
      Text
      → Action S StorageError (Unit {0})
      → Option S
      → Action (VmExecution S J) VmError (Unit {0})
  finish_transaction failure f none e = (ok tt, e)
  finish_transaction failure f (some s) e =
      let (r, s') = f s in (finished failure r, record e { storage_backend = some s' })

  unfoldable pub commit_fork_transaction : Action (VmExecution S J) VmError (Unit {0})
  commit_fork_transaction e₀ =
      (do
        fail_if (not e₀.transaction_active) (storage_error (text "No active transaction to commit"))
        finish_transaction (text "Failed to commit transaction: ") H.commit_transaction
            e₀.storage_backend
        modify (λ e. record e { transaction_active = false }))
        e₀

  unfoldable pub rollback_fork_transaction : Action (VmExecution S J) VmError (Unit {0})
  rollback_fork_transaction e₀ =
      (do
        fail_if (not e₀.transaction_active)
            (storage_error (text "No active transaction to rollback"))
        finish_transaction (text "Failed to rollback transaction: ") H.rollback_transaction
            e₀.storage_backend
        modify (λ e. record e { transaction_active = false }))
        e₀
