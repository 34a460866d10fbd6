-- ===== src/Storage/InMemory/Nested.antt =====
-- InMemoryStorage: a transaction inside another.
use icn_covm.Prelude.{◌≡◌, refl, List, [], ◌∷◌}
use icn_covm.Prelude.Actions.{ok}
use icn_covm.Storage.InMemory.{InMemoryStorage}
use icn_covm.Storage.InMemory.Transactions.{
  commit_stack, rollback_stack, begin_transaction, commit_transaction, rollback_transaction,
  undo_all, Request, perform_all,
}
use icn_covm.Storage.InMemory.Rollback.{perform_all-Restores}

-- Begin a transaction and another inside it, make any calls, commit the inner one and roll back the
-- outer one: both succeed, and the values are still those that the calls left, since the committed
-- log is not handed to the outer transaction.
pub nested_commit_stays :
    {J : Type 0} (rs : List (Request J)) (s : InMemoryStorage)
    → let inner = perform_all rs (begin_transaction (begin_transaction s).1).1 in
      let (committed, after) = commit_transaction inner in
      let (rolled_back, final) = rollback_transaction after in
      (committed ≡ ok tt)
      × (rolled_back ≡ ok tt)
      × (final.values ≡ inner.values)
      × (final.transaction_stack ≡ s.transaction_stack)
unfolding begin_transaction commit_transaction rollback_transaction undo_all
nested_commit_stays rs s =
    let (log, top, _) =
      perform_all-Restores s.values ([] ∷ s.transaction_stack) rs
        (begin_transaction (begin_transaction s).1).1 ([], refl, λ n k. refl) in
    rw (top, commit_stack, rollback_stack) (refl, refl, refl, refl)
