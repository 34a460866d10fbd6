-- ===== src/Storage/InMemory/Writes.antt =====
-- InMemoryStorage: what a successful write or deletion leaves behind.
use icn_covm.Prelude.{ℕ, ◌≡◌, some, List, Text, text, lookup_in, insert_in, remove_within, arith}
use icn_covm.Prelude.Actions.{ok}
use icn_covm.Storage.Types.{Timestamp}
use icn_covm.Storage.Auth.{AuthContext}
use icn_covm.Storage.InMemory.{
  InMemoryStorage, Times, check_permission, account_usage, grow_usage, written_version, set, delete,
}

-- Accounting for a write touches nothing but the accounts.
pub account_usage_keeps :
    (now : Timestamp) (user key : Text) (old size : ℕ) (s : InMemoryStorage)
    → let s' = (account_usage now user key old size s).1 in
      (s'.values ≡ s.values)
      × (s'.transaction_stack ≡ s.transaction_stack)
      × (s'.versions ≡ s.versions)
      × (s'.audit_log ≡ s.audit_log)
unfolding account_usage grow_usage
account_usage_keeps now user key old size s = ground arith

pub set_inversion :
    {J : Type 0} (times : Times) (a : AuthContext J) (ns key : Text) (v : List ℕ)
    (s : InMemoryStorage)
    → (set times (some a) ns key v s).0 ≡ ok tt
    → let s' = (set times (some a) ns key v s).1 in
      (check_permission (some a) (text "write") ns ≡ ok tt)
      × (s'.values ≡ insert_in ns key v s.values)
      × (s'.versions
          ≡ insert_in ns key
              (written_version times.version a.current_identity_did (lookup_in ns key s.versions))
              s.versions)
unfolding set
set_inversion times a ns key v s h = grind (arith, account_usage_keeps)

pub delete_inversion :
    {J : Type 0} (times : Times) (a : AuthContext J) (ns key : Text) (s : InMemoryStorage)
    → (delete times (some a) ns key s).0 ≡ ok tt
    → let s' = (delete times (some a) ns key s).1 in
      (check_permission (some a) (text "write") ns ≡ ok tt)
      × (s'.values ≡ remove_within ns key s.values)
      × (s'.versions ≡ remove_within ns key s.versions)
unfolding delete
delete_inversion times a ns key s h = ground arith
