-- ===== src/Storage/InMemory/Quota.antt =====
-- InMemoryStorage: the usage of accounts and their quotas.
use icn_covm.Prelude.{
  ℕ, ◌-◌, ◌≤◌, ◌≡◌, refl, Option, none, some, List, [], ◌∷◌, Text, text, Dict, lookup, insert,
  lookup-insert, inl, inr, arith, Option-cases, Bool-cases, ltb, length, lookup_in, ◌⊎◌,
}
use icn_covm.Prelude.Actions.{Result, ok, ok_or, resume_post}
use icn_covm.Storage.Types.{Timestamp, StorageError}
use icn_covm.Storage.Auth.{AuthContext}
use icn_covm.Storage.Resource.{ResourceAccount, can_store, add_usage, reduce_usage}
use icn_covm.Storage.Resource
use icn_covm.Storage.InMemory.{
  InMemoryStorage, Times, check_permission, account_usage, grow_usage, update_account,
  make_internal_key, size_of, record_entry, set, delete, create_account, create_namespace,
}
use icn_covm.Storage.InMemory.Transactions.{
  Request, set_value, delete_key, add_account, add_namespace, perform, perform_all,
}

abbrev pub Fits : ResourceAccount → Type 0
Fits r = r.storage_used_bytes ≤ r.storage_quota_bytes

abbrev pub AccountsFit : Dict ResourceAccount → Type 0
AccountsFit accounts = (user : Text) (r : ResourceAccount) → lookup user accounts ≡ some r → Fits r

abbrev pub WithinQuota : InMemoryStorage → Type 0
WithinQuota s = AccountsFit s.accounts

insert-AccountsFit :
    (user : Text) (r : ResourceAccount) (d : Dict ResourceAccount)
    → Fits r
    → AccountsFit d
    → AccountsFit (insert user r d)
insert-AccountsFit user r d f h u q e = ground (arith, lookup-insert user u r d, h u q)

add_usage-Fits :
    (now : Timestamp) (n : ℕ) (r r' : ResourceAccount) → add_usage now n r ≡ ok r' → Fits r'
unfolding add_usage
add_usage-Fits now n r r' e = ground arith

reduce_usage-Fits :
    (now : Timestamp) (n : ℕ) (r : ResourceAccount) → Fits r → Fits (reduce_usage now n r)
unfolding reduce_usage
reduce_usage-Fits now n r f = omega arith

update_account-AccountsFit :
    (now : Timestamp) (user : Text) (n : ℕ) (d : Dict ResourceAccount)
    → AccountsFit d
    → AccountsFit (update_account user (reduce_usage now n) d)
unfolding update_account
update_account-AccountsFit now user n d h = elim (Option-cases (lookup user d)) [
  | inl e ↦ rw (e, update_account) h
  | inr (r, e) ↦
      rw (e, update_account)
        (insert-AccountsFit user (reduce_usage now n r) d (reduce_usage-Fits now n r (h user r e))
          h)
]

grow_usage-WithinQuota :
    (now : Timestamp) (user key : Text) (n : ℕ) (s : InMemoryStorage)
    → WithinQuota s
    → WithinQuota (grow_usage now user key n s).1
unfolding grow_usage
grow_usage-WithinQuota now user key n s h =
    resume_post WithinQuota (ok_or (lookup user s.accounts) _) s _ h (λ r _.
      resume_post WithinQuota (add_usage now n r) s _ h
        (λ r' e. insert-AccountsFit user r' s.accounts (add_usage-Fits now n r r' e) h))

account_usage-WithinQuota :
    (now : Timestamp) (user key : Text) (old size : ℕ) (s : InMemoryStorage)
    → WithinQuota s
    → WithinQuota (account_usage now user key old size s).1
unfolding account_usage
account_usage-WithinQuota now user key old size s h = elim (Bool-cases (ltb old size)) [
  | inl more ↦ rw more (grow_usage-WithinQuota now user key (size - old) s h)
  | inr more ↦ elim (Bool-cases (ltb size old)) [
    | inl less ↦ rw (more, less) (update_account-AccountsFit now user (old - size) s.accounts h)
    | inr less ↦ rw (more, less) h
  ]
]

set-WithinQuota :
    {J : Type 0} (times : Times) (auth : Option (AuthContext J)) (ns key : Text) (v : List ℕ)
    (s : InMemoryStorage)
    → WithinQuota s
    → WithinQuota (set times auth ns key v s).1
unfolding set
set-WithinQuota times none ns key v s h =
    resume_post WithinQuota (check_permission none (text "write") ns) s _ h (λ _ _. h)
set-WithinQuota times (some a) ns key v s h =
    resume_post WithinQuota (check_permission (some a) (text "write") ns) s _ h
      (λ _ _. resume_post WithinQuota used.0 used.1 _ kept (λ _ _. kept))
  where
    recorded : InMemoryStorage
    recorded = record s {
      transaction_stack = record_entry (ns, key, lookup_in ns key s.values) s.transaction_stack;
    }

    used : Result StorageError (Unit {0}) × InMemoryStorage
    used =
        account_usage times.account a.current_identity_did (make_internal_key ns key)
          (size_of (lookup_in ns key s.values)) (length v) recorded

    kept : WithinQuota used.1
    kept = account_usage-WithinQuota _ _ _ _ _ recorded h

delete-WithinQuota :
    {J : Type 0} (times : Times) (auth : Option (AuthContext J)) (ns key : Text)
    (s : InMemoryStorage)
    → WithinQuota s
    → WithinQuota (delete times auth ns key s).1
unfolding delete
delete-WithinQuota times none ns key s h = h
delete-WithinQuota times (some a) ns key s h =
    resume_post WithinQuota (check_permission (some a) (text "write") ns) s _ h (λ _ _.
      resume_post WithinQuota (ok_or (lookup_in ns key s.values) _) s _ h (λ v _.
        update_account-AccountsFit times.account a.current_identity_did (length v) s.accounts h))

create_account_adds :
    {J : Type 0} (times : Times) (auth : Option (AuthContext J)) (user : Text) (quota : ℕ)
    (s : InMemoryStorage)
    → let s' = (create_account times auth user quota s).1 in
      (s'.accounts ≡ s.accounts)
      ⊎ (s'.accounts ≡ insert user (Resource.new times.account user quota) s.accounts)
unfolding create_account
create_account_adds times none user quota s = inl refl
create_account_adds times (some a) user quota s = ground arith

create_namespace_accounts :
    {J : Type 0} (times : Times) (a : AuthContext J) (ns : Text) (quota : ℕ) (parent : Option Text)
    (s : InMemoryStorage)
    → (create_namespace times a ns quota parent s).1.accounts ≡ s.accounts
unfolding create_namespace
create_namespace_accounts times a ns quota parent s = ground arith

perform-WithinQuota :
    {J : Type 0} (r : Request J) (s : InMemoryStorage) → WithinQuota s → WithinQuota (perform r s)
unfolding perform
perform-WithinQuota (set_value times auth ns key v) s h = set-WithinQuota times auth ns key v s h
perform-WithinQuota (delete_key times auth ns key) s h = delete-WithinQuota times auth ns key s h
perform-WithinQuota (add_account times auth user quota) s h =
    elim (create_account_adds times auth user quota s) [
      | inl same ↦ rw same h
      | inr added ↦ rw added (
          insert-AccountsFit user (Resource.new times.account user quota) s.accounts (omega arith)
            h)
    ]
perform-WithinQuota (add_namespace times a ns quota parent) s h = rw create_namespace_accounts h

-- Writes, deletions, new accounts and new namespaces, with any arguments and whether they succeed
-- or fail, keep every account's usage within its quota.
pub perform_all-WithinQuota :
    {J : Type 0} (rs : List (Request J)) (s : InMemoryStorage)
    → WithinQuota s
    → WithinQuota (perform_all rs s)
unfolding perform_all
perform_all-WithinQuota [] s h = h
perform_all-WithinQuota (r ∷ rs) s h =
    perform_all-WithinQuota rs (perform r s) (perform-WithinQuota r s h)
