-- ===== src/Storage/InMemory/Tests.antt =====
-- InMemoryStorage: the theorems at a small storage with one admin.
use icn_covm.Prelude.{
  ℕ, ◌≡◌, refl, false, none, some, List, [], ◌∷◌, ◌++◌, text, ◌==◌, ◌&&◌, if◌then◌else◌, lookup,
  insert, lookup_in, insert_in, member, add_member,
}
use icn_covm.Prelude.Actions.{ok, err, is_ok, then_do}
use icn_covm.Storage.Types.{not_found}
use icn_covm.Storage.Auth.{
  AuthContext, add_role_to_identity, add_role, has_role_for_identity, has_role,
}
use icn_covm.Storage.Auth
use icn_covm.Storage.Resource.{can_store, add_usage}
use icn_covm.Storage.InMemory.{
  InMemoryStorage, Times, check_permission, account_usage, grow_usage, update_account,
  make_internal_key, written_version, set, delete, create_account,
}
use icn_covm.Storage.InMemory
use icn_covm.Storage.InMemory.Permissions.{permitted, check_permission-permitted}
use icn_covm.Storage.InMemory.Reads.{get, list_versions}
use icn_covm.Storage.InMemory.ReadWrite.{get-set, get-delete, list_versions-set, history_of}
use icn_covm.Storage.InMemory.Transactions.{
  begin_transaction, commit_transaction, rollback_transaction, Request, set_value, delete_key,
  add_account, add_namespace, perform_all,
}
use icn_covm.Storage.InMemory.Rollback.{Agree, rollback_restores}
use icn_covm.Storage.InMemory.Nested.{nested_commit_stays}
use icn_covm.Storage.InMemory.Quota.{WithinQuota, perform_all-WithinQuota}

abbrev times : Times
times = record { account = 1; version = 2; audit = 3 }

abbrev admin : AuthContext ℕ
admin = add_role (text "global") (text "admin") (Auth.new (text "al"))

abbrev opened : InMemoryStorage
opened = (create_account times (some admin) (text "al") 9 InMemory.new).1

abbrev written : InMemoryStorage
written = (set times (some admin) (text "n") (text "k") (5 ∷ 6 ∷ []) opened).1

set_succeeds : (set times (some admin) (text "n") (text "k") (5 ∷ 6 ∷ []) opened).0 ≡ ok tt
unfolding set create_account check_permission has_role has_role_for_identity add_role
    add_role_to_identity member add_member lookup insert lookup_in insert_in account_usage
    grow_usage add_usage can_store text ◌==◌ make_internal_key
set_succeeds = refl

delete_succeeds : (delete times (some admin) (text "n") (text "k") written).0 ≡ ok tt
unfolding set delete create_account check_permission has_role has_role_for_identity add_role
    add_role_to_identity member add_member lookup insert lookup_in insert_in account_usage
    grow_usage add_usage can_store text ◌==◌ make_internal_key
delete_succeeds = refl

-- A write beyond the quota fails, and leaves the account as it was.
set_over_quota :
    (is_ok
        (set times
          (some admin)
          (text "n")
          (text "k")
          (1 ∷ 2 ∷ 3 ∷ 4 ∷ 5 ∷ 6 ∷ 7 ∷ 8 ∷ 9 ∷ 0 ∷ [])
          opened).0
      ≡ false)
unfolding set create_account check_permission has_role has_role_for_identity add_role
    add_role_to_identity member add_member lookup insert lookup_in insert_in account_usage
    grow_usage add_usage can_store text ◌==◌ make_internal_key
set_over_quota = refl

get-set_example : get (some admin) (text "n") (text "k") written ≡ (
    if text "n" == text "n" && text "k" == text "k"
    then then_do (check_permission (some admin) (text "read") (text "n")) (λ _. ok (5 ∷ 6 ∷ []))
    else get (some admin) (text "n") (text "k") opened)
get-set_example =
    get-set times admin (some admin) (text "n") (text "k") (5 ∷ 6 ∷ []) opened (text "n") (text "k")
      set_succeeds

get-delete_example :
    get
      (some admin)
      (text "n")
      (text "k")
      (delete times (some admin) (text "n") (text "k") written).1
    ≡ (if text "n" == text "n" && text "k" == text "k"
        then then_do
            (check_permission (some admin) (text "read") (text "n"))
            (λ _. err (not_found (make_internal_key (text "n") (text "k"))))
        else get (some admin) (text "n") (text "k") written)
get-delete_example =
    get-delete times admin (some admin) (text "n") (text "k") written (text "n") (text "k")
      delete_succeeds

list_versions-set_example :
    let old = lookup_in (text "n") (text "k") opened.versions in
    list_versions (some admin) (text "n") (text "k") written
    ≡ then_do
        (check_permission (some admin) (text "read") (text "n"))
        (λ _. ok (history_of old ++ written_version 2 admin.current_identity_did old ∷ []))
list_versions-set_example =
    list_versions-set times admin (some admin) (text "n") (text "k") (5 ∷ 6 ∷ []) opened
      set_succeeds

abbrev requests : List (Request ℕ)
requests =
    set_value times (some admin) (text "n") (text "k") (7 ∷ [])
    ∷ delete_key times (some admin) (text "n") (text "j")
    ∷ add_namespace times admin (text "m") 10 none
    ∷ delete_key times (some admin) (text "n") (text "k")
    ∷ add_account times (some admin) (text "bo") 4
    ∷ []

rollback_restores_example :
    let (result, s') = rollback_transaction (perform_all requests (begin_transaction written).1) in
    (result ≡ ok tt)
    × Agree s'.values written.values
    × (s'.transaction_stack ≡ written.transaction_stack)
rollback_restores_example = rollback_restores requests written

new-WithinQuota : WithinQuota InMemory.new
unfolding lookup
new-WithinQuota user r h = absurd (cc)

perform_all-WithinQuota_example : WithinQuota (perform_all requests InMemory.new)
perform_all-WithinQuota_example = perform_all-WithinQuota requests InMemory.new new-WithinQuota

check_permission-permitted_example :
    is_ok (check_permission (some admin) (text "mint") (text "n"))
    ≡ permitted (some admin) (text "mint") (text "n")
check_permission-permitted_example =
    check_permission-permitted (some admin) (text "mint") (text "n")

nested_commit_stays_example :
    let inner = perform_all requests (begin_transaction (begin_transaction written).1).1 in
    let (committed, after) = commit_transaction inner in
    let (rolled_back, final) = rollback_transaction after in
    (committed ≡ ok tt)
    × (rolled_back ≡ ok tt)
    × (final.values ≡ inner.values)
    × (final.transaction_stack ≡ written.transaction_stack)
nested_commit_stays_example = nested_commit_stays requests written
