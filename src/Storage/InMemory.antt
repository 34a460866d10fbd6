-- ===== src/Storage/InMemory.antt =====
-- storage/implementations/in_memory.rs: the state and the operations that change it.
pub mod Permissions
pub mod Reads
pub mod Writes
pub mod ReadWrite
pub mod Transactions
pub mod Rollback
pub mod Nested
pub mod Quota
pub mod Tests
use icn_covm.Prelude.{
  ℕ, ◌-◌, ◌≡◌, Bool, true, false, ◌||◌, Option, none, some, List, [], ◌∷◌, ◌++◌, Text, text, ◌==◌,
  Dict, lookup, insert, contains, lookup_in, insert_in, remove_in, remove_within, if◌then◌else◌,
  ltb, not, length,
}
use icn_covm.Prelude.Decimal.{print}
use icn_covm.Prelude.Actions.{
  Result, ok, err, Action, fail, fail_if, pure, query, lift, gets, modify, ok_or, ◌>>=◌, ◌>>◌,
}
use icn_covm.Storage.Types.{
  StorageError, StorageResult, StorageEvent, Timestamp, permission_denied, not_found,
  transaction_error,
}
use icn_covm.Storage.Auth.{AuthContext, has_role}
use icn_covm.Storage.Resource
use icn_covm.Storage.Resource.{ResourceAccount, add_usage, reduce_usage}
use icn_covm.Storage.Versioning
use icn_covm.Storage.Versioning.{VersionInfo, next_version}

-- an entry of a transaction: namespace, key, and the value before (`None` if there was none)
abbrev pub Entry : Type 0
Entry = Text × Text × Option (List ℕ)

-- `values` is the source's `data`, a reserved word here. The transaction on top of the stack is the
-- head of the list, and so is a transaction's newest entry.
pub record InMemoryStorage : Type 0 where
  pub values : Dict (Dict (List ℕ))
  pub versions : Dict (Dict VersionInfo)
  pub accounts : Dict ResourceAccount
  pub audit_log : List StorageEvent
  pub transaction_stack : List (List Entry)

-- the readings of the clock that one call makes
pub record Times : Type 0 where
  pub account : Timestamp
  pub version : Timestamp
  pub audit : Timestamp

abbrev pub new : InMemoryStorage
new = record { values = []; versions = []; accounts = []; audit_log = []; transaction_stack = [] }

abbrev pub Run : Type 0 → Type 0
Run = Action InMemoryStorage StorageError

unfoldable pub make_internal_key : Text → Text → Text
make_internal_key namespace key = namespace ++ (text ":" ++ key)

abbrev pub record_entry : Entry → List (List Entry) → List (List Entry)
record_entry e [] = []
record_entry e (current ∷ stack) = (e ∷ current) ∷ stack

abbrev pub record_for_rollback : Text → Text → Option (List ℕ) → Run (Unit {0})
record_for_rollback namespace key old =
    modify
      (λ s. record s { transaction_stack = record_entry (namespace, key, old) s.transaction_stack })

abbrev pub emit_event : Timestamp → Text → Text → Text → Text → Text → Run (Unit {0})
emit_event now kind user namespace key details = modify (λ s. record s {
  audit_log =
      s.audit_log
      ++ record {
        event_type = kind;
        user_id = user;
        namespace = namespace;
        key = key;
        timestamp = now;
        details = details;
      }
        ∷ [];
})

unfoldable pub check_permission :
    {J : Type 0} → Option (AuthContext J) → Text → Text → StorageResult (Unit {0})
check_permission none action namespace = err (permission_denied (text "anonymous") action namespace)
check_permission (some a) action namespace =
    if has_role a (text "global") (text "admin")
    then ok tt
    else if has_role a namespace (text "admin")
    then ok tt
    else if action == text "read"
    then if has_role a namespace (text "reader")
        || (has_role a namespace (text "writer") || has_role a namespace (text "admin"))
      then ok tt
      else err (permission_denied a.current_identity_did action namespace)
    else if action == text "write"
    then if has_role a namespace (text "writer") || has_role a namespace (text "admin")
      then ok tt
      else err (permission_denied a.current_identity_did action namespace)
    else err
        (permission_denied a.current_identity_did (text "unknown action: " ++ action) namespace)

abbrev pub size_of : Option (List ℕ) → ℕ
size_of none = 0
size_of (some v) = length v

-- `if let Some(account) = self.accounts.get_mut(user) { … }`
unfoldable pub update_account :
    Text → (ResourceAccount → ResourceAccount) → Dict ResourceAccount → Dict ResourceAccount
update_account user f accounts = elim (lookup user accounts) [
  | none ↦ accounts
  | some account ↦ insert user (f account) accounts
]

unfoldable pub grow_usage : Timestamp → Text → Text → ℕ → Run (Unit {0})
grow_usage now user internal_key additional_bytes = do
  account ← query (λ s.
      ok_or (lookup user s.accounts)
        (permission_denied user (text "write (no account)") internal_key))
  account' ← lift (add_usage now additional_bytes account)
  modify (λ s. record s { accounts = insert user account' s.accounts })

abbrev pub shrink_usage : Timestamp → Text → ℕ → Run (Unit {0})
shrink_usage now user bytes =
    modify (λ s. record s { accounts = update_account user (reduce_usage now bytes) s.accounts })

-- what `set` does to the account of the writing user, when a value of `old` bytes becomes `size`
unfoldable pub account_usage : Timestamp → Text → Text → ℕ → ℕ → Run (Unit {0})
account_usage now user internal_key old size s =
    if ltb old size
    then grow_usage now user internal_key (size - old) s
    else if ltb size old
    then shrink_usage now user (old - size) s
    else (ok tt, s)

-- the version that a write makes
abbrev pub written_version : Timestamp → Text → Option VersionInfo → VersionInfo
written_version now user none = Versioning.new now user
written_version now user (some v) = next_version now user v

unfoldable pub set :
    {J : Type 0} → Times → Option (AuthContext J) → Text → Text → List ℕ → Run (Unit {0})
set times auth namespace key value = do
  lift (check_permission auth (text "write") namespace)
  existing ← gets (λ s. lookup_in namespace key s.values)
  record_for_rollback namespace key existing
  a ← lift (
      ok_or auth
        (permission_denied (text "anonymous") (text "write") (make_internal_key namespace key)))
  account_usage times.account a.current_identity_did (make_internal_key namespace key)
      (size_of existing) (length value)
  modify (λ s. record s { values = insert_in namespace key value s.values })
  modify (λ s. record s {
    versions =
        insert_in namespace key
          (written_version times.version a.current_identity_did
            (lookup_in namespace key s.versions))
          s.versions;
  })
  emit_event times.audit (text "write") a.current_identity_did namespace key
      (text "Value updated (" ++ (print (length value) ++ text " bytes)"))

-- `auth.unwrap()` is reached only with a caller, since no permission is given without one.
unfoldable pub delete : {J : Type 0} → Times → Option (AuthContext J) → Text → Text → Run (Unit {0})
delete {J} times none namespace key = lift (check_permission {J = J} none (text "write") namespace)
delete times (some a) namespace key = do
  lift (check_permission (some a) (text "write") namespace)
  value ←
      query (λ s.
        ok_or (lookup_in namespace key s.values) (not_found (make_internal_key namespace key)))
  record_for_rollback namespace key (some value)
  shrink_usage times.account a.current_identity_did (length value)
  modify (λ s. record s { values = remove_within namespace key s.values })
  modify (λ s. record s { versions = remove_within namespace key s.versions })
  emit_event times.audit (text "delete") a.current_identity_did namespace key (text "Key deleted")

-- Only global admins create accounts.
unfoldable pub create_account :
    {J : Type 0} → Times → Option (AuthContext J) → Text → ℕ → Run (Unit {0})
create_account times auth user quota = do
  a ← lift (ok_or auth (permission_denied (text "anonymous") (text "create_account") user))
  fail_if (not (has_role a (text "global") (text "admin")))
      (permission_denied a.current_identity_did (text "create_account") user)
  known ← gets (λ s. contains user s.accounts)
  fail_if known (transaction_error (text "Account already exists for user " ++ user))
  modify
      (λ s. record s { accounts = insert user (Resource.new times.account user quota) s.accounts })
  emit_event times.audit (text "account_created") a.current_identity_did (text "global") user
      (text "Account created with quota " ++ (print quota ++ text " bytes"))

abbrev missing_parent : Option Text → Dict (Dict (List ℕ)) → Option Text
missing_parent none values = none
missing_parent (some parent) values = if contains parent values then none else some parent

abbrev fail_if_some : Option Text → Run (Unit {0})
fail_if_some none = pure tt
fail_if_some (some parent) = fail (not_found parent)

-- The source unwraps the caller, so this is for calls with one: without one it panics.
unfoldable pub create_namespace :
    {J : Type 0} → Times → AuthContext J → Text → ℕ → Option Text → Run (Unit {0})
create_namespace times a namespace quota parent = do
  fail_if (not (has_role a (text "global") (text "admin")))
      (permission_denied a.current_identity_did (text "create_namespace") namespace)
  missing ← gets (λ s. missing_parent parent s.values)
  fail_if_some missing
  known ← gets (λ s. contains namespace s.values)
  if known then pure tt else do
    modify (λ s. record s {
      values = insert namespace [] s.values;
      versions = insert namespace [] s.versions;
    })
    emit_event times.audit (text "namespace_created") a.current_identity_did (text "global")
        namespace (text "Namespace created with quota " ++ (print quota ++ text " bytes"))
