-- ===== src/Vm/Execution.antt =====
-- vm/execution.rs: the state of the execution engine, and what it does with storage. `Host` lists what
-- the engine is given: the storage backend, the clock and the texts that `Debug` prints.
pub mod Utf8
pub mod Operators
pub mod Persistence
pub mod Economy
pub mod Fork
pub mod RoundTrip
pub mod Tests
use icn_covm.Prelude.{ℕ, Bool, Option, none, some, List, [], ◌∷◌, ◌++◌, Text, text, length}
use icn_covm.Prelude.Actions.{Result, ok, err, Action, modify}
use icn_covm.Storage.Types.{
  StorageError, StorageEvent, Timestamp, authentication_error, permission_denied, not_found,
}
use icn_covm.Storage.Auth.{AuthContext}
use icn_covm.Vm.Error.{VmError, storage_unavailable, invalid_signature, storage_error}
use icn_covm.Vm.Values.{Floats, TypedValue}
use icn_covm.Vm.Types.{VmEvent, Op}
use icn_covm.Vm.Memory.Display.{newline}

-- A call of the backend takes the authentication context and the namespace. `clock n` is the time
-- that is read when `n` events are logged.
pub record Host (N : Floats) : Type 1 where
  pub J : Type 0
  pub S : Type 0
  pub D : Type 0
  pub create_resource : Option (AuthContext J) → Text → Text → Action S StorageError (Unit {0})
  pub mint :
      Option (AuthContext J)
      → (namespace resource account : Text) (amount : ℕ) (reason : Text)
      → Action S StorageError (Option StorageEvent)
  pub transfer :
      Option (AuthContext J)
      → (namespace resource from to : Text) (amount : ℕ) (reason : Text)
      → Action S StorageError (Option StorageEvent)
  pub burn :
      Option (AuthContext J)
      → (namespace resource account : Text) (amount : ℕ) (reason : Text)
      → Action S StorageError (Option StorageEvent)
  pub get_balance :
      Option (AuthContext J)
      → (namespace resource account : Text) → Action S StorageError (ℕ × Option StorageEvent)
  pub get_reputation :
      Option (AuthContext J)
      → (namespace identity_id : Text) → Action S StorageError (ℕ × Option StorageEvent)
  pub set_reputation :
      Option (AuthContext J)
      → (namespace identity_id : Text) (value : ℕ) → Action S StorageError (Option StorageEvent)
  pub store :
      Option (AuthContext J)
      → (namespace key : Text) (bytes : List ℕ) → Action S StorageError (Option StorageEvent)
  pub load :
      Option (AuthContext J)
      → (namespace key : Text) → Action S StorageError (List ℕ × Option StorageEvent)
  pub begin_transaction : Action S StorageError (Unit {0})
  pub commit_transaction : Action S StorageError (Unit {0})
  pub rollback_transaction : Action S StorageError (Unit {0})
  pub clock : ℕ → Timestamp
  pub debug_error : StorageError → Text
  pub debug_op : Op N.F D → Text
  pub debug_value : TypedValue N.F → Text
  pub debug_amount : Option N.F → Text
  pub debug_duration : D → Text

pub record VmExecution (S J : Type 0) : Type 0 where
  pub storage_backend : Option S
  pub auth_context : Option (AuthContext J)
  pub namespace : Text
  pub output : Text
  pub events : List VmEvent
  pub transaction_active : Bool

module _ {S J : Type 0} where
  abbrev pub new : VmExecution S J
  new = record {
    storage_backend = none;
    auth_context = none;
    namespace = text "default";
    output = [];
    events = [];
    transaction_active = Bool.false;
  }

  unfoldable pub set_storage_backend : S → VmExecution S J → VmExecution S J
  set_storage_backend backend e = record e { storage_backend = some backend }

  unfoldable pub set_auth_context : AuthContext J → VmExecution S J → VmExecution S J
  set_auth_context auth e = record e { auth_context = some auth }

  unfoldable pub set_namespace : Text → VmExecution S J → VmExecution S J
  set_namespace namespace e = record e { namespace = namespace }

  unfoldable pub emit : Text → VmExecution S J → VmExecution S J
  emit message e = record e { output = e.output ++ (message ++ newline) }

  unfoldable pub clear_output : VmExecution S J → VmExecution S J
  clear_output e = record e { output = [] }

  abbrev pub log : VmEvent → VmExecution S J → VmExecution S J
  log event e = record e { events = e.events ++ event ∷ [] }

  -- the event that storage reported, if it did, under a category and with a prefix to its details
  abbrev pub log_storage_event :
      Text → Text → Option StorageEvent → VmExecution S J → VmExecution S J
  log_storage_event category prefix none e = e
  log_storage_event category prefix (some event) e =
      log
        (record {
          category = category;
          message = prefix ++ event.details;
          timestamp = event.timestamp;
        })
        e

module _ {N : Floats} (H : Host N) where
  open H use {S, J}

  unfoldable pub emit_event : Text → Text → VmExecution S J → VmExecution S J
  emit_event category message e =
      log (record { category = category; message = message; timestamp = H.clock (length e.events) })
        e

  -- the error of the engine for an error of storage
  unfoldable pub map_error : Text → StorageError → VmError
  map_error operation (authentication_error details) = invalid_signature (text "unknown") details
  map_error operation (permission_denied user_id action key) = storage_error (
      text "Permission denied for user '"
      ++ (user_id
          ++ (text "' during "
              ++ (operation
                  ++ (text ": operation '" ++ (action ++ (text "' on '" ++ (key ++ text "'"))))))))
  map_error operation (not_found key) =
      storage_error (text "Key '" ++ (key ++ (text "' not found during " ++ operation)))
  map_error operation e =
      storage_error (text "Error during " ++ (operation ++ (text ": " ++ H.debug_error e)))

  abbrev pub reported : {A : Type 0} → Text → Result StorageError A → Result VmError A
  reported operation (ok a) = ok a
  reported operation (err e) = err (map_error operation e)

  abbrev pub on_backend :
      {A : Type 0}
      → Text
      → (Option (AuthContext J) → Text → Action S StorageError A)
      → Option S
      → Action (VmExecution S J) VmError A
  on_backend operation f none e = (err storage_unavailable, e)
  on_backend operation f (some s) e =
      let (r, s') = f e.auth_context e.namespace s in
      (reported operation r, record e { storage_backend = some s' })

  unfoldable pub storage_operation :
      {A : Type 0}
      → Text
      → (Option (AuthContext J) → Text → Action S StorageError A)
      → Action (VmExecution S J) VmError A
  storage_operation operation f e = on_backend operation f e.storage_backend e
