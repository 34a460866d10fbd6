-- ===== src/Vm/Execution/Persistence.antt =====
-- vm/execution.rs: values in persistent storage.
use icn_covm.Prelude.{
  ℕ, true, false, Option, none, some, List, ◌++◌, Text, text, ◌==◌, if◌then◌else◌,
}
use icn_covm.Prelude.Actions.{Result, ok, err, Action, ◌>>=◌, modify}
use icn_covm.Storage.Types.{StorageEvent}
use icn_covm.Vm.Error.{VmError, storage_error, deserialization}
use icn_covm.Vm.Values.{Floats, TypedValue, number, boolean, string, null, to_text}
use icn_covm.Vm.Execution.{Host, VmExecution, log_storage_event, storage_operation}
use icn_covm.Vm.Execution.Utf8.{is_utf8, contains_text}

-- vm/vm.rs: what a load of a missing key gives
pub data MissingKeyBehavior : Type 0 where
  default : MissingKeyBehavior
  error : MissingKeyBehavior

module _ {N : Floats} (H : Host N) where
  open N use {F}
  open H use {S, J}

  unfoldable pub execute_store_p : Text → TypedValue F → Action (VmExecution S J) VmError (Unit {0})
  execute_store_p key value = do
    event ←
        storage_operation H (text "store_p")
          (λ auth namespace. H.store auth namespace key (to_text N value))
    modify (log_storage_event (text "storage") (text "store: ") event)

  -- a value that is not a number
  abbrev pub parse_word : Text → TypedValue F
  parse_word t =
      if t == text "true"
      then boolean true
      else if t == text "false"
      then boolean false
      else if t == text "null"
      then null
      else string t

  abbrev pub parse_stored : Option F → Text → TypedValue F
  parse_stored (some n) t = number n
  parse_stored none t = parse_word t

  abbrev pub parse_bytes : Text → List ℕ → Result VmError (TypedValue F)
  parse_bytes key bytes =
      if is_utf8 bytes
      then ok (parse_stored (N.parse bytes) bytes)
      else err (deserialization (text "Failed to parse value for key '" ++ (key ++ text "'")))

  abbrev pub missing_key : Text → MissingKeyBehavior → Result VmError (TypedValue F)
  missing_key key default = ok (number N.zero_value)
  missing_key key error =
      err (storage_error (text "Key '" ++ (key ++ text "' not found during load_p")))

  -- the error of the storage operation, where it is one that a missing key gives
  abbrev pub load_failed : Text → MissingKeyBehavior → VmError → Result VmError (TypedValue F)
  load_failed key behavior (storage_error details) =
      if contains_text details (text "not found")
      then missing_key key behavior
      else err (storage_error details)
  load_failed key behavior e = err e

  abbrev pub finish_load :
      Text
      → MissingKeyBehavior
      → Result VmError (List ℕ × Option StorageEvent)
      → Action (VmExecution S J) VmError (TypedValue F)
  finish_load key behavior (ok (bytes, event)) e =
      (parse_bytes key bytes, log_storage_event (text "storage") (text "load: ") event e)
  finish_load key behavior (err failure) e = (load_failed key behavior failure, e)

  unfoldable pub execute_load_p :
      Text → MissingKeyBehavior → Action (VmExecution S J) VmError (TypedValue F)
  execute_load_p key behavior e =
      let (r, e') =
        storage_operation H (text "load_p") (λ auth namespace. H.load auth namespace key) e in
      finish_load key behavior r e'
