-- ===== src/Storage/Types.antt =====
-- storage/errors.rs, storage/events.rs, storage/utils.rs: errors, audit events and times.
use icn_covm.Prelude.{ℕ, Text}
use icn_covm.Prelude.Actions.{Result}

-- seconds since the UNIX epoch
abbrev pub Timestamp : Type 0
Timestamp = ℕ

pub data StorageError : Type 0 where
  authentication_error : (details : Text) → StorageError
  permission_denied : (user_id action key : Text) → StorageError
  not_found : (key : Text) → StorageError
  transaction_error : (details : Text) → StorageError
  conflict_error : (resource details : Text) → StorageError
  connection_error : (backend details : Text) → StorageError
  serialization_error : (data_type details : Text) → StorageError
  invalid_data_format : (expected received details : Text) → StorageError
  quota_exceeded : (limit_type : Text) (current maximum : ℕ) → StorageError
  timeout_error : (operation : Text) (timeout_secs : ℕ) → StorageError
  resource_locked : (resource details : Text) → StorageError
  validation_error : (rule details : Text) → StorageError
  time_error : (details : Text) → StorageError
  io_error : (operation details : Text) → StorageError
  io_error_deprecated : (operation details : Text) → StorageError
  schema_version_error : (current_version required_version details : Text) → StorageError
  other : (details : Text) → StorageError
  resource_not_found : Text → StorageError
  insufficient_balance : Text → StorageError
  version_conflict : (current expected : ℕ) (resource : Text) → StorageError

abbrev pub StorageResult : Type 0 → Type 0
StorageResult = Result StorageError

pub record StorageEvent : Type 0 where
  pub event_type : Text
  pub user_id : Text
  pub namespace : Text
  pub key : Text
  pub timestamp : Timestamp
  pub details : Text
