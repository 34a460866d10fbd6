-- ===== src/Vm/Error.antt =====
-- vm/errors.rs: `VMError`. The source's floats in an error stand here as the text that it prints for
-- them.
use icn_covm.Prelude.{ℕ, Text}

pub data VmError : Type 0 where
  storage_unavailable : VmError
  invalid_signature : (identity_id reason : Text) → VmError
  undefined_operation : Text → VmError
  division_by_zero : VmError
  stack_underflow : VmError
  register_error : Text → VmError
  invalid_bytecode : Text → VmError
  deserialization : Text → VmError
  transaction_error : Text → VmError
  syntax_error : Text → VmError
  validation_error : Text → VmError
  arithmetic_error : Text → VmError
  account_not_found : Text → VmError
  undefined_state : Text → VmError
  step_limit_exceeded : ℕ → VmError
  stack_overflow : ℕ → VmError
  namespace_error : Text → VmError
  authorization_error : Text → VmError
  governance_error : Text → VmError
  parse_error : Text → VmError
  context_mismatch : Text → VmError
  memory_limit_exceeded : (attempted_allocation max_allowed : ℕ) → VmError
  loop_limit_exceeded : (iterations max_allowed : ℕ) → VmError
  timeout_error : Text → VmError
  time_error : Text → VmError
  io_error : (details : Text) → VmError
  policy_violation : Text → VmError
  storage_error : (details : Text) → VmError
  other : Text → VmError
  not_implemented : Text → VmError
  assertion_failed : (message : Text) → VmError
  storage_not_available : VmError
  variable_not_found : Text → VmError
  function_not_found : Text → VmError
  parameter_not_found : Text → VmError
  identity_context_unavailable : VmError
  permission_denied : (user action resource : Text) → VmError
  type_mismatch : (expected found operation : Text) → VmError
  invalid_operation : (operation : Text) → VmError
  resource_not_found : (resource namespace : Text) → VmError
  resource_already_exists : (resource namespace : Text) → VmError
  insufficient_balance : (resource account required available : Text) → VmError
  invalid_amount : (amount : Text) → VmError
  identity_not_found : (identity_id : Text) → VmError
  invalid_identity : (reason : Text) → VmError
  version_not_found : (key : Text) (version : ℕ) → VmError
  configuration_error : (details : Text) → VmError
  invalid_format : (reason : Text) → VmError
  no_storage_backend : VmError
  serialization_error : (details : Text) → VmError
  typed_value_error : Text → VmError
  type_error : (expected found op_name : Text) → VmError
  undefined_variable : (name : Text) → VmError
  undefined_function : (name : Text) → VmError
  undefined_parameter : (name : Text) → VmError
