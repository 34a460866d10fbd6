-- ===== src/Vm/Execution/Operators.antt =====
-- vm/execution.rs: arithmetic, comparisons and logic, with the errors of the values turned into those
-- of the machine.
use icn_covm.Prelude.{◌++◌, Text, text, ◌==◌, if◌then◌else◌}
use icn_covm.Prelude.Actions.{Result, ok, err}
use icn_covm.Vm.Error.{VmError, type_mismatch, invalid_amount, division_by_zero, not_implemented}
use icn_covm.Vm.Values
use icn_covm.Vm.Values.{
  Floats, TypedValue, ValueError, type_name, coercion_error, value_out_of_bounds, invalid_operation,
  equals, less_than, greater_than, logical_not, logical_and, logical_or,
}

abbrev pub both_types : {F : Type 0} → TypedValue F → TypedValue F → Text
both_types a b = type_name a ++ (text " and " ++ type_name b)

abbrev pub map_err : {A : Type 0} → (ValueError → VmError) → Result ValueError A → Result VmError A
map_err f (ok a) = ok a
map_err f (err e) = err (f e)

-- a type mismatch: of the types that could not be converted, or else as given
abbrev pub mismatch : (expected found operation : Text) → ValueError → VmError
mismatch expected found operation (coercion_error from to) = type_mismatch to from operation
mismatch expected found operation e = type_mismatch expected found operation

abbrev pub mul_error : (found : Text) → ValueError → VmError
mul_error found value_out_of_bounds = invalid_amount (text "-1")
mul_error found e = mismatch (text "compatible types for multiplication") found (text "mul") e

abbrev pub division_error : (expected found operation : Text) → ValueError → VmError
division_error expected found operation (Values.invalid_operation op types) =
    if types == text "by zero"
    then division_by_zero
    else VmError.invalid_operation (op ++ (text " on " ++ types))
division_error expected found operation e = mismatch expected found operation e

module _ (N : Floats) where
  open N use {F}

  unfoldable pub execute_arithmetic :
      TypedValue F → TypedValue F → Text → Result VmError (TypedValue F)
  execute_arithmetic a b op =
      if op == text "add"
      then map_err (mismatch (text "compatible types for addition") (both_types a b) (text "add"))
          (Values.add N a b)
      else if op == text "sub"
      then map_err
          (mismatch (text "compatible types for subtraction") (both_types a b) (text "sub"))
          (Values.sub N a b)
      else if op == text "mul"
      then map_err (mul_error (both_types a b)) (Values.mul N a b)
      else if op == text "div"
      then map_err
          (division_error (text "compatible types for division") (both_types a b) (text "div"))
          (Values.div N a b)
      else if op == text "mod"
      then map_err
          (division_error (text "compatible types for modulo") (both_types a b) (text "mod"))
          (Values.modulo N a b)
      else err (not_implemented (text "Unknown arithmetic operation: " ++ op))

  unfoldable pub execute_comparison :
      TypedValue F → TypedValue F → Text → Result VmError (TypedValue F)
  execute_comparison a b op =
      if op == text "eq"
      then map_err (mismatch (text "comparable types") (both_types a b) (text "equals"))
          (equals N a b)
      else if op == text "lt"
      then map_err (mismatch (text "comparable types") (both_types a b) (text "less_than"))
          (less_than N a b)
      else if op == text "gt"
      then map_err (mismatch (text "comparable types") (both_types a b) (text "greater_than"))
          (greater_than N a b)
      else err (not_implemented (text "Unknown comparison operation: " ++ op))

  unfoldable pub execute_logical : TypedValue F → Text → Result VmError (TypedValue F)
  execute_logical a op =
      if op == text "not"
      then map_err
          (mismatch (text "any type that can be coerced to boolean") (type_name a) (text "not"))
          (logical_not N a)
      else err (not_implemented (text "Unknown logical operation: " ++ op))

  unfoldable pub execute_binary_logical :
      TypedValue F → TypedValue F → Text → Result VmError (TypedValue F)
  execute_binary_logical a b op =
      if op == text "and"
      then map_err
          (mismatch (text "values that can be coerced to boolean") (both_types a b) (text "and"))
          (logical_and N a b)
      else if op == text "or"
      then map_err
          (mismatch (text "values that can be coerced to boolean") (both_types a b) (text "or"))
          (logical_or N a b)
      else err (not_implemented (text "Unknown binary logical operation: " ++ op))
