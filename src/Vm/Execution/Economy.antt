-- ===== src/Vm/Execution/Economy.antt =====
-- vm/execution.rs: resources and reputation.
use icn_covm.Prelude.{
  ℕ, ◌+◌, ◌%◌, ◌^◌, Bool, true, false, Option, none, some, is_some, ◌++◌, Text, text, if◌then◌else◌,
}
use icn_covm.Prelude.Decimal.{print}
use icn_covm.Prelude.Actions.{Result, ok, err, Action, ◌>>=◌, ◌>>◌, modify, lift, pure}
use icn_covm.Vm.Error.{VmError, invalid_amount}
use icn_covm.Vm.Values.{Floats, TypedValue, ValueError, number, as_number, type_name}
use icn_covm.Vm.Execution.{Host, VmExecution, emit_event, log_storage_event, storage_operation}
use icn_covm.Vm.Execution.Operators.{map_err, mismatch}

abbrev pub reason_text : Option Text → Text
reason_text none = text "No reason provided"
reason_text (some reason) = reason

module _ {N : Floats} (H : Host N) where
  open N use {F}
  open H use {S, J}

  -- `as_number().unwrap() as u64`; the source panics on a text that is not a number, here it is 0
  abbrev pub amount_of : Result ValueError F → ℕ
  amount_of (ok n) = N.to_usize n
  amount_of (err e) = 0

  unfoldable pub execute_create_resource : Text → Action (VmExecution S J) VmError (Unit {0})
  execute_create_resource resource = do
    storage_operation H (text "create_resource")
        (λ auth namespace. H.create_resource auth namespace resource)
    modify (emit_event H (text "economic") (text "Resource created: " ++ resource))

  unfoldable pub execute_mint :
      (resource account : Text)
      → TypedValue F
      → Option Text
      → Action (VmExecution S J) VmError (Unit {0})
  execute_mint resource account amount reason = do
    event ← storage_operation H (text "mint") (λ auth namespace.
        H.mint auth namespace resource account (amount_of (as_number N amount))
          (reason_text reason))
    modify (log_storage_event (text "economic") (text "mint: ") event)

  unfoldable pub execute_transfer :
      (resource from to : Text)
      → TypedValue F
      → Option Text
      → Action (VmExecution S J) VmError (Unit {0})
  execute_transfer resource from to amount reason = do
    event ← storage_operation H (text "transfer") (λ auth namespace.
        H.transfer auth namespace resource from to (amount_of (as_number N amount))
          (reason_text reason))
    modify (log_storage_event (text "economic") (text "transfer: ") event)

  unfoldable pub execute_burn :
      (resource account : Text)
      → TypedValue F
      → Option Text
      → Action (VmExecution S J) VmError (Unit {0})
  execute_burn resource account amount reason = do
    event ← storage_operation H (text "burn") (λ auth namespace.
        H.burn auth namespace resource account (amount_of (as_number N amount))
          (reason_text reason))
    modify (log_storage_event (text "economic") (text "burn: ") event)

  unfoldable pub execute_balance :
      (resource account : Text) → Action (VmExecution S J) VmError (TypedValue F)
  execute_balance resource account = do
    answer ←
        storage_operation H (text "get_balance")
          (λ auth namespace. H.get_balance auth namespace resource account)
    modify (log_storage_event (text "economic") (text "balance: ") answer.1)
    pure (number (N.of_nat answer.0))

  -- the largest integer of 64 bits
  abbrev pub max_u64 : ℕ
  max_u64 = 18446744073709551615

  abbrev pub checked_amount : F → Result VmError ℕ
  checked_amount rounded =
      if N.less rounded N.zero_value
      then err (invalid_amount (N.print rounded))
      else if N.less (N.of_nat max_u64) rounded
      then err (invalid_amount (N.print rounded))
      else ok (N.to_usize rounded)

  abbrev pub numeric_amount : Result VmError F → Result VmError ℕ
  numeric_amount (ok n) = checked_amount (N.round n)
  numeric_amount (err e) = err e

  unfoldable pub reputation_amount : Option (TypedValue F) → Result VmError ℕ
  reputation_amount none = ok 1
  reputation_amount (some value) = numeric_amount (
      map_err (mismatch (text "number") (type_name value) (text "increment_reputation"))
        (as_number N value))

  abbrev pub reputation_payload : Text → ℕ → Text
  reputation_payload identity_id amount =
      text "{\"identity_id\": \""
      ++ (identity_id ++ (text "\", \"amount\": " ++ (print amount ++ text "}")))

  abbrev pub persist_reputation : Text → ℕ → Action (VmExecution S J) VmError (Unit {0})
  persist_reputation identity_id amount = do
    current ←
        storage_operation H (text "get_reputation")
          (λ auth namespace. H.get_reputation auth namespace identity_id)
    modify (log_storage_event (text "reputation") (text "get_reputation: ") current.1)
    event ← storage_operation H (text "set_reputation") (λ auth namespace.
        H.set_reputation auth namespace identity_id ((current.0 + amount) % 2 ^ 64))
    modify (log_storage_event (text "reputation") (text "set_reputation: ") event)

  abbrev pub persist_if_backend : Bool → Text → ℕ → Action (VmExecution S J) VmError (Unit {0})
  persist_if_backend true identity_id amount = persist_reputation identity_id amount
  persist_if_backend false identity_id amount = pure tt

  -- The sum wraps around at 64 bits, as in a release build.
  unfoldable pub execute_increment_reputation :
      Text → Option (TypedValue F) → Action (VmExecution S J) VmError (Unit {0})
  execute_increment_reputation identity_id amount = do
    n ← lift (reputation_amount amount)
    modify (emit_event H (text "reputation") (reputation_payload identity_id n))
    λ e. persist_if_backend (is_some e.storage_backend) identity_id n e
