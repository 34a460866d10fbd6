-- ===== src/Vm/Stack.antt =====
-- vm/stack.rs: the operand stack, its top first. The name of the operation, which every call takes,
-- is kept where the code uses it.
use icn_covm.Prelude.{
  ℕ, zero, suc, ◌-◌, Bool, true, ◌&&◌, Option, none, some, List, [], ◌∷◌, Text, text, length,
  if◌then◌else◌, ltb,
}
use icn_covm.Prelude.Actions.{Result, ok, err, Action, ◌>>=◌, pure}
use icn_covm.Vm.Error.{VmError, stack_underflow, type_mismatch}
use icn_covm.Vm.Values.{
  Floats, TypedValue, ValueError, type_name, as_number, as_boolean, as_string, is_same,
}

abbrev pub VmStack : Type 0 → Type 0
VmStack F = List (TypedValue F)

module _ {F : Type 0} where
  abbrev pub push_value : TypedValue F → VmStack F → VmStack F
  push_value v s = v ∷ s

  unfoldable pub pop : Action (VmStack F) VmError (TypedValue F)
  pop [] = (err stack_underflow, [])
  pop (v ∷ s) = (ok v, s)

  -- the top is the second value of the pair
  unfoldable pub pop_two : Action (VmStack F) VmError (TypedValue F × TypedValue F)
  pop_two = do b ← pop; a ← pop; pure (a, b)

  unfoldable pub top : VmStack F → Option (TypedValue F)
  top [] = none
  top (v ∷ s) = some v

  unfoldable pub dup : Action (VmStack F) VmError (Unit {0})
  dup [] = (err stack_underflow, [])
  dup (v ∷ s) = (ok tt, v ∷ v ∷ s)

  unfoldable pub swap : Action (VmStack F) VmError (Unit {0})
  swap [] = (err stack_underflow, [])
  swap (v ∷ []) = (err stack_underflow, v ∷ [])
  swap (b ∷ (a ∷ s)) = (ok tt, a ∷ b ∷ s)

  unfoldable pub over : Action (VmStack F) VmError (Unit {0})
  over [] = (err stack_underflow, [])
  over (v ∷ []) = (err stack_underflow, v ∷ [])
  over (b ∷ (a ∷ s)) = (ok tt, a ∷ b ∷ a ∷ s)

module _ (N : Floats) where
  open N use {F}

  -- the values below the top, `depth - 1` of them
  abbrev pub all_same : ℕ → TypedValue F → VmStack F → Bool
  all_same zero t s = true
  all_same (suc n) t [] = true
  all_same (suc n) t (v ∷ s) = is_same N v t && all_same n t s

  abbrev pub same_as_top : ℕ → VmStack F → Result VmError Bool
  same_as_top depth [] = ok true
  same_as_top depth (t ∷ s) = ok (all_same (depth - 1) t s)

  -- On an empty stack with depth 0 the source panics; here the answer is yes.
  unfoldable pub assert_equal_stack : ℕ → VmStack F → Result VmError Bool
  assert_equal_stack depth s =
      if ltb (length s) depth then err stack_underflow else same_as_top depth s

  abbrev pub typed : {A : Type 0} → Text → Text → Text → Result ValueError A → Result VmError A
  typed expected found op_name (ok a) = ok a
  typed expected found op_name (err e) = err (type_mismatch expected found op_name)

  unfoldable pub pop_number : Text → Action (VmStack F) VmError F
  pop_number op_name = do
    value ← pop
    λ s. (typed (text "Number") (type_name value) op_name (as_number N value), s)

  unfoldable pub pop_bool : Text → Action (VmStack F) VmError Bool
  pop_bool op_name = do
    value ← pop
    λ s. (typed (text "Boolean") (type_name value) op_name (as_boolean N value), s)

  unfoldable pub pop_string : Text → Action (VmStack F) VmError Text
  pop_string op_name = do
    value ← pop
    λ s. (typed (text "String") (type_name value) op_name (as_string N value), s)
