-- ===== src/Vm/Machine/Explain.antt =====
-- vm/vm.rs: the explanation of an operation. The source also has arms for `Assert` and `AssertEq`,
-- which are no operations.
use icn_covm.Prelude.{Text, text, ◌++◌}
use icn_covm.Prelude.Decimal.{print}
use icn_covm.Vm.Values.{Floats}
use icn_covm.Vm.Execution.{Host}
use icn_covm.Vm.Types.{
  Op, OptionOps, no_block, block, push, add, sub, mul, div, modulo, store, load, if_op, loop_op,
  while_op, pop, eq, gt, lt, not_op, and_op, or_op, dup, swap, over, def, call, return_op, nop,
  match_op, break_op, continue_op, emit_event, assert_equal_stack, dump_state, store_p, load_p,
}
use icn_covm.Vm.Types.Display.{show_op}

abbrev else_text : {F D : Type 0} → OptionOps F D → Text
else_text no_block = text ""
else_text (block _) = text ", otherwise execute 'else' branch"

abbrev quoted : Text → Text
quoted t = text "'" ++ (t ++ text "'")

module _ {N : Floats} (H : Host N) where
  open N use {F}
  open H use {D}

  unfoldable pub explain_op : Op F D → Text
  explain_op (push v) = text "Push value " ++ (H.debug_value v ++ text " onto the stack")
  explain_op add = text "Add the top two values on the stack"
  explain_op sub = text "Subtract the top value from the second value on the stack"
  explain_op mul = text "Multiply the top two values on the stack"
  explain_op div = text "Divide the second value by the top value on the stack"
  explain_op modulo = text "Calculate the remainder of the second value divided by the top value"
  explain_op (store key) = text "Store the top value in memory with key " ++ quoted key
  explain_op (load key) = text "Load value with key " ++ (quoted key ++ text " from memory")
  explain_op (if_op _ _ else_) =
      text "If the condition is true, execute 'then' branch" ++ else_text else_
  explain_op (loop_op count _) = text "Execute the body " ++ (print count ++ text " times")
  explain_op (while_op _ _) = text "While the condition is true, execute the body"
  explain_op pop = text "Remove the top value from the stack"
  explain_op eq = text "Check if the top two values are equal"
  explain_op gt = text "Check if the second value is greater than the top value"
  explain_op lt = text "Check if the second value is less than the top value"
  explain_op not_op = text "Logical NOT of the top value"
  explain_op and_op = text "Logical AND of the top two values"
  explain_op or_op = text "Logical OR of the top two values"
  explain_op dup = text "Duplicate the top value on the stack"
  explain_op swap = text "Swap the top two values on the stack"
  explain_op over = text "Copy the second value to the top of the stack"
  explain_op (def name _ _) = text "Define a function named " ++ quoted name
  explain_op (call name) = text "Call the function named " ++ quoted name
  explain_op return_op = text "Return from the current function"
  explain_op nop = text "No operation (do nothing)"
  explain_op (match_op _ _ _) = text "Match a value against several cases"
  explain_op break_op = text "Break out of the innermost loop"
  explain_op continue_op = text "Continue to the next iteration of the innermost loop"
  explain_op (emit_event category message) =
      text "Emit an event with category "
      ++ (quoted category ++ (text " and message " ++ quoted message))
  explain_op (assert_equal_stack depth) =
      text "Assert that the top " ++ (print depth ++ text " values on the stack are equal")
  explain_op dump_state = text "Display the entire VM state"
  explain_op (store_p key) =
      text "Store the top stack value in persistent storage under key " ++ quoted key
  explain_op (load_p key) =
      text "Load value from persistent storage with key "
      ++ (quoted key ++ text " and push it onto the stack")
  explain_op op = text "Execute operation: " ++ show_op N H.debug_amount H.debug_duration op
