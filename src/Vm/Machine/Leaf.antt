-- ===== src/Vm/Machine/Leaf.antt =====
-- vm/vm.rs: the operations that run no block, one by one. A governance operation that was handled
-- returns from the block, as do `Return`, `Break` and `Continue`.
use icn_covm.Prelude.{
  ℕ, Bool, true, false, not, Option, none, some, [], ◌∷◌, ◌++◌, Text, text, length, if◌then◌else◌,
}
use icn_covm.Prelude.Decimal.{print}
use icn_covm.Prelude.Actions.{
  Result, ok, err, Action, fail, fail_if, modify, pure, query, ◌>>=◌, ◌>>◌,
}
use icn_covm.Vm.Error.{VmError, type_mismatch, assertion_failed, not_implemented}
use icn_covm.Vm.Values.{
  Floats, TypedValue, ValueError, number, boolean, null, type_name, to_text, as_boolean, equals,
}
use icn_covm.Vm.Types.{
  Op, LoopControl, push, add, sub, mul, div, modulo, store, load, emit, negate, assert_top,
  dump_stack, dump_memory, assert_memory, pop, eq, gt, lt, not_op, and_op, or_op, dup, swap, over,
  def, return_op, nop, break_op, continue_op, emit_event, assert_equal_stack, dump_state,
  ranked_vote, liquid_delegate, vote_threshold, quorum_threshold, store_p, load_p, load_version_p,
  list_versions_p, diff_versions_p, create_resource, mint, transfer, burn, balance,
  increment_reputation,
}
use icn_covm.Vm.Types.Display.{show_op}
use icn_covm.Vm.Memory
use icn_covm.Vm.Memory.{in_function_call, set_return_value, define_function}
use icn_covm.Vm.Memory.Display.{show_memory, newline}
use icn_covm.Vm.Stack
use icn_covm.Vm.Stack.{VmStack}
use icn_covm.Vm.Execution.{Host}
use icn_covm.Vm.Execution
use icn_covm.Vm.Execution.Operators.{
  execute_arithmetic, execute_comparison, execute_logical, execute_binary_logical,
}
use icn_covm.Vm.Execution.Economy.{
  execute_create_resource, execute_mint, execute_transfer, execute_burn, execute_balance,
  execute_increment_reputation,
}
use icn_covm.Vm.Execution.Persistence.{execute_store_p, execute_load_p}
use icn_covm.Vm.Machine
use icn_covm.Vm.Machine.{Vm, Handlers, on_stack, on_executor, on_memory, emit_text, unary, binary}

-- How an operation of a block ends: the loop goes on to the next one, or leaves the block.
pub data Flow : Type 0 where
  go : LoopControl → Flow
  stop : Flow

abbrev pub index_line : (N : Floats) → ℕ → TypedValue N.F → Text
index_line N i v = print i ++ (text ": " ++ (to_text N v ++ newline))

-- `actual.equals(&expected).unwrap_or(false).as_boolean().unwrap_or(false)`
abbrev pub holds : Result ValueError Bool → Bool
holds (ok b) = b
holds (err e) = false

abbrev pub or_false : {F : Type 0} → Result ValueError (TypedValue F) → TypedValue F
or_false (ok v) = v
or_false (err e) = boolean false

abbrev pub or_null : {F : Type 0} → Option (TypedValue F) → TypedValue F
or_null none = null
or_null (some v) = v

module _ (N : Floats) where
  open N use {F}

  abbrev pub agrees : TypedValue F → TypedValue F → Bool
  agrees actual expected = holds (as_boolean N (or_false (equals N actual expected)))

  -- `format_stack`, from the bottom of the stack
  unfoldable pub format_stack : VmStack F → Text
  format_stack [] = []
  format_stack (v ∷ s) = format_stack s ++ index_line N (length s) v

  abbrev pub negated : TypedValue F → Result VmError (TypedValue F)
  negated (number n) = ok (number (N.negate n))
  negated v = err (type_mismatch (text "number") (type_name v) (text "negate"))

module _ {N : Floats} (H : Host N) (G : Handlers N.F H.D H.S H.J) where
  open N use {F}
  open H use {S, J, D}

  abbrev pub then_stop : Action (Vm F D S J) VmError (Unit {0}) → Action (Vm F D S J) VmError Flow
  then_stop m = m >> pure stop

  -- `try_handle_governance_op`, and what the machine does where no operation is handled
  unfoldable pub governance_op : Op F D → Action (Vm F D S J) VmError Flow
  governance_op (ranked_vote candidates ballots) = then_stop (G.ranked_vote candidates ballots)
  governance_op (liquid_delegate from to) = then_stop (G.liquid_delegate from to)
  governance_op (quorum_threshold threshold) = then_stop (G.quorum_threshold threshold)
  governance_op (vote_threshold threshold) = then_stop (G.vote_threshold threshold)
  governance_op op = fail (not_implemented (text "Operation not implemented: " ++ H.debug_op op))

  -- `log_storage_operation`
  unfoldable pub log_storage_operation :
      Text → Text → TypedValue F → Action (Vm F D S J) VmError (Unit {0})
  log_storage_operation operation key value vm =
      if vm.verbose_storage_trace
      then on_executor
          (modify (
            Execution.emit_event H (text "storage_trace")
              (operation ++ (text " " ++ (key ++ (text " = " ++ to_text N value))))))
          vm
      else (ok tt, vm)

  abbrev pub assert_memory_message : Text → TypedValue F → TypedValue F → Text
  assert_memory_message key expected actual =
      text "Memory '"
      ++ (key
          ++ (text "': expected " ++ (to_text N expected ++ (text ", got " ++ to_text N actual))))

  -- `Return`: within a call, the top of the stack becomes the value of the call
  abbrev pub save_return : Action (Vm F D S J) VmError (Unit {0})
  save_return vm =
      if in_function_call vm.memory
      then on_memory (Memory.set_return_value (or_null (Stack.top vm.stack))) vm
      else (ok tt, vm)

  abbrev pub numbered : Option F → Option (TypedValue F)
  numbered none = none
  numbered (some a) = some (number a)

  -- the operations after which the block goes on
  unfoldable pub plain_op : Op F D → Option (Action (Vm F D S J) VmError (Unit {0}))
  plain_op (push v) = some (Machine.push v)
  plain_op add = some (binary (λ a b. execute_arithmetic N a b (text "add")))
  plain_op sub = some (binary (λ a b. execute_arithmetic N a b (text "sub")))
  plain_op mul = some (binary (λ a b. execute_arithmetic N a b (text "mul")))
  plain_op div = some (binary (λ a b. execute_arithmetic N a b (text "div")))
  plain_op modulo = some (binary (λ a b. execute_arithmetic N a b (text "mod")))
  plain_op (store name) =
      some do value ← on_stack Stack.pop; on_memory (modify (Memory.store name value))
  plain_op (load name) = some do value ← on_memory (query (Memory.load name)); Machine.push value
  plain_op (emit message) = some (emit_text message)
  plain_op negate = some (unary (negated N))
  plain_op (assert_top expected) = some do
    actual ← on_stack Stack.pop
    fail_if (not (agrees N actual expected)) (
        assertion_failed
          (text "Expected " ++ (to_text N expected ++ (text ", got " ++ to_text N actual))))
  plain_op dump_stack = some (λ vm. emit_text (format_stack N vm.stack) vm)
  plain_op dump_memory = some (λ vm. emit_text (show_memory N vm.memory) vm)
  plain_op (assert_memory key expected) = some do
    actual ← on_memory (query (Memory.load key))
    fail_if (not (agrees N actual expected))
        (assertion_failed (assert_memory_message key expected actual))
  plain_op pop = some (on_stack Stack.pop >>= λ v. pure tt)
  plain_op eq = some (binary (λ a b. execute_comparison N a b (text "eq")))
  plain_op gt = some (binary (λ a b. execute_comparison N a b (text "gt")))
  plain_op lt = some (binary (λ a b. execute_comparison N a b (text "lt")))
  plain_op not_op = some (unary (λ a. execute_logical N a (text "not")))
  plain_op and_op = some (binary (λ a b. execute_binary_logical N a b (text "and")))
  plain_op or_op = some (binary (λ a b. execute_binary_logical N a b (text "or")))
  plain_op dup = some (on_stack Stack.dup)
  plain_op swap = some (on_stack Stack.swap)
  plain_op over = some (on_stack Stack.over)
  plain_op (def name params body) = some (on_memory (modify (define_function name params body)))
  plain_op nop = some (pure tt)
  plain_op (emit_event category message) =
      some (on_executor (modify (Execution.emit_event H category message)))
  plain_op (assert_equal_stack depth) = some do
    all_equal ← on_stack (query (Stack.assert_equal_stack N depth))
    fail_if (not all_equal)
        (assertion_failed (text "Stack depth " ++ (print depth ++ text " values are not equal")))
  plain_op dump_state =
      some do
        λ vm. emit_text (format_stack N vm.stack) vm
        λ vm. emit_text (show_memory N vm.memory) vm
  plain_op (create_resource resource) = some (on_executor (execute_create_resource H resource))
  plain_op (mint resource account amount reason) =
      some (on_executor (execute_mint H resource account (number amount) reason))
  plain_op (transfer resource from to amount reason) =
      some (on_executor (execute_transfer H resource from to (number amount) reason))
  plain_op (burn resource account amount reason) =
      some (on_executor (execute_burn H resource account (number amount) reason))
  plain_op (balance resource account) =
      some do amount ← on_executor (execute_balance H resource account); Machine.push amount
  plain_op (increment_reputation identity_id amount reason) =
      some (on_executor (execute_increment_reputation H identity_id (numbered amount)))
  plain_op (store_p key) = some do
    value ← on_stack Stack.pop
    log_storage_operation (text "StoreP") key value
    on_executor (execute_store_p H key value)
  plain_op (load_p key) = some do
    value ← λ vm. on_executor (execute_load_p H key vm.missing_key_behavior) vm
    log_storage_operation (text "LoadP") key value
    Machine.push value
  plain_op op = none

  abbrev pub or_governance :
      Option (Action (Vm F D S J) VmError (Unit {0}))
      → LoopControl
      → Op F D
      → Action (Vm F D S J) VmError Flow
  or_governance (some m) c op = m >> pure (go c)
  or_governance none c op = governance_op op

  -- an operation that runs no block
  unfoldable pub leaf_op : LoopControl → Op F D → Action (Vm F D S J) VmError Flow
  leaf_op c return_op = then_stop save_return
  leaf_op c break_op = pure stop
  leaf_op c continue_op = pure stop
  leaf_op c op = or_governance (plain_op op) c op

  -- the operations that simulation mode leaves out
  unfoldable pub is_simulated : Op F D → Bool
  is_simulated (store_p _) = true
  is_simulated (load_p _) = true
  is_simulated (load_version_p _ _) = true
  is_simulated (list_versions_p _) = true
  is_simulated (diff_versions_p _ _ _) = true
  is_simulated (create_resource _) = true
  is_simulated (mint _ _ _ _) = true
  is_simulated (transfer _ _ _ _ _) = true
  is_simulated (burn _ _ _ _) = true
  is_simulated (balance _ _) = true
  is_simulated _ = false

  -- those of them that push a value
  abbrev pub push_placeholder : Op F D → Action (Vm F D S J) VmError (Unit {0})
  push_placeholder (load_p _) = Machine.push (number N.zero_value)
  push_placeholder (load_version_p _ _) = Machine.push (number N.zero_value)
  push_placeholder (balance _ _) = Machine.push (number N.zero_value)
  push_placeholder _ = pure tt

  unfoldable pub simulate : Op F D → Action (Vm F D S J) VmError (Unit {0})
  simulate op = do
    emit_text (text "[SIMULATION] Would execute: " ++ show_op N H.debug_amount H.debug_duration op)
    push_placeholder op
