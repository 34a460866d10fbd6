-- ===== src/Bytecode/Interpreter.antt =====
-- bytecode.rs: the interpreter. A program need not end, so it runs on fuel, one unit for each
-- instruction.
use icn_covm.Prelude.{
  ℕ, zero, suc, Bool, true, false, not, ◌&&◌, Option, none, some, [], ◌∷◌, ◌++◌, Text, text,
  get_elem?, if◌then◌else◌,
}
use icn_covm.Prelude.Actions.{Result, ok, err, Action, fail, modify, pure, query, ◌>>=◌, ◌>>◌}
use icn_covm.Storage.Auth.{AuthContext, has_role}
use icn_covm.Vm.Error.{VmError, not_implemented, permission_denied, identity_context_unavailable}
use icn_covm.Vm.Values.{Floats, is_falsey}
use icn_covm.Vm.Memory
use icn_covm.Vm.Stack
use icn_covm.Vm.Execution.{Host}
use icn_covm.Vm.Execution
use icn_covm.Vm.Execution.Operators.{
  execute_arithmetic, execute_comparison, execute_logical, execute_binary_logical,
}
use icn_covm.Vm.Execution.Economy.{
  execute_create_resource, execute_mint, execute_transfer, execute_burn, execute_balance,
}
use icn_covm.Vm.Execution.Persistence.{execute_store_p, execute_load_p}
use icn_covm.Vm.Machine
use icn_covm.Vm.Machine.{Vm, on_stack, on_executor, on_memory, emit_text, unary, binary}
use icn_covm.Vm.Interpreter.{Outcome, resume}
use icn_covm.Bytecode.{
  BytecodeOp, BytecodeProgram, push, store, load, add, sub, mul, div, modulo, emit, emit_event,
  call, return_op, jump_if_zero, jump, function_entry, print_op, dup, pop, swap, eq, gt, lt, negate,
  and_op, or_op, not_op, create_resource, mint, transfer, burn, balance, verify_signature,
  store_storage, load_storage, nop, require_role, min_deliberation, expires_in,
  increment_reputation,
}

pub record BytecodeInterpreter (F D S J : Type 0) : Type 0 where
  pub pc : ℕ
  pub program : BytecodeProgram F D
  pub vm : Vm F D S J

-- `get(pc)`, and whether there is an instruction left
abbrev pub fetch : {F D S J : Type 0} → BytecodeInterpreter F D S J → Option (BytecodeOp F D)
fetch i = get_elem? i.program.instructions i.pc

module _ {N : Floats} (H : Host N) (debug_bytecode : BytecodeOp N.F H.D → Text) where
  open N use {F}
  open H use {S, J, D}

  abbrev pub on_vm :
      {A : Type 0} → Action (Vm F D S J) VmError A → Action (BytecodeInterpreter F D S J) VmError A
  on_vm m i = let (r, vm) = m i.vm in (r, record i { vm = vm })

  abbrev pub next : Action (BytecodeInterpreter F D S J) VmError (Unit {0})
  next = modify (λ i. record i { pc = suc i.pc })

  abbrev pub go_to : ℕ → Action (BytecodeInterpreter F D S J) VmError (Unit {0})
  go_to target = modify (λ i. record i { pc = target })

  -- an instruction that acts on the machine and goes on to the next one
  abbrev pub then_next :
      Action (Vm F D S J) VmError (Unit {0})
      → Action (BytecodeInterpreter F D S J) VmError (Unit {0})
  then_next m = on_vm m >> next

  abbrev pub jump_if : ℕ → Bool → Action (BytecodeInterpreter F D S J) VmError (Unit {0})
  jump_if target true = go_to target
  jump_if target false = next

  -- the machine's part of `RequireRole`
  abbrev pub check_role : Option (AuthContext J) → Text → Text → Result VmError (Unit {0})
  check_role none namespace role = err identity_context_unavailable
  check_role (some auth) namespace role =
      if not (has_role auth (text "global") role) && not (has_role auth namespace role)
      then err (permission_denied auth.current_identity_did (text "require_role") role)
      else ok tt

  abbrev pub governance_event : Text → Action (Vm F D S J) VmError (Unit {0})
  governance_event message =
      on_executor (modify (Execution.emit_event H (text "governance") message))

  abbrev pub append_instruction :
      BytecodeOp F D → BytecodeInterpreter F D S J → BytecodeInterpreter F D S J
  append_instruction op i = record i {
    program = record i.program { instructions = i.program.instructions ++ op ∷ [] };
  }

  -- `println!` of the value that `Print` pops is left out.
  unfoldable pub execute_instruction :
      BytecodeOp F D → Action (BytecodeInterpreter F D S J) VmError (Unit {0})
  execute_instruction (push value) = then_next (Machine.push value)
  execute_instruction (store name) =
      then_next do value ← on_stack Stack.pop; on_memory (modify (Memory.store name value))
  execute_instruction (load name) =
      then_next do value ← on_memory (query (Memory.load name)); Machine.push value
  execute_instruction add = then_next (binary (λ a b. execute_arithmetic N a b (text "add")))
  execute_instruction sub = then_next (binary (λ a b. execute_arithmetic N a b (text "sub")))
  execute_instruction mul = then_next (binary (λ a b. execute_arithmetic N a b (text "mul")))
  execute_instruction div = then_next (binary (λ a b. execute_arithmetic N a b (text "div")))
  execute_instruction (emit message) = then_next (emit_text message)
  execute_instruction (emit_event category message) =
      then_next (on_executor (modify (Execution.emit_event H category message)))
  execute_instruction (call name) =
      fail (not_implemented (text "Function call '" ++ (name ++ text "' not implemented yet")))
  execute_instruction return_op = fail (not_implemented (text "Return not implemented yet"))
  execute_instruction (jump_if_zero target) = do
    value ← on_vm (on_stack Stack.pop)
    jump_if target (is_falsey N value)
  execute_instruction (jump target) = go_to target
  execute_instruction (function_entry name _) =
      fail (not_implemented (text "Function entry '" ++ (name ++ text "' not implemented yet")))
  execute_instruction print_op = then_next (on_stack Stack.pop >>= λ v. pure tt)
  execute_instruction dup = then_next (on_stack Stack.dup)
  execute_instruction pop = then_next (on_stack Stack.pop >>= λ v. pure tt)
  execute_instruction swap = then_next (on_stack Stack.swap)
  execute_instruction eq = then_next (binary (λ a b. execute_comparison N a b (text "eq")))
  execute_instruction gt = then_next (binary (λ a b. execute_comparison N a b (text "gt")))
  execute_instruction lt = then_next (binary (λ a b. execute_comparison N a b (text "lt")))
  execute_instruction negate = then_next (unary (λ a. execute_logical N a (text "not")))
  execute_instruction and_op = then_next (binary (λ a b. execute_binary_logical N a b (text "and")))
  execute_instruction or_op = then_next (binary (λ a b. execute_binary_logical N a b (text "or")))
  execute_instruction not_op = then_next (unary (λ a. execute_logical N a (text "not")))
  execute_instruction modulo = then_next (binary (λ a b. execute_arithmetic N a b (text "mod")))
  execute_instruction (create_resource resource) =
      then_next (on_executor (execute_create_resource H resource))
  execute_instruction (mint resource account amount reason) =
      then_next (on_executor (execute_mint H resource account amount reason))
  execute_instruction (transfer resource from to amount reason) =
      then_next (on_executor (execute_transfer H resource from to amount reason))
  execute_instruction (burn resource account amount reason) =
      then_next (on_executor (execute_burn H resource account amount reason))
  execute_instruction (balance resource account) =
      then_next do amount ← on_executor (execute_balance H resource account); Machine.push amount
  execute_instruction verify_signature =
      fail (not_implemented (text "VerifySignature not implemented"))
  execute_instruction (store_storage key) =
      then_next do value ← on_stack Stack.pop; on_executor (execute_store_p H key value)
  execute_instruction (load_storage key) = then_next do
    value ← λ vm. on_executor (execute_load_p H key vm.missing_key_behavior) vm
    Machine.push value
  execute_instruction nop = next
  execute_instruction (require_role role) =
      then_next (λ vm. (check_role vm.executor.auth_context vm.executor.namespace role, vm))
  execute_instruction (min_deliberation duration) =
      then_next
        (governance_event (text "Minimum deliberation period: " ++ H.debug_duration duration))
  execute_instruction (expires_in duration) =
      then_next (governance_event (text "Expires in: " ++ H.debug_duration duration))
  execute_instruction (increment_reputation id amount reason) =
      modify (append_instruction (increment_reputation id amount reason)) >> next
  execute_instruction op =
      fail (not_implemented (text "Operation not implemented in bytecode: " ++ debug_bytecode op))

  -- one round of the loop of `execute`, given the next rounds
  abbrev pub round :
      (BytecodeInterpreter F D S J → Outcome (BytecodeInterpreter F D S J) (Unit {0}))
      → Option (BytecodeOp F D)
      → BytecodeInterpreter F D S J
      → Outcome (BytecodeInterpreter F D S J) (Unit {0})
  round again none i = some (ok tt, i)
  round again (some op) i =
      resume (execute_instruction op i).0 (execute_instruction op i).1 (λ u. again)

  unfoldable pub run :
      ℕ → BytecodeInterpreter F D S J → Outcome (BytecodeInterpreter F D S J) (Unit {0})
  run zero i = none
  run (suc f) i = let again = run f in round again (fetch i) i

  unfoldable pub execute :
      ℕ → BytecodeInterpreter F D S J → Outcome (BytecodeInterpreter F D S J) (Unit {0})
  execute f i = run f (record i { pc = 0 })
