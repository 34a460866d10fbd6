-- ===== src/Bytecode/Compiler.antt =====
-- bytecode.rs: the compiler. An instruction is appended; a jump forward is appended with the target 0
-- and set when the target is known.
use icn_covm.Prelude.{
  ℕ, zero, suc, not, ◌&&◌, Option, none, some, is_some, List, [], ◌∷◌, ◌++◌, Text, text, lookup,
  insert, length, take, if◌then◌else◌, ltb, nat_eq,
}
use icn_covm.Prelude.Decimal.{print}
use icn_covm.Vm.Values.{Floats, TypedValue, number}
use icn_covm.Vm.Types.{
  Op, Ops, end, ◌⨾◌, OptionOps, no_block, block, Cases, no_cases, case, push, add, sub, mul, div,
  modulo, store, load, if_op, loop_op, while_op, emit, negate, assert_top, assert_memory, pop, eq,
  gt, lt, not_op, and_op, or_op, dup, swap, over, def, call, nop, match_op, break_op, continue_op,
  emit_event, assert_equal_stack, liquid_delegate, vote_threshold, quorum_threshold,
  min_deliberation, expires_in, require_role, store_p, load_p, load_version_p, list_versions_p,
  diff_versions_p, verify_signature, create_resource, mint, transfer, burn, balance, get_identity,
  require_valid_signature, if_passed, else_op, increment_reputation, macro,
}
use icn_covm.Vm.Memory.{modify_at}
use icn_covm.Bytecode
use icn_covm.Bytecode.{
  BytecodeOp, BytecodeBlock, BytecodeProgram, jump, jump_if_zero, function_entry,
}

abbrev pub iterate : {A : Type 0} → ℕ → (A → A) → A → A
iterate zero f a = a
iterate (suc n) f a = iterate n f (f a)

module _ {F D : Type 0} where
  abbrev pub append : BytecodeOp F D → BytecodeProgram F D → BytecodeProgram F D
  append i p = record p { instructions = p.instructions ++ i ∷ [] }

  abbrev pub position : BytecodeProgram F D → ℕ
  position p = length p.instructions

  -- the target of the jump at a position
  abbrev pub retarget : ℕ → BytecodeOp F D → BytecodeOp F D
  retarget target (jump _) = jump target
  retarget target (jump_if_zero _) = jump_if_zero target
  retarget target i = i

  abbrev pub set_target : ℕ → ℕ → BytecodeProgram F D → BytecodeProgram F D
  set_target pos target p = record p {
    instructions = modify_at (retarget target) pos p.instructions;
  }

  -- `if let JumpIfZero(addr) = …` at the position where the jump was appended
  abbrev pub jump_here : ℕ → BytecodeProgram F D → BytecodeProgram F D
  jump_here pos p = set_target pos (position p) p

  abbrev pub jump_all_here : List ℕ → BytecodeProgram F D → BytecodeProgram F D
  jump_all_here [] p = p
  jump_all_here (pos ∷ rest) p = jump_all_here rest (jump_here pos p)

  abbrev pub ops_length : Ops F D → ℕ
  ops_length end = 0
  ops_length (op ⨾ ops) = suc (ops_length ops)

  -- a block of `IfPassed` or `Else`: only a push is kept
  abbrev pub passed_op : Op F D → BytecodeOp F D
  passed_op (push v) = Bytecode.push v
  passed_op op = Bytecode.nop

  abbrev pub passed_block : Ops F D → BytecodeBlock F D
  passed_block end = Bytecode.end
  passed_block (op ⨾ ops) = Bytecode.and_then (passed_op op) (passed_block ops)

abbrev pub number_of : {F : Type 0} → Option F → Option (TypedValue F)
number_of none = none
number_of (some a) = some (number a)

module _ (N : Floats) {D : Type 0} where
  open N use {F}

  -- the instruction of an operation that has just one
  unfoldable pub instruction : Op F D → BytecodeOp F D
  instruction (push v) = Bytecode.push v
  instruction add = Bytecode.add
  instruction sub = Bytecode.sub
  instruction mul = Bytecode.mul
  instruction div = Bytecode.div
  instruction modulo = Bytecode.modulo
  instruction (store name) = Bytecode.store name
  instruction (load name) = Bytecode.load name
  instruction pop = Bytecode.pop
  instruction eq = Bytecode.eq
  instruction gt = Bytecode.gt
  instruction lt = Bytecode.lt
  instruction not_op = Bytecode.not_op
  instruction and_op = Bytecode.and_op
  instruction or_op = Bytecode.or_op
  instruction dup = Bytecode.dup
  instruction swap = Bytecode.swap
  instruction over = Bytecode.return_op
  instruction negate = Bytecode.negate
  instruction (call name) = Bytecode.call name
  instruction nop = Bytecode.nop
  instruction break_op = Bytecode.break_op
  instruction continue_op = Bytecode.continue_op
  instruction (emit message) = Bytecode.emit message
  instruction (emit_event category message) = Bytecode.emit_event category message
  instruction (assert_top v) = Bytecode.assert_top v
  instruction (assert_memory key v) = Bytecode.assert_memory key v
  instruction (assert_equal_stack depth) = Bytecode.assert_equal_stack depth
  instruction (store_p key) = Bytecode.store_storage key
  instruction (load_p key) = Bytecode.load_storage key
  instruction (load_version_p key version) = Bytecode.load_storage_version key version
  instruction (list_versions_p key) = Bytecode.list_storage_versions key
  instruction (diff_versions_p key v1 v2) = Bytecode.diff_storage_versions key v1 v2
  instruction (liquid_delegate from to) = Bytecode.liquid_delegate from to
  instruction (vote_threshold threshold) = Bytecode.vote_threshold threshold
  instruction (quorum_threshold threshold) = Bytecode.quorum_threshold threshold
  instruction (create_resource resource) = Bytecode.create_resource resource
  instruction (mint resource account amount reason) =
      Bytecode.mint resource account (number amount) reason
  instruction (transfer resource from to amount reason) =
      Bytecode.transfer resource from to (number amount) reason
  instruction (burn resource account amount reason) =
      Bytecode.burn resource account (number amount) reason
  instruction (balance resource account) = Bytecode.balance resource account
  instruction verify_signature = Bytecode.verify_signature
  instruction (get_identity id) = Bytecode.get_identity id
  instruction (require_valid_signature voter message signature) =
      Bytecode.require_valid_signature voter message signature
  instruction (increment_reputation id amount reason) =
      Bytecode.increment_reputation id (number_of amount) reason
  instruction (if_passed ops) = Bytecode.if_passed (passed_block ops)
  instruction (else_op ops) = Bytecode.else_op (passed_block ops)
  instruction (macro name) = Bytecode.macro name
  instruction (require_role role) = Bytecode.require_role role
  instruction (min_deliberation period) = Bytecode.min_deliberation period
  instruction (expires_in period) = Bytecode.expires_in period
  instruction op = Bytecode.return_op

  -- a loop of 1000 rounds with a short body keeps its counter on the stack
  abbrev pub stack_loop :
      ℕ → (BytecodeProgram F D → BytecodeProgram F D) → BytecodeProgram F D → BytecodeProgram F D
  stack_loop count body p₀ =
      let p₁ = append (Bytecode.push (number (N.of_nat count))) p₀ in
      let start = position p₁ in
      let p₂ =
        append Bytecode.gt
          (append (Bytecode.push (number N.zero_value)) (append Bytecode.dup p₁)) in
      let exit = position p₂ in
      let p₃ = body (append (jump_if_zero 0) p₂) in
      let p₄ = append Bytecode.sub (append (Bytecode.push (number N.one)) p₃) in
      append Bytecode.pop (jump_here exit (append (jump start) p₄))

  -- the other loops keep their counter in a variable
  abbrev pub variable_loop :
      ℕ → (BytecodeProgram F D → BytecodeProgram F D) → BytecodeProgram F D → BytecodeProgram F D
  variable_loop count body p₀ =
      let p₁ = append (Bytecode.push (number (N.of_nat count))) p₀ in
      let counter = text "__loop_counter_" ++ print (position p₁) in
      let p₂ = append (Bytecode.store counter) p₁ in
      let start = position p₂ in
      let p₃ =
        append Bytecode.gt
          (append (Bytecode.push (number N.zero_value)) (append (Bytecode.load counter) p₂)) in
      let exit = position p₃ in
      let p₄ = body (append (jump_if_zero 0) p₃) in
      let p₅ =
        append Bytecode.sub
          (append (Bytecode.push (number N.one)) (append (Bytecode.load counter) p₄)) in
      jump_here exit (append (jump start) (append (Bytecode.store counter) p₅))

  abbrev pub compile_loop :
      ℕ
      → (length : ℕ) → (BytecodeProgram F D → BytecodeProgram F D)
      → BytecodeProgram F D
      → BytecodeProgram F D
  compile_loop count length body p =
      if not (ltb 5 count)
      then iterate count body p
      else if nat_eq count 1000 && not (ltb 5 length)
      then stack_loop count body p
      else variable_loop count body p

  abbrev pub compile_def :
      Text
      → List Text
      → (BytecodeProgram F D → BytecodeProgram F D)
      → BytecodeProgram F D
      → BytecodeProgram F D
  compile_def name params body p =
      if is_some (lookup name p.function_table)
      then append Bytecode.return_op (body (append (function_entry name params) p))
      else p

  abbrev pub match_variable : BytecodeProgram F D → Text
  match_variable p = text "__match_value_" ++ print (position p)

  unfoldable mutual
    pub compile_ops : Ops F D → BytecodeProgram F D → BytecodeProgram F D
    compile_ops end p = p
    compile_ops (op ⨾ ops) p = compile_ops ops (compile_op op p)

    pub compile_op : Op F D → BytecodeProgram F D → BytecodeProgram F D
    compile_op (if_op condition then_ else_) p =
        let p₁ = compile_ops condition p in
        let p₂ = compile_ops then_ (append (jump_if_zero 0) p₁) in
        compile_else (position p₁) else_ p₂
    compile_op (while_op condition body) p =
        let start = position p in
        let p₁ = compile_ops condition p in
        let p₂ = compile_ops body (append (jump_if_zero 0) p₁) in
        jump_here (position p₁) (append (jump start) p₂)
    compile_op (loop_op count body) p = compile_loop count (ops_length body) (compile_ops body) p
    compile_op (def name params body) p = compile_def name params (compile_ops body) p
    compile_op (match_op value cases default) p =
        let p₁ = compile_ops value p in
        let variable = match_variable p₁ in
        let (p₂, exits) = compile_cases variable cases (append (Bytecode.store variable) p₁) in
        jump_all_here exits (compile_default default p₂)
    compile_op op p = append (instruction op) p

    -- the end of `compile_if`, given the position of the conditional jump
    pub compile_else : ℕ → OptionOps F D → BytecodeProgram F D → BytecodeProgram F D
    compile_else conditional no_block p = jump_here conditional p
    compile_else conditional (block ops) p =
        let p₁ = append (jump 0) p in
        let p₂ = compile_ops ops (jump_here conditional p₁) in jump_here (position p) p₂

    -- the cases of a match, with the positions of the jumps to its end
    pub compile_cases : Text → Cases F D → BytecodeProgram F D → BytecodeProgram F D × List ℕ
    compile_cases variable no_cases p = (p, [])
    compile_cases variable (case value body rest) p =
        let p₁ =
          append Bytecode.eq (append (Bytecode.push value) (append (Bytecode.load variable) p)) in
        let p₂ = compile_ops body (append (jump_if_zero 0) p₁) in
        let (p₃, exits) =
          compile_cases variable rest (jump_here (position p₁) (append (jump 0) p₂)) in
        (p₃, position p₂ ∷ exits)

    pub compile_default : OptionOps F D → BytecodeProgram F D → BytecodeProgram F D
    compile_default no_block p = p
    compile_default (block ops) p = compile_ops ops p

  -- the functions that are defined at the top, with entries counted in a program of them alone
  abbrev pub register_op : Op F D → BytecodeProgram F D → BytecodeProgram F D
  register_op (def name params body) p =
      let entry = record p { function_table = insert name (position p) p.function_table } in
      append Bytecode.return_op (compile_ops body (append (function_entry name params) entry))
  register_op op p = p

  abbrev pub register_ops : Ops F D → BytecodeProgram F D → BytecodeProgram F D
  register_ops end p = p
  register_ops (op ⨾ ops) p = register_ops ops (register_op op p)

  unfoldable pub pre_process_functions : Ops F D → BytecodeProgram F D → BytecodeProgram F D
  pre_process_functions ops p =
      let p' = register_ops ops (record p { function_table = [] }) in
      record p' { instructions = take (position p) p'.instructions }

  unfoldable pub compile : Ops F D → BytecodeProgram F D
  compile ops = compile_ops ops (pre_process_functions ops Bytecode.new)
