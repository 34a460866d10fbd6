-- ===== src/Bytecode/Code.antt =====
-- What the compiler makes of the operations that the machine and the bytecode run alike.
pub mod Emitted
pub mod Jumps
pub mod Compiled
use icn_covm.Prelude.{
  ℕ, zero, suc, ◌+◌, ◌≤◌, ◌≡◌, refl, ap, ◌∙◌, sym, Bool, true, false, not, ◌&&◌, Option, none, some,
  List, [], ◌∷◌, ◌++◌, length, length-append, if◌then◌else◌, ltb, dec_lt, arith,
}
use icn_covm.Vm.Values.{Floats}
use icn_covm.Vm.Types.{
  Op, Ops, end, ◌⨾◌, OptionOps, no_block, block, if_op, while_op, loop_op, push, add, sub, mul, div,
  modulo, store, load, emit, pop, eq, gt, lt, not_op, and_op, or_op, dup, swap, nop, emit_event,
  create_resource, mint, transfer, burn, balance,
}
use icn_covm.Vm.Memory.{modify_at}
use icn_covm.Bytecode
use icn_covm.Bytecode.{BytecodeOp, BytecodeProgram, jump, jump_if_zero}
use icn_covm.Bytecode.Compiler.{
  append, position, retarget, set_target, jump_here, instruction, compile_ops, compile_op,
  compile_else, iterate, compile_loop, ops_length, register_op, register_ops, pre_process_functions,
  compile,
}

-- an operation with one instruction, which does the same
abbrev pub IsDirect : {F D : Type 0} → Op F D → Type 0
IsDirect (push _) = Unit
IsDirect add = Unit
IsDirect sub = Unit
IsDirect mul = Unit
IsDirect div = Unit
IsDirect modulo = Unit
IsDirect (store _) = Unit
IsDirect (load _) = Unit
IsDirect (emit _) = Unit
IsDirect pop = Unit
IsDirect eq = Unit
IsDirect gt = Unit
IsDirect lt = Unit
IsDirect not_op = Unit
IsDirect and_op = Unit
IsDirect or_op = Unit
IsDirect dup = Unit
IsDirect swap = Unit
IsDirect nop = Unit
IsDirect (emit_event _ _) = Unit
IsDirect (create_resource _) = Unit
IsDirect (mint _ _ _ _) = Unit
IsDirect (transfer _ _ _ _ _) = Unit
IsDirect (burn _ _ _ _) = Unit
IsDirect (balance _ _) = Unit
IsDirect _ = ⊥

-- Blocks of such operations, with `If`, `While` and loops of at most five rounds around them.
unfoldable mutual
  pub Compiled : {F D : Type 0} → Ops F D → Type 0
  Compiled end = Unit
  Compiled (op ⨾ ops) = CompiledOp op × Compiled ops

  pub CompiledOp : {F D : Type 0} → Op F D → Type 0
  CompiledOp (if_op condition then_ else_) =
      Compiled condition × Compiled then_ × CompiledOption else_
  CompiledOp (while_op condition body) = Compiled condition × Compiled body
  CompiledOp (loop_op count body) = (count ≤ 5) × Compiled body
  CompiledOp op = IsDirect op

  pub CompiledOption : {F D : Type 0} → OptionOps F D → Type 0
  CompiledOption no_block = Unit
  CompiledOption (block ops) = Compiled ops

abbrev pub times : ℕ → ℕ → ℕ
times zero n = 0
times (suc k) n = n + times k n

unfoldable mutual
  -- the number of instructions
  pub size : {F D : Type 0} → Ops F D → ℕ
  size end = 0
  size (op ⨾ ops) = size_op op + size ops

  pub size_op : {F D : Type 0} → Op F D → ℕ
  size_op (if_op condition then_ else_) = size condition + suc (size then_ + size_else else_)
  size_op (while_op condition body) = size condition + suc (size body + 1)
  size_op (loop_op count body) = times count (size body)
  size_op op = 1

  -- with the jump over the block
  pub size_else : {F D : Type 0} → OptionOps F D → ℕ
  size_else no_block = 0
  size_else (block ops) = suc (size ops)

-- where the instructions of the second branch begin, after its jump, if there is a second branch
abbrev pub else_start : {F D : Type 0} → ℕ → OptionOps F D → ℕ
else_start n no_block = n
else_start n (block ops) = suc n

-- the code of `count` rounds, given that of a round at each position
abbrev pub rounds : {A : Type 0} → ℕ → (size : ℕ) → (ℕ → List A) → ℕ → List A
rounds zero size f n = []
rounds (suc k) size f n = f n ++ rounds k size f (n + size)

length-rounds :
    {A : Type 0} (k size : ℕ) (f : ℕ → List A) (n : ℕ)
    → ((m : ℕ) → length (f m) ≡ size)
    → length (rounds k size f n) ≡ times k size
length-rounds zero size f n h = refl
length-rounds (suc k) size f n h = omega (
  arith,
  length-append (f n) (rounds k size f (n + size)),
  h n,
  length-rounds k size f (n + size) h,
)

-- a block, an instruction and two more blocks
pub length-joined :
    {A : Type 0} (xs ys zs : List A) (x : A) {a b c : ℕ}
    → length xs ≡ a
    → length ys ≡ b
    → length zs ≡ c
    → length (xs ++ x ∷ (ys ++ zs)) ≡ a + suc (b + c)
length-joined xs ys zs x p q r =
    omega (arith, length-append xs (x ∷ (ys ++ zs)), length-append ys zs)

module _ (N : Floats) {D : Type 0} where
  open N use {F}

  unfoldable mutual
    -- the instructions of a block that stands at a position
    pub code : Ops F D → ℕ → List (BytecodeOp F D)
    code end n = []
    code (op ⨾ ops) n = code_op op n ++ code ops (n + size_op op)

    pub code_op : Op F D → ℕ → List (BytecodeOp F D)
    code_op (if_op condition then_ else_) n =
        let m = n + size condition in
        let k = suc m + size then_ in
        code condition n
        ++ jump_if_zero (else_start k else_) ∷ (code then_ (suc m) ++ code_else else_ k)
    code_op (while_op condition body) n =
        let m = n + size condition in
        let k = suc m + size body in
        code condition n ++ jump_if_zero (suc k) ∷ (code body (suc m) ++ jump n ∷ [])
    code_op (loop_op count body) n = rounds count (size body) (code body) n
    code_op op n = instruction N op ∷ []

    pub code_else : OptionOps F D → ℕ → List (BytecodeOp F D)
    code_else no_block n = []
    code_else (block ops) n = jump (suc n + size ops) ∷ code ops (suc n)

  mutual
    unfolding code size

    pub length-code : (ops : Ops F D) (n : ℕ) → length (code ops n) ≡ size ops
    length-code end n = refl
    length-code (op ⨾ ops) n = omega (
      arith,
      length-append (code_op op n) (code ops (n + size_op op)),
      length-code_op op n,
      length-code ops (n + size_op op),
    )

    pub length-code_op : (op : Op F D) (n : ℕ) → length (code_op op n) ≡ size_op op
    length-code_op (if_op condition then_ else_) n =
        length-joined (code condition n) (code then_ _) (code_else else_ _) _
          (length-code condition n) (length-code then_ _) (length-code_else else_ _)
    length-code_op (while_op condition body) n =
        length-joined (code condition n) (code body _) (jump n ∷ []) _ (length-code condition n)
          (length-code body _) refl
    length-code_op (loop_op count body) n =
        length-rounds count (size body) (code body) n (length-code body)
    length-code_op _ n = refl

    pub length-code_else : (ops : OptionOps F D) (n : ℕ) → length (code_else ops n) ≡ size_else ops
    length-code_else no_block n = refl
    length-code_else (block ops) n = ap suc (length-code ops (suc n))
