-- ===== src/Bytecode/Code/Compiled.antt =====
-- The compiler against `code`.
use icn_covm.Prelude.{
  ℕ, suc, ◌+◌, ◌≤◌, ◌≡◌, refl, ap, ◌∙◌, sym, false, List, [], ◌∷◌, ◌++◌, length, ltb, arith,
}
use icn_covm.Vm.Values.{Floats}
use icn_covm.Vm.Types.{Op, Ops, end, ◌⨾◌, no_block, block, if_op, while_op, loop_op, def, match_op}
use icn_covm.Bytecode
use icn_covm.Bytecode.{BytecodeOp, BytecodeProgram, jump, jump_if_zero}
use icn_covm.Bytecode.Compiler.{
  append, instruction, compile_ops, compile_op, iterate, ops_length, compile_loop, register_ops,
  compile, pre_process_functions,
}
use icn_covm.Bytecode.Code.{Compiled, CompiledOp, size, size_op, code, code_op}
use icn_covm.Bytecode.Code.Emitted.{Emits, program, append_nil, seq-Emits, iterate-Emits}
use icn_covm.Bytecode.Code.Jumps.{while-Emits, if-Emits, if_else-Emits}

module _ {F D : Type 0} where
  at_places :
      {f : BytecodeProgram F D → BytecodeProgram F D} {c c' : ℕ → List (BytecodeOp F D)} {s : ℕ}
      → Emits f c s
      → ((n : ℕ) → c n ≡ c' n)
      → Emits f c' s
  at_places e h = record {
    emits = λ xs t. e.emits xs t ∙ ap (λ l. program (xs ++ l) t) (h (length xs));
    sized = λ n. ap length (sym (h n)) ∙ e.sized n;
  }

  nothing-Emits : Emits {F = F} {D = D} (λ p. p) (λ n. []) 0
  nothing-Emits = record {
    emits = λ xs t. ap (λ l. program l t) (sym (append_nil xs));
    sized = λ n. refl;
  }

  one-Emits : (i : BytecodeOp F D) → Emits (append i) (λ n. i ∷ []) 1
  one-Emits i = record { emits = λ xs t. refl; sized = λ n. refl }

  same-Emits :
      {f f' : BytecodeProgram F D → BytecodeProgram F D} {c : ℕ → List (BytecodeOp F D)} {s : ℕ}
      → Emits f c s
      → ((p : BytecodeProgram F D) → f' p ≡ f p)
      → Emits f' c s
  same-Emits e h = record { emits = λ xs t. h (program xs t) ∙ e.emits xs t; sized = e.sized }

module _ (N : Floats) {D : Type 0} where
  open N use {F}

  small_loop :
      (count size : ℕ) (f : BytecodeProgram F D → BytecodeProgram F D) (p : BytecodeProgram F D)
      → count ≤ 5
      → compile_loop N count size f p ≡ iterate count f p
  small_loop count size f p h = let small : ltb 5 count ≡ false = ground arith in rw (small) refl

  mutual
    unfolding code size Compiled compile_ops

    pub compile_ops-Emits :
        (ops : Ops F D) → Compiled ops → Emits (compile_ops N ops) (code N ops) (size ops)
    compile_ops-Emits end h = nothing-Emits
    compile_ops-Emits (op ⨾ ops) h = seq-Emits (compile_op-Emits op h.0) (compile_ops-Emits ops h.1)

    compile_op-Emits :
        (op : Op F D) → CompiledOp op → Emits (compile_op N op) (code_op N op) (size_op op)
    compile_op-Emits (if_op condition then_ no_block) h =
        at_places (if-Emits (compile_ops-Emits condition h.0) (compile_ops-Emits then_ h.1)) (λ n.
          let target : suc (n + size condition) + (size then_ + 0)
              ≡ suc (n + size condition) + size then_ =
            omega arith in
          ap
            (λ j.
              code N condition n
              ++ jump_if_zero j ∷ (code N then_ (suc (n + size condition)) ++ []))
            target)
    compile_op-Emits (if_op condition then_ (block ops)) h =
        if_else-Emits (compile_ops-Emits condition h.0) (compile_ops-Emits then_ h.1)
          (compile_ops-Emits ops h.2)
    compile_op-Emits (while_op condition body) h =
        at_places (while-Emits (compile_ops-Emits condition h.0) (compile_ops-Emits body h.1)) (λ n.
          let target : suc (n + size condition) + (size body + 1)
              ≡ suc (suc (n + size condition) + size body) =
            omega arith in
          ap
            (λ j.
              code N condition n
              ++ jump_if_zero j ∷ (code N body (suc (n + size condition)) ++ jump n ∷ []))
            target)
    compile_op-Emits (loop_op count body) h =
        same-Emits (iterate-Emits count (compile_ops-Emits body h.1))
          (λ p. small_loop count (ops_length body) (compile_ops N body) p h.0)
    compile_op-Emits (def _ _ _) h = elim h [ ]
    compile_op-Emits (match_op _ _ _) h = elim h [ ]
    compile_op-Emits op h = one-Emits (instruction N op)

  register_ops-Compiled :
      (ops : Ops F D) (p : BytecodeProgram F D) → Compiled ops → register_ops N ops p ≡ p
  unfolding Compiled
  register_ops-Compiled end p h = refl
  register_ops-Compiled (def _ _ _ ⨾ ops) p h = elim h.0 [ ]
  register_ops-Compiled (op ⨾ ops) p h = register_ops-Compiled ops p h.1

  -- What is compiled of such operations is their code, from position 0 on.
  pub compile-code : (ops : Ops F D) → Compiled ops → compile N ops ≡ program (code N ops 0) []
  unfolding compile pre_process_functions
  compile-code ops h =
      rw (register_ops-Compiled ops Bytecode.new h) ((compile_ops-Emits ops h).emits [] [])
