-- ===== src/Bytecode/Correct.antt =====
-- The bytecode of a block against the machine's own run of it.
pub mod Direct
pub mod Whole
use icn_covm.Prelude.{
  ℕ, zero, suc, ◌+◌, ◌≡◌, refl, ap, ◌∙◌, sym, Bool, true, false, ◌&&◌, Option, none, some, List, [],
  ◌∷◌, ◌++◌, Text, length, get_elem?, arith,
}
use icn_covm.Prelude.Actions.{Result, ok, err}
use icn_covm.Vm.Error.{VmError}
use icn_covm.Vm.Values.{Floats}
use icn_covm.Vm.Types.{
  Op, Ops, end, ◌⨾◌, OptionOps, no_block, block, LoopControl, no_control, if_op, while_op, loop_op,
  call, match_op, return_op, break_op, continue_op,
}
use icn_covm.Vm.Execution.{Host}
use icn_covm.Vm.Machine.{Vm, Handlers}
use icn_covm.Vm.Machine.Leaf
use icn_covm.Vm.Machine.Leaf.{Flow, go, leaf_op, is_simulated}
use icn_covm.Vm.Interpreter.{
  Outcome, then_run, branch, after_body, after_op, explained, execute, execute_ops, execute_op,
  run_op, execute_block, run_loop, run_while,
}
use icn_covm.Bytecode.{BytecodeOp, BytecodeProgram, jump, jump_if_zero}
use icn_covm.Bytecode.Code.{
  Compiled, CompiledOp, CompiledOption, IsDirect, size, size_op, size_else, else_start, code,
  code_op, code_else, rounds, times, length-code, length-code_op,
}
use icn_covm.Bytecode.Interpreter.{execute_instruction}
use icn_covm.Bytecode.Steps.{Holds, Holds-append, Holds-joined, Reaches, here, step, Reaches-trans}
use Direct.{
  Quiet, Calm, calm, Follows, reaches, fails, Sim, starved, ended, prefix-Sim, then_run-Sim,
  pop-Sim, direct-Sim,
}

plus_assoc : (a b c : ℕ) → (a + (b + c)) ≡ ((a + b) + c)
plus_assoc a b c = omega arith

plus_one : (n : ℕ) → (n + 1) ≡ suc n
plus_one n = omega arith

plus_zero : (n : ℕ) → n ≡ (n + 0)
plus_zero n = omega arith

plus_suc : (n k : ℕ) → (n + suc k) ≡ (suc n + k)
plus_suc n k = omega arith

if_end : (n a b c : ℕ) → (suc (n + a) + b) + c ≡ n + (a + suc (b + c))
if_end n a b c = omega arith

while_end : (n a b : ℕ) → suc (suc (n + a) + b) ≡ n + (a + suc (b + 1))
while_end n a b = omega arith

-- a loop that goes on without a control
data Idle : LoopControl → Type 0 where
  idle : Idle no_control

abbrev pub Any : {A : Type 0} → A → Type 0
Any a = Unit

module _ {N : Floats} (H : Host N) (G : Handlers N.F H.D H.S H.J)
    (debug : BytecodeOp N.F H.D → Text) (program : BytecodeProgram N.F H.D) where
  open N use {F}
  open H use {S, J, D}

  abbrev all : List (BytecodeOp F D)
  all = program.instructions

  abbrev SimAt :
      {A : Type 0} (P : A → Type 0) → ℕ → ℕ → Vm F D S J → Outcome (Vm F D S J) A → Type 0
  SimAt P m n vm o = Sim H G debug program P m n vm o

  -- the same position, counted in another way
  at_same :
      {A : Type 0} {P : A → Type 0} {m m' n : ℕ} {vm : Vm F D S J} {o : Outcome (Vm F D S J) A}
      → m ≡ m'
      → SimAt P m n vm o
      → SimAt P m' n vm o
  at_same e h = rw (sym e) h

  from_same :
      {A : Type 0} {P : A → Type 0} {m n n' : ℕ} {vm : Vm F D S J} {o : Outcome (Vm F D S J) A}
      → n ≡ n'
      → SimAt P m n vm o
      → SimAt P m n' vm o
  from_same e h = rw (sym e) h

  keep-Sim :
      {A : Type 0} {P : A → Type 0} {m n : ℕ} {vm : Vm F D S J} {o : Outcome (Vm F D S J) A}
      → SimAt P m n vm o
      → SimAt Calm m n vm (then_run o (λ u s. some (ok (go no_control), s)))
  keep-Sim h = then_run-Sim H G debug program _ h (λ u s p q. ended (reaches calm q here))

  went-Sim :
      {m : ℕ} (c : LoopControl) (s : Vm F D S J)
      → Idle c
      → Quiet s
      → SimAt Calm m m s (some (ok (go c), s))
  went-Sim c s idle q = ended (reaches calm q here)

  loop-Sim :
      {m n : ℕ} {vm : Vm F D S J} {o : Outcome (Vm F D S J) LoopControl}
      → SimAt Idle m n vm o
      → SimAt Calm m n vm (then_run o (λ c s. some (ok (go c), s)))
  loop-Sim h = then_run-Sim H G debug program _ h went-Sim

  after_op-Sim :
      {m n : ℕ} (rest : LoopControl → Vm F D S J → Outcome (Vm F D S J) (Unit {0}))
      → ((s : Vm F D S J) → Quiet s → SimAt Any m n s (rest no_control s))
      → (flow : Flow) (s : Vm F D S J) → Calm flow
      → Quiet s
      → SimAt Any m n s (after_op rest flow s)
  after_op-Sim rest h flow s calm q = h s q

  -- an operation outside simulation mode
  real-Sim :
      {m n : ℕ} {vm : Vm F D S J} {o : Outcome (Vm F D S J) Flow} (o' : Outcome (Vm F D S J) Flow)
      (b b' : Bool)
      → b ≡ false
      → SimAt Calm m n vm o
      → SimAt Calm m n vm (branch (b && b') o' o)
  real-Sim o' true b' e h = absurd (cc)
  real-Sim o' false b' e h = h

  -- the jump at the end of a block
  jump-Sim :
      {A : Type 0} {P : A → Type 0} {m n target : ℕ} {vm : Vm F D S J} {o : Outcome (Vm F D S J) A}
      → get_elem? all n ≡ some (jump target)
      → SimAt P m target vm o
      → SimAt P m n vm o
  unfolding execute_instruction
  jump-Sim g h = prefix-Sim H G debug program (step (jump _) g refl here) h

  -- the end of the first branch of an `If`, over the second branch
  skip-Reaches :
      (else_ : OptionOps F D) (n : ℕ) (s : Vm F D S J)
      → Holds all n (code_else N else_ n)
      → Reaches H debug program (n + size_else else_) s n s
  unfolding code size execute_instruction
  skip-Reaches no_block n s h = rw (sym (plus_zero n)) here
  skip-Reaches (block ops) n s h = step (jump _) h.0 refl (rw (plus_suc n (size ops)) here)

  extend-Sim :
      {m k n : ℕ} {vm : Vm F D S J} {o : Outcome (Vm F D S J) (Unit {0})}
      → SimAt Any k n vm o
      → ((s : Vm F D S J) → Reaches H debug program m s k s)
      → SimAt Any m n vm o
  extend-Sim starved h = starved
  extend-Sim (ended (reaches {s} p q r)) h =
      ended (reaches tt q (Reaches-trans H debug program r (h s)))
  extend-Sim (ended (fails r)) h = ended (fails r)

  mutual
    unfolding execute Compiled code size Leaf.leaf_op

    pub execute-Sim :
        (f n : ℕ) (ops : Ops F D) (vm : Vm F D S J)
        → Compiled ops
        → Holds all n (code N ops n)
        → Quiet vm
        → SimAt Any (n + size ops) n vm (execute H G f ops vm)
    execute-Sim zero n ops vm c h q = starved
    execute-Sim (suc f) n ops vm c h q = execute_ops-Sim f n ops vm c h q

    execute_ops-Sim :
        (f n : ℕ) (ops : Ops F D) (vm : Vm F D S J)
        → Compiled ops
        → Holds all n (code N ops n)
        → Quiet vm
        → SimAt Any (n + size ops) n vm (execute_ops H G f no_control ops vm)
    execute_ops-Sim zero n ops vm c h q = starved
    execute_ops-Sim (suc f) n end vm c h q = at_same (plus_zero n) (ended (reaches tt q here))
    execute_ops-Sim (suc f) n (op ⨾ ops) vm c h q =
        let (h₁, h₂) = Holds-append all n (code_op N op n) (code N ops (n + size_op op)) h in
        let rest = rw (length-code_op N op n) at h₂ in
        let explained_same : explained H G op vm ≡ vm = rw (q.0) refl in
        rw (explained_same) (
          then_run-Sim H G debug program _ (execute_op-Sim f n op vm c.0 h₁ q) (
            after_op-Sim _ (λ s r.
              at_same (sym (plus_assoc n (size_op op) (size ops)))
                (execute_ops-Sim f (n + size_op op) ops s c.1 rest r))))

    execute_op-Sim :
        (f n : ℕ) (op : Op F D) (vm : Vm F D S J)
        → CompiledOp op
        → Holds all n (code_op N op n)
        → Quiet vm
        → SimAt Calm (n + size_op op) n vm (execute_op H G f no_control op vm)
    execute_op-Sim zero n op vm c h q = starved
    execute_op-Sim (suc f) n op vm c h q =
        real-Sim _ vm.simulation_mode (is_simulated H G op) q.1 (run_op-Sim f n op vm c h q)

    run_op-Sim :
        (f n : ℕ) (op : Op F D) (vm : Vm F D S J)
        → CompiledOp op
        → Holds all n (code_op N op n)
        → Quiet vm
        → SimAt Calm (n + size_op op) n vm (run_op H G f no_control op vm)
    run_op-Sim zero n op vm c h q = starved
    run_op-Sim (suc f) n (if_op condition then_ else_) vm c h q =
        let (h₁, g, h₂, h₃) =
          Holds-joined all n (code N condition n) (code N then_ _) (code_else N else_ _) _
            (length-code N condition n) (length-code N then_ _) h in
        keep-Sim (
          then_run-Sim H G debug program _ (execute-Sim f n condition vm c.0 h₁ q) (λ u s p r.
            pop-Sim H G debug program s.stack s _ _ g r
              (λ t k.
                at_same (if_end n (size condition) (size then_) (size_else else_))
                  (execute_block-Sim f _ else_ t c.2 h₃ k))
              (λ t k.
                at_same (if_end n (size condition) (size then_) (size_else else_)) (
                  extend-Sim (execute-Sim f _ then_ t c.1 h₂ k) (λ x. skip-Reaches else_ _ x h₃)))))
    run_op-Sim (suc f) n (while_op condition body) vm c h q =
        loop-Sim (run_while-Sim f n condition body vm c.0 c.1 h q)
    run_op-Sim (suc f) n (loop_op count body) vm c h q =
        loop-Sim (run_loop-Sim f n count body vm c.1 h q)
    run_op-Sim (suc f) n (call _) vm c h q = elim c [ ]
    run_op-Sim (suc f) n (match_op _ _ _) vm c h q = elim c [ ]
    run_op-Sim (suc f) n return_op vm c h q = elim c [ ]
    run_op-Sim (suc f) n break_op vm c h q = elim c [ ]
    run_op-Sim (suc f) n continue_op vm c h q = elim c [ ]
    run_op-Sim (suc f) n op vm c h q =
        at_same (sym (plus_one n)) (direct-Sim H G debug program op vm c h.0 q)

    execute_block-Sim :
        (f n : ℕ) (ops : OptionOps F D) (vm : Vm F D S J)
        → CompiledOption ops
        → Holds all n (code_else N ops n)
        → Quiet vm
        → SimAt Any (n + size_else ops) (else_start n ops) vm (execute_block H G f ops vm)
    execute_block-Sim zero n ops vm c h q = starved
    execute_block-Sim (suc f) n no_block vm c h q =
        at_same (plus_zero n) (ended (reaches tt q here))
    execute_block-Sim (suc f) n (block ops) vm c h q =
        at_same (sym (plus_suc n (size ops))) (execute-Sim f (suc n) ops vm c h.1 q)

    run_loop-Sim :
        (f n count : ℕ) (body : Ops F D) (vm : Vm F D S J)
        → Compiled body
        → Holds all n (rounds count (size body) (code N body) n)
        → Quiet vm
        → SimAt Idle (n + times count (size body)) n vm (run_loop H G f no_control count body vm)
    run_loop-Sim zero n count body vm c h q = starved
    run_loop-Sim (suc f) n zero body vm c h q = at_same (plus_zero n) (ended (reaches idle q here))
    run_loop-Sim (suc f) n (suc count) body vm c h q =
        let (h₁, h₂) =
          Holds-append all n (code N body n)
            (rounds count (size body) (code N body) (n + size body)) h in
        let rest = rw (length-code N body n) at h₂ in
        then_run-Sim H G debug program _ (execute-Sim f n body vm c h₁ q) (λ u s p r.
          at_same (sym (plus_assoc n (size body) (times count (size body))))
            (run_loop-Sim f (n + size body) count body s c rest r))

    run_while-Sim :
        (f n : ℕ) (condition body : Ops F D) (vm : Vm F D S J)
        → Compiled condition
        → Compiled body
        → Holds all n (code_op N (while_op condition body) n)
        → Quiet vm
        → SimAt Idle
            (n + size_op (while_op condition body))
            n
            vm
            (run_while H G f no_control condition body vm)
    run_while-Sim zero n condition body vm c b h q = starved
    run_while-Sim (suc f) n condition body vm c b h q =
        let (h₁, g, h₂, h₃) =
          Holds-joined all n (code N condition n) (code N body _) (jump n ∷ []) _
            (length-code N condition n) (length-code N body _) h in
        then_run-Sim H G debug program _ (execute-Sim f n condition vm c h₁ q) (λ u s p r.
          pop-Sim H G debug program s.stack s _ _ g r
            (λ t k.
              at_same (while_end n (size condition) (size body)) (ended (reaches idle k here)))
            (λ t k.
              then_run-Sim H G debug program _ (execute-Sim f _ body t b h₂ k)
                (λ w x y z. jump-Sim h₃.0 (run_while-Sim f n condition body x c b h z))))
