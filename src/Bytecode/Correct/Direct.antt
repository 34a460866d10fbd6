-- ===== src/Bytecode/Correct/Direct.antt =====
-- One operation and its one instruction.
use icn_covm.Prelude.{
  ℕ, suc, ◌≡◌, refl, ◌∙◌, Bool, true, false, none, some, [], ◌∷◌, Text, get_elem?,
}
use icn_covm.Prelude.Actions
use icn_covm.Prelude.Actions.{Result, ok, err, Action, ◌>>◌}
use icn_covm.Vm.Error.{VmError}
use icn_covm.Vm.Values.{Floats, is_falsey}
use icn_covm.Vm.Types.{
  Op, no_control, push, add, sub, mul, div, modulo, store, load, emit, pop, eq, gt, lt, not_op,
  and_op, or_op, dup, swap, nop, emit_event, create_resource, mint, transfer, burn, balance,
}
use icn_covm.Vm.Stack
use icn_covm.Vm.Stack.{VmStack}
use icn_covm.Vm.Execution.{Host}
use icn_covm.Vm.Machine.{Vm, Handlers, on_stack}
use icn_covm.Vm.Machine.Leaf.{Flow, go, plain_op, or_governance}
use icn_covm.Vm.Interpreter.{Outcome, then_run, first, branch}
use icn_covm.Vm.Interpreter.Calls.Frames.{Framed, After, succeeded, failed}
use icn_covm.Vm.Interpreter.Calls.Leaves.{plain_op-Keeps, PlainKeeps}
use icn_covm.Bytecode.{BytecodeOp, BytecodeProgram, jump_if_zero}
use icn_covm.Bytecode.Compiler.{instruction}
use icn_covm.Bytecode.Code.{IsDirect}
use icn_covm.Bytecode.Interpreter.{execute_instruction, then_next, next, jump_if}
use icn_covm.Bytecode.Steps.{state, Reaches, here, step, Fails, now, Reaches-trans, Reaches-Fails}

-- Operations are neither explained nor simulated, and storage is not traced.
abbrev pub Quiet : {F D S J : Type 0} → Vm F D S J → Type 0
Quiet vm =
    (vm.explain_enabled ≡ false) × (vm.simulation_mode ≡ false) × (vm.verbose_storage_trace ≡ false)

Framed-Quiet : {F D S J : Type 0} (vm s : Vm F D S J) → Framed vm s → Quiet vm → Quiet s
Framed-Quiet vm s f q = (f.1 ∙ q.0, f.2 ∙ q.1, f.3 ∙ q.2)

-- The block goes on, and no loop control is set.
pub data Calm : Flow → Type 0 where
  calm : Calm (go no_control)

module _ {N : Floats} (H : Host N) (G : Handlers N.F H.D H.S H.J)
    (debug : BytecodeOp N.F H.D → Text) (program : BytecodeProgram N.F H.D) where
  open N use {F}
  open H use {S, J, D}

  -- From position `n` the bytecode does what the machine did: it comes to position `m` with the
  -- machine's state, or fails with the machine's error and state.
  pub data Follows {A : Type 0} (P : A → Type 0) (m n : ℕ) (vm : Vm F D S J)
      : Result VmError A × Vm F D S J → Type 0 where
    reaches :
        {a : A} {s : Vm F D S J}
        → P a
        → Quiet s
        → Reaches H debug program m s n vm
        → Follows P m n vm (ok a, s)
    fails :
        {e : VmError} {s : Vm F D S J}
        → Fails H debug program e s n vm
        → Follows P m n vm (err e, s)

  pub data Sim {A : Type 0} (P : A → Type 0) (m n : ℕ) (vm : Vm F D S J)
      : Outcome (Vm F D S J) A → Type 0 where
    starved : Sim P m n vm none
    ended : {p : Result VmError A × Vm F D S J} → Follows P m n vm p → Sim P m n vm (some p)

  pub prefix-Sim :
      {A : Type 0} {P : A → Type 0} {m n k : ℕ} {vm s : Vm F D S J} {o : Outcome (Vm F D S J) A}
      → Reaches H debug program k s n vm
      → Sim P m k s o
      → Sim P m n vm o
  prefix-Sim r starved = starved
  prefix-Sim r (ended (reaches p q t)) = ended (reaches p q (Reaches-trans H debug program r t))
  prefix-Sim r (ended (fails t)) = ended (fails (Reaches-Fails H debug program r t))

  pub then_run-Sim :
      {A B : Type 0} {P : A → Type 0} {Q : B → Type 0} {m n k : ℕ} {vm : Vm F D S J}
      {o : Outcome (Vm F D S J) A} (K : A → Vm F D S J → Outcome (Vm F D S J) B)
      → Sim P k n vm o
      → ((a : A) (s : Vm F D S J) → P a → Quiet s → Sim Q m k s (K a s))
      → Sim Q m n vm (then_run o K)
  then_run-Sim K starved h = starved
  then_run-Sim K (ended (reaches {a} {s} p q r)) h = prefix-Sim r (h a s p q)
  then_run-Sim K (ended (fails t)) h = ended (fails t)

  after_jump :
      {A : Type 0} {P : A → Type 0} {m n target : ℕ} {vm : Vm F D S J} (b : Bool) (s : Vm F D S J)
      {other taken : Vm F D S J → Outcome (Vm F D S J) A}
      → get_elem? program.instructions n ≡ some (jump_if_zero target)
      → execute_instruction H debug (jump_if_zero target) (state H debug program n vm)
        ≡ jump_if H debug target b (state H debug program n s)
      → Quiet s
      → ((t : Vm F D S J) → Quiet t → Sim P m target t (other t))
      → ((t : Vm F D S J) → Quiet t → Sim P m (suc n) t (taken t))
      → Sim P m n vm (branch b (other s) (taken s))
  after_jump true s g e q h k = prefix-Sim (step (jump_if_zero _) g e here) (h s q)
  after_jump false s g e q h k = prefix-Sim (step (jump_if_zero _) g e here) (k s q)

  -- a conditional jump on the value that the machine pops
  pub pop-Sim :
      {A : Type 0} {P : A → Type 0} {m n target : ℕ} (stack : VmStack F) (vm : Vm F D S J)
      (other taken : Vm F D S J → Outcome (Vm F D S J) A)
      → get_elem? program.instructions n ≡ some (jump_if_zero target)
      → Quiet vm
      → ((t : Vm F D S J) → Quiet t → Sim P m target t (other t))
      → ((t : Vm F D S J) → Quiet t → Sim P m (suc n) t (taken t))
      → Sim P m n
          (record vm { stack = stack })
          (first
            (on_stack Stack.pop)
            (λ v s. branch (is_falsey N v) (other s) (taken s))
            (record vm { stack = stack }))
  unfolding Stack.pop execute_instruction
  pop-Sim [] vm other taken g q h k = ended (fails (now (jump_if_zero _) g refl))
  pop-Sim (v ∷ stack) vm other taken g q h k =
      after_jump (is_falsey N v) (record vm { stack = stack }) g refl q h k

  plain-Follows :
      (i : BytecodeOp F D) {n : ℕ} {vm : Vm F D S J} {p : Result VmError (Unit {0}) × Vm F D S J}
      → Quiet vm
      → get_elem? program.instructions n ≡ some i
      → After H vm p
      → execute_instruction H debug i (state H debug program n vm)
        ≡ Actions.resume p.0 (state H debug program n p.1) (λ u. next H debug)
      → Follows Calm (suc n) n vm (Actions.resume p.0 p.1 (λ u. Actions.pure (go no_control)))
  plain-Follows i {vm} q g (succeeded {s} b) e =
      reaches calm (Framed-Quiet vm s b q) (step i g e here)
  plain-Follows i q g failed e = fails (now i g e)

  -- the action of an operation, which its instruction does too
  abbrev Direct : Op F D → Type 0
  Direct op =
      (m : Action (Vm F D S J) VmError (Unit {0})) × (plain_op H G op ≡ some m)
      × ((n : ℕ) (vm : Vm F D S J)
          → execute_instruction H debug (instruction N op) (state H debug program n vm)
            ≡ then_next H debug m (state H debug program n vm))

  pub direct_lem : (op : Op F D) → IsDirect op → Direct op
  unfolding plain_op execute_instruction instruction
  direct_lem (push _) h = (_, refl, λ n vm. refl)
  direct_lem add h = (_, refl, λ n vm. refl)
  direct_lem sub h = (_, refl, λ n vm. refl)
  direct_lem mul h = (_, refl, λ n vm. refl)
  direct_lem div h = (_, refl, λ n vm. refl)
  direct_lem modulo h = (_, refl, λ n vm. refl)
  direct_lem (store _) h = (_, refl, λ n vm. refl)
  direct_lem (load _) h = (_, refl, λ n vm. refl)
  direct_lem (emit _) h = (_, refl, λ n vm. refl)
  direct_lem pop h = (_, refl, λ n vm. refl)
  direct_lem eq h = (_, refl, λ n vm. refl)
  direct_lem gt h = (_, refl, λ n vm. refl)
  direct_lem lt h = (_, refl, λ n vm. refl)
  direct_lem not_op h = (_, refl, λ n vm. refl)
  direct_lem and_op h = (_, refl, λ n vm. refl)
  direct_lem or_op h = (_, refl, λ n vm. refl)
  direct_lem dup h = (_, refl, λ n vm. refl)
  direct_lem swap h = (_, refl, λ n vm. refl)
  direct_lem nop h = (_, refl, λ n vm. refl)
  direct_lem (emit_event _ _) h = (_, refl, λ n vm. refl)
  direct_lem (create_resource _) h = (_, refl, λ n vm. refl)
  direct_lem (mint _ _ _ _) h = (_, refl, λ n vm. refl)
  direct_lem (transfer _ _ _ _ _) h = (_, refl, λ n vm. refl)
  direct_lem (burn _ _ _ _) h = (_, refl, λ n vm. refl)
  direct_lem (balance _ _) h = (_, refl, λ n vm. refl)
  direct_lem _ h = elim h [ ]

  pub direct-Sim :
      (op : Op F D) {n : ℕ} (vm : Vm F D S J)
      → IsDirect op
      → get_elem? program.instructions n ≡ some (instruction N op)
      → Quiet vm
      → Sim Calm (suc n) n vm (some (or_governance H G (plain_op H G op) no_control op vm))
  direct-Sim op {n} vm h g q =
      let (m, e, x) = direct_lem op h in
      let keeps : PlainKeeps H (some m) = rw (e) at (plain_op-Keeps H G op) in
      rw (e) (
        ended (
          plain-Follows (instruction N op) q g (keeps vm vm ((refl, refl), refl, refl, refl))
            (x n vm)))
