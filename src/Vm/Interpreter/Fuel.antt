-- ===== src/Vm/Interpreter/Fuel.antt =====
-- The fuel of the interpreter.
use icn_covm.Prelude.{ℕ, zero, suc, ◌≤◌, ◌≡◌, Bool, true, false, ◌&&◌, none, some, Text, arith}
use icn_covm.Prelude.Actions.{Result, ok, err}
use icn_covm.Vm.Error.{VmError}
use icn_covm.Vm.Values.{Floats, is_falsey}
use icn_covm.Vm.Types.{
  Op, Ops, end, ◌⨾◌, OptionOps, no_block, block, LoopControl, no_control, break, continue, if_op,
  loop_op, while_op, call, match_op,
}
use icn_covm.Vm.Execution.{Host}
use icn_covm.Vm.Machine.{Vm, Handlers}
use icn_covm.Vm.Machine.Leaf.{Flow, go, stop, is_simulated}
use icn_covm.Vm.Interpreter.{
  Outcome, then_run, branch, after_body, after_op, keep, resume, explained, execute, execute_ops,
  execute_op, run_op, execute_block, run_loop, run_while, execute_call, select_case,
}

-- The right outcome is the left one, if the left one did not run out of fuel.
infix 50 ◌≼◌
data ◌≼◌ {S A : Type 0} : Outcome S A → Outcome S A → Type 0 where
  ran_out : {o : Outcome S A} → none ≼ o
  equal : {o : Outcome S A} → o ≼ o

module _ {S A B : Type 0} where
  resume-≼ :
      (r : Result VmError A) (s : S) {k k' : A → S → Outcome S B}
      → ((a : A) (s : S) → k a s ≼ k' a s)
      → resume r s k ≼ resume r s k'
  resume-≼ (ok a) s h = h a s
  resume-≼ (err e) s h = equal

  then_run-≼ :
      {o o' : Outcome S A} {k k' : A → S → Outcome S B}
      → o ≼ o'
      → ((a : A) (s : S) → k a s ≼ k' a s)
      → then_run o k ≼ then_run o' k'
  then_run-≼ ran_out h = ran_out
  then_run-≼ (equal {o = none}) h = ran_out
  then_run-≼ (equal {o = some (r, s)}) h = resume-≼ r s h

branch-≼ :
    {S A : Type 0} (b : Bool) {o o' p p' : Outcome S A}
    → o ≼ o'
    → p ≼ p'
    → branch b o p ≼ branch b o' p'
branch-≼ true h k = h
branch-≼ false h k = k

after_body-≼ :
    {S : Type 0} {again again' : LoopControl → S → Outcome S LoopControl}
    → ((c : LoopControl) (s : S) → again c s ≼ again' c s)
    → (c : LoopControl) (s : S) → after_body again c s ≼ after_body again' c s
after_body-≼ h break s = equal
after_body-≼ h continue s = h no_control s
after_body-≼ h no_control s = h no_control s

after_op-≼ :
    {S : Type 0} {rest rest' : LoopControl → S → Outcome S (Unit {0})}
    → ((c : LoopControl) (s : S) → rest c s ≼ rest' c s)
    → (flow : Flow) (s : S) → after_op rest flow s ≼ after_op rest' flow s
after_op-≼ h (go c) s = h c s
after_op-≼ h stop s = equal

keep-≼ :
    {S : Type 0} (c : LoopControl) {o o' : Outcome S (Unit {0})} → o ≼ o' → keep c o ≼ keep c o'
keep-≼ c h = then_run-≼ h (λ u s. equal)

module _ {N : Floats} (H : Host N) (G : Handlers N.F H.D H.S H.J) where
  open N use {F}
  open H use {S, J, D}

  mutual
    unfolding execute

    execute-≼ :
        (f g : ℕ)
        → f ≤ g
        → (ops : Ops F D) (vm : Vm F D S J) → execute H G f ops vm ≼ execute H G g ops vm
    execute-≼ zero g h ops vm = ran_out
    execute-≼ (suc f) zero h ops vm = absurd (omega arith)
    execute-≼ (suc f) (suc g) h ops vm = execute_ops-≼ f g (omega arith) no_control ops vm

    execute_ops-≼ :
        (f g : ℕ)
        → f ≤ g
        → (c : LoopControl) (ops : Ops F D) (vm : Vm F D S J)
        → execute_ops H G f c ops vm ≼ execute_ops H G g c ops vm
    execute_ops-≼ zero g h c ops vm = ran_out
    execute_ops-≼ (suc f) zero h c ops vm = absurd (omega arith)
    execute_ops-≼ (suc f) (suc g) h c end vm = equal
    execute_ops-≼ (suc f) (suc g) h c (op ⨾ ops) vm =
        then_run-≼ (execute_op-≼ f g (omega arith) c op (explained H G op vm))
          (after_op-≼ (λ c' s. execute_ops-≼ f g (omega arith) c' ops s))

    execute_op-≼ :
        (f g : ℕ)
        → f ≤ g
        → (c : LoopControl) (op : Op F D) (vm : Vm F D S J)
        → execute_op H G f c op vm ≼ execute_op H G g c op vm
    execute_op-≼ zero g h c op vm = ran_out
    execute_op-≼ (suc f) zero h c op vm = absurd (omega arith)
    execute_op-≼ (suc f) (suc g) h c op vm =
        branch-≼ (vm.simulation_mode && is_simulated H G op) equal
          (run_op-≼ f g (omega arith) c op vm)

    run_op-≼ :
        (f g : ℕ)
        → f ≤ g
        → (c : LoopControl) (op : Op F D) (vm : Vm F D S J)
        → run_op H G f c op vm ≼ run_op H G g c op vm
    run_op-≼ zero g h c op vm = ran_out
    run_op-≼ (suc f) zero h c op vm = absurd (omega arith)
    run_op-≼ (suc f) (suc g) h c (if_op condition then_ else_) vm = keep-≼ c (
        then_run-≼ (execute-≼ f g (omega arith) condition vm) (λ u s. resume-≼ _ _ (λ v t.
          branch-≼ (is_falsey N v) (execute_block-≼ f g (omega arith) else_ t)
            (execute-≼ f g (omega arith) then_ t))))
    run_op-≼ (suc f) (suc g) h c (loop_op count body) vm =
        then_run-≼ (run_loop-≼ f g (omega arith) c count body vm) (λ c' s. equal)
    run_op-≼ (suc f) (suc g) h c (while_op condition body) vm =
        then_run-≼ (run_while-≼ f g (omega arith) c condition body vm) (λ c' s. equal)
    run_op-≼ (suc f) (suc g) h c (call name) vm =
        keep-≼ c (execute_call-≼ f g (omega arith) name vm)
    run_op-≼ (suc f) (suc g) h c (match_op value cases default) vm = keep-≼ c (
        then_run-≼ (execute-≼ f g (omega arith) value vm) (λ u s.
          resume-≼ _ _
            (λ v t. execute_block-≼ f g (omega arith) (select_case H G v cases default) t)))
    run_op-≼ (suc f) (suc g) h c _ vm = equal

    execute_block-≼ :
        (f g : ℕ)
        → f ≤ g
        → (ops : OptionOps F D) (vm : Vm F D S J)
        → execute_block H G f ops vm ≼ execute_block H G g ops vm
    execute_block-≼ zero g h ops vm = ran_out
    execute_block-≼ (suc f) zero h ops vm = absurd (omega arith)
    execute_block-≼ (suc f) (suc g) h no_block vm = equal
    execute_block-≼ (suc f) (suc g) h (block ops) vm = execute-≼ f g (omega arith) ops vm

    run_loop-≼ :
        (f g : ℕ)
        → f ≤ g
        → (c : LoopControl) (n : ℕ) (body : Ops F D) (vm : Vm F D S J)
        → run_loop H G f c n body vm ≼ run_loop H G g c n body vm
    run_loop-≼ zero g h c n body vm = ran_out
    run_loop-≼ (suc f) zero h c n body vm = absurd (omega arith)
    run_loop-≼ (suc f) (suc g) h c zero body vm = equal
    run_loop-≼ (suc f) (suc g) h c (suc n) body vm =
        then_run-≼ (execute-≼ f g (omega arith) body vm)
          (λ u. after_body-≼ (λ c' s. run_loop-≼ f g (omega arith) c' n body s) c)

    run_while-≼ :
        (f g : ℕ)
        → f ≤ g
        → (c : LoopControl) (condition body : Ops F D) (vm : Vm F D S J)
        → run_while H G f c condition body vm ≼ run_while H G g c condition body vm
    run_while-≼ zero g h c condition body vm = ran_out
    run_while-≼ (suc f) zero h c condition body vm = absurd (omega arith)
    run_while-≼ (suc f) (suc g) h c condition body vm =
        then_run-≼ (execute-≼ f g (omega arith) condition vm) (λ u s. resume-≼ _ _ (λ v t.
          branch-≼ (is_falsey N v) equal (
            then_run-≼ (execute-≼ f g (omega arith) body t)
              (λ w. after_body-≼ (λ c' r. run_while-≼ f g (omega arith) c' condition body r) c))))

    execute_call-≼ :
        (f g : ℕ)
        → f ≤ g
        → (name : Text) (vm : Vm F D S J) → execute_call H G f name vm ≼ execute_call H G g name vm
    execute_call-≼ zero g h name vm = ran_out
    execute_call-≼ (suc f) zero h name vm = absurd (omega arith)
    execute_call-≼ (suc f) (suc g) h name vm =
        resume-≼ _ _ (λ ops s. then_run-≼ (execute-≼ f g (omega arith) ops s) (λ u t. equal))

≼-some :
    {S A : Type 0} {o o' : Outcome S A} {r : Result VmError A × S}
    → o ≼ o'
    → o ≡ some r
    → o' ≡ some r
≼-some ran_out p = cc
≼-some equal p = p

module _ {N : Floats} (H : Host N) (G : Handlers N.F H.D H.S H.J) where
  open N use {F}
  open H use {S, J, D}

  -- A block that ends on some fuel, with a result or an error, ends in the same way on any more.
  pub execute_mono :
      (f g : ℕ) (ops : Ops F D) (vm : Vm F D S J) (r : Result VmError (Unit {0}) × Vm F D S J)
      → f ≤ g
      → execute H G f ops vm ≡ some r
      → execute H G g ops vm ≡ some r
  execute_mono f g ops vm r h = ≼-some (execute-≼ H G f g h ops vm)
