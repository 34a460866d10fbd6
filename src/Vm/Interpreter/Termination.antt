-- ===== src/Vm/Interpreter/Termination.antt =====
-- Blocks without `While` and `Call`: what they cost the interpreter.
use icn_covm.Prelude.{
  ℕ, zero, suc, ◌≤◌, ◌+◌, ◌≡◌, refl, Bool, true, false, ◌&&◌, some, is_some, if◌then◌else◌, arith,
}
use icn_covm.Prelude.Actions.{Result, ok, err}
use icn_covm.Vm.Error.{VmError}
use icn_covm.Vm.Values.{Floats, TypedValue, is_falsey, equals}
use icn_covm.Vm.Types.{
  Op, Ops, end, ◌⨾◌, OptionOps, no_block, block, Cases, no_cases, case, LoopControl, no_control,
  break, continue, if_op, loop_op, while_op, call, match_op,
}
use icn_covm.Vm.Execution.{Host}
use icn_covm.Vm.Machine.{Vm, Handlers}
use icn_covm.Vm.Machine.Leaf.{Flow, go, stop, is_simulated, or_false}
use icn_covm.Vm.Interpreter.{
  Outcome, then_run, branch, after_body, after_op, resume, explained, execute, execute_ops,
  execute_op, run_op, execute_block, run_loop, select_case, is_true,
}

unfoldable mutual
  -- the fuel that a block needs, where it has no `While` and no `Call`
  pub cost_ops : {F D : Type 0} → Ops F D → ℕ
  cost_ops end = 1
  cost_ops (op ⨾ ops) = suc (cost_op op + cost_ops ops)

  pub cost_op : {F D : Type 0} → Op F D → ℕ
  cost_op (if_op condition then_ else_) =
      3 + (cost_ops condition + (cost_ops then_ + cost_option else_))
  cost_op (loop_op count body) = 4 + (count + cost_ops body)
  cost_op (match_op value cases default) =
      3 + (cost_ops value + (cost_cases cases + cost_option default))
  cost_op op = 2

  pub cost_option : {F D : Type 0} → OptionOps F D → ℕ
  cost_option no_block = 1
  cost_option (block ops) = 2 + cost_ops ops

  pub cost_cases : {F D : Type 0} → Cases F D → ℕ
  cost_cases no_cases = 0
  cost_cases (case w body rest) = 2 + (cost_ops body + cost_cases rest)

-- Blocks in which no `While` and no `Call` stands, at any depth.
unfoldable mutual
  pub Bounded : {F D : Type 0} → Ops F D → Type 0
  Bounded end = Unit
  Bounded (op ⨾ ops) = BoundedOp op × Bounded ops

  pub BoundedOp : {F D : Type 0} → Op F D → Type 0
  BoundedOp (if_op condition then_ else_) = Bounded condition × Bounded then_ × BoundedOption else_
  BoundedOp (loop_op count body) = Bounded body
  BoundedOp (match_op value cases default) =
      Bounded value × BoundedCases cases × BoundedOption default
  BoundedOp (while_op _ _) = ⊥
  BoundedOp (call _) = ⊥
  BoundedOp op = Unit

  pub BoundedOption : {F D : Type 0} → OptionOps F D → Type 0
  BoundedOption no_block = Unit
  BoundedOption (block ops) = Bounded ops

  pub BoundedCases : {F D : Type 0} → Cases F D → Type 0
  BoundedCases no_cases = Unit
  BoundedCases (case w body rest) = Bounded body × BoundedCases rest

data Ends {S A : Type 0} : Outcome S A → Type 0 where
  ended : {r : Result VmError A × S} → Ends (some r)

Ends-is_some : {S A : Type 0} {o : Outcome S A} → Ends o → is_some o ≡ true
Ends-is_some ended = refl

resume-Ends :
    {S A B : Type 0} (r : Result VmError A) (s : S) {k : A → S → Outcome S B}
    → ((a : A) (s : S) → Ends (k a s))
    → Ends (resume r s k)
resume-Ends (ok a) s h = h a s
resume-Ends (err e) s h = ended

then_run-Ends :
    {S A B : Type 0} {o : Outcome S A} {k : A → S → Outcome S B}
    → Ends o
    → ((a : A) (s : S) → Ends (k a s))
    → Ends (then_run o k)
then_run-Ends (ended {r = (r, s)}) h = resume-Ends r s h

branch-Ends : {S A : Type 0} (b : Bool) {o p : Outcome S A} → Ends o → Ends p → Ends (branch b o p)
branch-Ends true h k = h
branch-Ends false h k = k

after_body-Ends :
    {S : Type 0} {again : LoopControl → S → Outcome S LoopControl}
    → ((c : LoopControl) (s : S) → Ends (again c s))
    → (c : LoopControl) (s : S) → Ends (after_body again c s)
after_body-Ends h break s = ended
after_body-Ends h continue s = h no_control s
after_body-Ends h no_control s = h no_control s

after_op-Ends :
    {S : Type 0} {rest : LoopControl → S → Outcome S (Unit {0})}
    → ((c : LoopControl) (s : S) → Ends (rest c s))
    → (flow : Flow) (s : S) → Ends (after_op rest flow s)
after_op-Ends h (go c) s = h c s
after_op-Ends h stop s = ended

cost_op-bound : {F D : Type 0} (op : Op F D) → 2 ≤ cost_op op
unfolding cost_ops
cost_op-bound (if_op _ _ _) = omega arith
cost_op-bound (loop_op _ _) = omega arith
cost_op-bound (match_op _ _ _) = omega arith
cost_op-bound _ = omega arith

cost_op-positive : {F D : Type 0} (op : Op F D) → cost_op op ≤ 1 → ⊥
cost_op-positive op h = omega (arith, cost_op-bound op)

-- one of two blocks, within a bound on both
either-BoundedOption :
    {F D : Type 0} (t : Bool) (body : Ops F D) (other : OptionOps F D) (n : ℕ)
    → Bounded body
    → BoundedOption other
    → cost_ops body + 2 ≤ n
    → cost_option other ≤ n
    → BoundedOption (if t then block body else other)
      × (cost_option (if t then block body else other) ≤ n)
unfolding Bounded cost_ops
either-BoundedOption true body other n b d h k = (b, omega arith)
either-BoundedOption false body other n b d h k = (d, k)

module _ {N : Floats} (H : Host N) (G : Handlers N.F H.D H.S H.J) where
  open N use {F}
  open H use {S, J, D}

  -- what is selected was one of the cases, or the default
  selected-BoundedOption :
      (v : TypedValue F) (cases : Cases F D) (default : OptionOps F D)
      → BoundedCases cases
      → BoundedOption default
      → BoundedOption (select_case H G v cases default)
        × (cost_option (select_case H G v cases default) ≤ cost_cases cases + cost_option default)
  unfolding cost_ops Bounded
  selected-BoundedOption v no_cases default b d = (d, omega arith)
  selected-BoundedOption v (case w body rest) default b d =
      let (ih, ih_cost) = selected-BoundedOption v rest default b.1 d in
      either-BoundedOption (is_true (or_false (equals N v w))) body (select_case H G v rest default)
        _ b.0 ih (omega arith) (omega arith)

  mutual
    unfolding execute cost_ops Bounded

    execute-Ends :
        (f : ℕ) (ops : Ops F D)
        → suc (cost_ops ops) ≤ f
        → Bounded ops
        → (vm : Vm F D S J) → Ends (execute H G f ops vm)
    execute-Ends zero ops h b vm = absurd (omega arith)
    execute-Ends (suc f) ops h b vm = execute_ops-Ends f no_control ops (omega arith) b vm

    execute_ops-Ends :
        (f : ℕ) (c : LoopControl) (ops : Ops F D)
        → cost_ops ops ≤ f
        → Bounded ops
        → (vm : Vm F D S J) → Ends (execute_ops H G f c ops vm)
    execute_ops-Ends zero c end h b vm = absurd (omega arith)
    execute_ops-Ends zero c (op ⨾ ops) h b vm = absurd (omega arith)
    execute_ops-Ends (suc f) c end h b vm = ended
    execute_ops-Ends (suc f) c (op ⨾ ops) h b vm =
        then_run-Ends (execute_op-Ends f c op (omega arith) b.0 (explained H G op vm))
          (after_op-Ends (λ c' s. execute_ops-Ends f c' ops (omega arith) b.1 s))

    execute_op-Ends :
        (f : ℕ) (c : LoopControl) (op : Op F D)
        → cost_op op ≤ f
        → BoundedOp op
        → (vm : Vm F D S J) → Ends (execute_op H G f c op vm)
    execute_op-Ends zero c op h b vm = absurd (cost_op-positive op (omega arith))
    execute_op-Ends (suc f) c op h b vm =
        branch-Ends (vm.simulation_mode && is_simulated H G op) (then_run-Ends ended (λ u s. ended))
          (run_op-Ends f c op h b vm)

    run_op-Ends :
        (f : ℕ) (c : LoopControl) (op : Op F D)
        → cost_op op ≤ suc f
        → BoundedOp op
        → (vm : Vm F D S J) → Ends (run_op H G f c op vm)
    run_op-Ends zero c op h b vm = absurd (cost_op-positive op h)
    run_op-Ends (suc f) c (if_op condition then_ else_) h (b, b₁, b₂) vm =
        then_run-Ends
          (then_run-Ends (execute-Ends f condition (omega arith) b vm) (λ u s.
            resume-Ends _ _ (λ v t.
              branch-Ends (is_falsey N v) (execute_block-Ends f else_ (omega arith) b₂ t)
                (execute-Ends f then_ (omega arith) b₁ t))))
          (λ u s. ended)
    run_op-Ends (suc f) c (loop_op count body) h b vm =
        then_run-Ends (run_loop-Ends f c count body (omega arith) b vm) (λ c' s. ended)
    run_op-Ends (suc f) c (match_op value cases default) h (b, b₁, b₂) vm =
        then_run-Ends
          (then_run-Ends (execute-Ends f value (omega arith) b vm) (λ u s. resume-Ends _ _ (λ v t.
            let (bounded, cost) = selected-BoundedOption v cases default b₁ b₂ in
            execute_block-Ends f (select_case H G v cases default) (omega arith) bounded t)))
          (λ u s. ended)
    run_op-Ends (suc f) c (while_op _ _) h b vm = elim b [ ]
    run_op-Ends (suc f) c (call _) h b vm = elim b [ ]
    run_op-Ends (suc f) c _ h b vm = ended

    execute_block-Ends :
        (f : ℕ) (ops : OptionOps F D)
        → cost_option ops ≤ f
        → BoundedOption ops
        → (vm : Vm F D S J) → Ends (execute_block H G f ops vm)
    execute_block-Ends zero no_block h b vm = absurd (omega arith)
    execute_block-Ends zero (block ops) h b vm = absurd (omega arith)
    execute_block-Ends (suc f) no_block h b vm = ended
    execute_block-Ends (suc f) (block ops) h b vm = execute-Ends f ops (omega arith) b vm

    run_loop-Ends :
        (f : ℕ) (c : LoopControl) (n : ℕ) (body : Ops F D)
        → 2 + (n + cost_ops body) ≤ f
        → Bounded body
        → (vm : Vm F D S J) → Ends (run_loop H G f c n body vm)
    run_loop-Ends zero c n body h b vm = absurd (omega arith)
    run_loop-Ends (suc f) c zero body h b vm = ended
    run_loop-Ends (suc f) c (suc n) body h b vm =
        then_run-Ends (execute-Ends f body (omega arith) b vm)
          (λ u. after_body-Ends (λ c' s. run_loop-Ends f c' n body (omega arith) b s) c)

  -- A block without `While` and `Call`, at any depth, ends with a result or an error from every
  -- state, and the fuel that `cost_ops` counts is enough.
  pub execute-Bounded :
      (ops : Ops F D) (vm : Vm F D S J)
      → Bounded ops
      → is_some (execute H G (suc (cost_ops ops)) ops vm) ≡ true
  execute-Bounded ops vm b = Ends-is_some (execute-Ends (suc (cost_ops ops)) ops (omega arith) b vm)
