-- ===== src/Vm/Interpreter.antt =====
-- vm/vm.rs: `execute_inner`, with the operations that run blocks. A `While` and a recursive function
-- need not end, so the interpreter runs on fuel; each call and each round of a loop spends one unit.
pub mod Fuel
pub mod Loops
pub mod Calls
pub mod Termination
pub mod Tests
use icn_covm.Prelude.{
  ℕ, zero, suc, Bool, true, false, ◌&&◌, Option, none, some, List, [], ◌∷◌, ◌++◌, Text, text, Dict,
  insert, if◌then◌else◌,
}
use icn_covm.Prelude.Actions.{
  Result, ok, err, Action, modify, lift, pure, query, ◌>>=◌, ◌>>◌, ok_or,
}
use icn_covm.Vm.Error.{VmError, context_mismatch}
use icn_covm.Vm.Values.{Floats, TypedValue, boolean, is_falsey, equals}
use icn_covm.Vm.Types.{
  Op, Ops, end, ◌⨾◌, OptionOps, no_block, block, Cases, no_cases, case, LoopControl, no_control,
  break, continue, if_op, loop_op, while_op, call, match_op,
}
use icn_covm.Vm.Memory
use icn_covm.Vm.Memory.{CallFrame}
use icn_covm.Vm.Stack
use icn_covm.Vm.Execution.{Host}
use icn_covm.Vm.Machine
use icn_covm.Vm.Machine.{Vm, Handlers, on_stack, on_memory, emit_text}
use icn_covm.Vm.Machine.Explain.{explain_op}
use icn_covm.Vm.Machine.Leaf.{Flow, go, stop, or_false, leaf_op, is_simulated, simulate}

-- `none`: the fuel ran out
abbrev pub Outcome : Type 0 → Type 0 → Type 0
Outcome S A = Option (Result VmError A × S)

abbrev pub resume : {S A B : Type 0} → Result VmError A → S → (A → S → Outcome S B) → Outcome S B
resume (ok a) s k = k a s
resume (err e) s k = some (err e, s)

abbrev pub then_run : {S A B : Type 0} → Outcome S A → (A → S → Outcome S B) → Outcome S B
then_run none k = none
then_run (some (r, s)) k = resume r s k

-- an action that needs no fuel, and what follows it
abbrev pub first : {S A B : Type 0} → Action S VmError A → (A → S → Outcome S B) → S → Outcome S B
first m k s = resume (m s).0 (m s).1 k

abbrev pub branch : {A : Type 0} → Bool → A → A → A
branch true falsey truthy = falsey
branch false falsey truthy = truthy

-- the loop control that a round of a loop finds, and what the loop does about it
abbrev pub after_body :
    {S : Type 0}
    → (LoopControl → S → Outcome S LoopControl)
    → LoopControl
    → S
    → Outcome S LoopControl
after_body again break s = some (ok no_control, s)
after_body again continue s = again no_control s
after_body again no_control s = again no_control s

abbrev pub after_op :
    {S : Type 0} → (LoopControl → S → Outcome S (Unit {0})) → Flow → S → Outcome S (Unit {0})
after_op rest (go c) s = rest c s
after_op rest stop s = some (ok tt, s)

abbrev pub keep : {S : Type 0} → LoopControl → Outcome S (Unit {0}) → Outcome S Flow
keep c o = then_run o (λ u s. some (ok (go c), s))

abbrev pub no_frame : Text → VmError
no_frame name =
    context_mismatch
      (text "Expected call frame for function '" ++ (name ++ text "' but none found"))

abbrev pub is_true : {F : Type 0} → TypedValue F → Bool
is_true (boolean b) = b
is_true v = false

module _ {N : Floats} (H : Host N) (G : Handlers N.F H.D H.S H.J) where
  open N use {F}
  open H use {S, J, D}

  -- the block of the first case with an equal value, or else the default
  abbrev pub select_case : TypedValue F → Cases F D → OptionOps F D → OptionOps F D
  select_case v no_cases default = default
  select_case v (case w body rest) default =
      if is_true (or_false (equals N v w)) then block body else select_case v rest default

  -- the parameters of a call, popped from the last one on
  abbrev pub pop_params : List Text → Action (Vm F D S J) VmError (Dict (TypedValue F))
  pop_params [] = pure []
  pop_params (name ∷ names) = do
    values ← pop_params names
    value ← on_stack Stack.pop
    pure (insert name value values)

  abbrev pub push_frame : Text → Dict (TypedValue F) → Vm F D S J → Vm F D S J
  push_frame name values vm = record vm {
    memory = (Memory.push_call_frame name values vm.memory).1;
  }

  abbrev pub push_return : Option (TypedValue F) → Action (Vm F D S J) VmError (Unit {0})
  push_return none = pure tt
  push_return (some v) = Machine.push v

  -- the frame that is popped, if any, and its return value
  abbrev pub finish_call :
      Text → Option (CallFrame (TypedValue F)) → Action (Vm F D S J) VmError (Unit {0})
  finish_call name none vm = (err (no_frame name), vm)
  finish_call name (some frame) vm = push_return frame.return_value vm

  abbrev pub leave_call : Text → Action (Vm F D S J) VmError (Unit {0})
  leave_call name vm =
      let (frame, memory) = Memory.pop_call_frame vm.memory in
      finish_call name frame (record vm { memory = memory })

  -- the parameters of a function and the new frame; the body is given back
  abbrev pub enter_function : Text → List Text × Ops F D → Action (Vm F D S J) VmError (Ops F D)
  enter_function name (params, body) = do
    values ← pop_params params
    modify (push_frame name values)
    pure body

  abbrev pub enter_call : Text → Action (Vm F D S J) VmError (Ops F D)
  enter_call name = on_memory (query (Memory.get_function name)) >>= enter_function name

  abbrev pub explained : Op F D → Vm F D S J → Vm F D S J
  explained op vm =
      if vm.explain_enabled then (emit_text (text "[EXPLAIN] " ++ explain_op H op) vm).1 else vm

  unfoldable mutual
    -- `execute_inner`
    pub execute : ℕ → Ops F D → Vm F D S J → Outcome (Vm F D S J) (Unit {0})
    execute zero ops vm = none
    execute (suc f) ops vm = execute_ops f no_control ops vm

    -- the loop over the operations of a block
    pub execute_ops : ℕ → LoopControl → Ops F D → Vm F D S J → Outcome (Vm F D S J) (Unit {0})
    execute_ops zero c ops vm = none
    execute_ops (suc f) c end vm = some (ok tt, vm)
    execute_ops (suc f) c (op ⨾ ops) vm =
        let rest = λ (c' : LoopControl). execute_ops f c' ops in
        then_run (execute_op f c op (explained op vm)) (after_op rest)

    -- one operation, in simulation mode or for real
    pub execute_op : ℕ → LoopControl → Op F D → Vm F D S J → Outcome (Vm F D S J) Flow
    execute_op zero c op vm = none
    execute_op (suc f) c op vm =
        let real = run_op f c op vm in
        branch (vm.simulation_mode && is_simulated H G op) (keep c (some (simulate H G op vm))) real

    pub run_op : ℕ → LoopControl → Op F D → Vm F D S J → Outcome (Vm F D S J) Flow
    run_op zero c op vm = none
    run_op (suc f) c (if_op condition then_ else_) vm =
        let taken = execute f then_ in
        let other = execute_block f else_ in
        keep c (
          then_run (execute f condition vm)
            (λ u. first (on_stack Stack.pop) (λ v s. branch (is_falsey N v) (other s) (taken s))))
    run_op (suc f) c (loop_op count body) vm =
        then_run (run_loop f c count body vm) (λ c' s. some (ok (go c'), s))
    run_op (suc f) c (while_op condition body) vm =
        then_run (run_while f c condition body vm) (λ c' s. some (ok (go c'), s))
    run_op (suc f) c (call name) vm = keep c (execute_call f name vm)
    run_op (suc f) c (match_op value cases default) vm =
        let selected = execute_block f in
        keep c (
          then_run (execute f value vm)
            (λ u. first (on_stack Stack.pop) (λ v. selected (select_case v cases default))))
    run_op (suc f) c op vm = some (leaf_op H G c op vm)

    -- a block that may be missing
    pub execute_block : ℕ → OptionOps F D → Vm F D S J → Outcome (Vm F D S J) (Unit {0})
    execute_block zero ops vm = none
    execute_block (suc f) no_block vm = some (ok tt, vm)
    execute_block (suc f) (block ops) vm = execute f ops vm

    pub run_loop : ℕ → LoopControl → ℕ → Ops F D → Vm F D S J → Outcome (Vm F D S J) LoopControl
    run_loop zero c n body vm = none
    run_loop (suc f) c zero body vm = some (ok c, vm)
    run_loop (suc f) c (suc n) body vm =
        let again = λ (c' : LoopControl). run_loop f c' n body in
        then_run (execute f body vm) (λ u. after_body again c)

    pub run_while :
        ℕ → LoopControl → Ops F D → Ops F D → Vm F D S J → Outcome (Vm F D S J) LoopControl
    run_while zero c condition body vm = none
    run_while (suc f) c condition body vm =
        let again = λ (c' : LoopControl). run_while f c' condition body in
        let round = λ (s : Vm F D S J). then_run (execute f body s) (λ u. after_body again c) in
        then_run (execute f condition vm) (λ u.
          first (on_stack Stack.pop) (λ v s. branch (is_falsey N v) (some (ok c, s)) (round s)))

    pub execute_call : ℕ → Text → Vm F D S J → Outcome (Vm F D S J) (Unit {0})
    execute_call zero name vm = none
    execute_call (suc f) name vm =
        let body = execute f in
        first (enter_call name)
          (λ ops s. then_run (body ops s) (λ u. first (leave_call name) (λ w t. some (ok tt, t))))
          vm
