-- ===== src/Vm/Interpreter/Calls.antt =====
-- The call frames around a block.
pub mod Frames
pub mod Leaves
pub mod Outcomes
use icn_covm.Prelude.{
  ℕ, zero, suc, ◌+◌, ◌-◌, ◌≡◌, refl, ap, ◌∙◌, sym, Bool, true, false, ◌&&◌, Option, none, some,
  List, [], ◌∷◌, ◌++◌, Text, Dict, length, length-append, Bool-cases, inl, inr, arith,
}
use icn_covm.Prelude.Actions
use icn_covm.Prelude.Actions.{Result, ok, err, Action, ◌>>◌}
use icn_covm.Vm.Error.{VmError}
use icn_covm.Vm.Values.{Floats, TypedValue, is_falsey}
use icn_covm.Vm.Types.{
  Op, Ops, end, ◌⨾◌, OptionOps, no_block, block, LoopControl, no_control, break, continue, if_op,
  loop_op, while_op, call, match_op, load_p, load_version_p, balance,
}
use icn_covm.Vm.Memory
use icn_covm.Vm.Memory.{CallFrame, VmMemory, pop_top, drop_last}
use icn_covm.Vm.Stack
use icn_covm.Vm.Execution.{Host}
use icn_covm.Vm.Machine
use icn_covm.Vm.Machine.{Vm, Handlers, on_stack}
use icn_covm.Vm.Machine.Leaf.{Flow, go, stop, is_simulated, simulate, leaf_op}
use icn_covm.Vm.Interpreter.{
  Outcome, then_run, branch, after_body, after_op, keep, resume, explained, execute, execute_ops,
  execute_op, run_op, execute_block, run_loop, run_while, execute_call, select_case, enter_call,
  enter_function, leave_call, push_frame, pop_params, finish_call, push_return,
}
use Frames.{Balanced, Framed, After, succeeded, failed, Keeps, same-After}
use Leaves.{HandlersKeep, leaf_op-Keeps}
use Outcomes.{
  Ran, starved, ran, then_run-Ran, resume-Ran, branch-Ran, after_body-Ran, after_op-Ran, keep-Ran,
  loop-Ran, explained-Framed, simulate-Keeps, enter_call-Entered, leave_call-After, call-Ran,
}

module _ {N : Floats} (H : Host N) (G : Handlers N.F H.D H.S H.J) where
  open N use {F}
  open H use {S, J, D}

  module _ (keeps : HandlersKeep H G) where
    mutual
      unfolding execute

      execute-Ran :
          (f : ℕ) (ops : Ops F D) (vm s : Vm F D S J)
          → Framed vm s
          → Ran H G vm (execute H G f ops s)
      execute-Ran zero ops vm s b = starved
      execute-Ran (suc f) ops vm s b = execute_ops-Ran f no_control ops vm s b

      execute_ops-Ran :
          (f : ℕ) (c : LoopControl) (ops : Ops F D) (vm s : Vm F D S J)
          → Framed vm s
          → Ran H G vm (execute_ops H G f c ops s)
      execute_ops-Ran zero c ops vm s b = starved
      execute_ops-Ran (suc f) c end vm s b = ran (succeeded b)
      execute_ops-Ran (suc f) c (op ⨾ ops) vm s b =
          then_run-Ran H G _
            (execute_op-Ran f c op vm (explained H G op s) (explained-Framed H G op vm s b))
            (after_op-Ran H G _ (λ c' t k. execute_ops-Ran f c' ops vm t k))

      execute_op-Ran :
          (f : ℕ) (c : LoopControl) (op : Op F D) (vm s : Vm F D S J)
          → Framed vm s
          → Ran H G vm (execute_op H G f c op s)
      execute_op-Ran zero c op vm s b = starved
      execute_op-Ran (suc f) c op vm s b =
          branch-Ran H G (s.simulation_mode && is_simulated H G op)
            (keep-Ran H G c (ran (simulate-Keeps H G op vm s b))) (run_op-Ran f c op vm s b)

      run_op-Ran :
          (f : ℕ) (c : LoopControl) (op : Op F D) (vm s : Vm F D S J)
          → Framed vm s
          → Ran H G vm (run_op H G f c op s)
      run_op-Ran zero c op vm s b = starved
      run_op-Ran (suc f) c (if_op condition then_ else_) vm s b = keep-Ran H G c (
          then_run-Ran H G _ (execute-Ran f condition vm s b) (λ u t k.
            resume-Ran H G _ (same-After H (Stack.pop t.stack).0 k) (λ v r l.
              branch-Ran H G (is_falsey N v) (execute_block-Ran f else_ vm r l)
                (execute-Ran f then_ vm r l))))
      run_op-Ran (suc f) c (loop_op count body) vm s b =
          loop-Ran H G (run_loop-Ran f c count body vm s b)
      run_op-Ran (suc f) c (while_op condition body) vm s b =
          loop-Ran H G (run_while-Ran f c condition body vm s b)
      run_op-Ran (suc f) c (call name) vm s b = keep-Ran H G c (execute_call-Ran f name vm s b)
      run_op-Ran (suc f) c (match_op value cases default) vm s b = keep-Ran H G c (
          then_run-Ran H G _ (execute-Ran f value vm s b) (λ u t k.
            resume-Ran H G _ (same-After H (Stack.pop t.stack).0 k)
              (λ v r l. execute_block-Ran f (select_case H G v cases default) vm r l)))
      run_op-Ran (suc f) c op vm s b = ran (leaf_op-Keeps H G keeps c op vm s b)

      execute_block-Ran :
          (f : ℕ) (ops : OptionOps F D) (vm s : Vm F D S J)
          → Framed vm s
          → Ran H G vm (execute_block H G f ops s)
      execute_block-Ran zero ops vm s b = starved
      execute_block-Ran (suc f) no_block vm s b = ran (succeeded b)
      execute_block-Ran (suc f) (block ops) vm s b = execute-Ran f ops vm s b

      run_loop-Ran :
          (f : ℕ) (c : LoopControl) (n : ℕ) (body : Ops F D) (vm s : Vm F D S J)
          → Framed vm s
          → Ran H G vm (run_loop H G f c n body s)
      run_loop-Ran zero c n body vm s b = starved
      run_loop-Ran (suc f) c zero body vm s b = ran (succeeded b)
      run_loop-Ran (suc f) c (suc n) body vm s b =
          then_run-Ran H G _ (execute-Ran f body vm s b)
            (λ u. after_body-Ran H G _ (λ c' t k. run_loop-Ran f c' n body vm t k) c)

      run_while-Ran :
          (f : ℕ) (c : LoopControl) (condition body : Ops F D) (vm s : Vm F D S J)
          → Framed vm s
          → Ran H G vm (run_while H G f c condition body s)
      run_while-Ran zero c condition body vm s b = starved
      run_while-Ran (suc f) c condition body vm s b =
          then_run-Ran H G _ (execute-Ran f condition vm s b) (λ u t k.
            resume-Ran H G _ (same-After H (Stack.pop t.stack).0 k) (λ v r l.
              branch-Ran H G (is_falsey N v) (ran (succeeded l)) (
                then_run-Ran H G _ (execute-Ran f body vm r l) (λ w.
                  after_body-Ran H G _ (λ c' x m. run_while-Ran f c' condition body vm x m) c))))

      execute_call-Ran :
          (f : ℕ) (name : Text) (vm s : Vm F D S J)
          → Framed vm s
          → Ran H G vm (execute_call H G f name s)
      execute_call-Ran zero name vm s b = starved
      execute_call-Ran (suc f) name vm s b =
          call-Ran H G _ (enter_call-Entered H G name (Memory.get_function name s.memory) vm s b)
            (λ ops t p.
              then_run-Ran H G _ (execute-Ran f ops t t ((refl, refl), refl, refl, refl)) (λ u r k.
                resume-Ran H G _
                  (leave_call-After H G name vm r
                    (ap pop_top k.0.0 ∙ p.0, k.0.1 ∙ p.1, k.1 ∙ p.2, k.2 ∙ p.3, k.3 ∙ p.4))
                  (λ w x l. ran (succeeded l))))

  Ran-Framed :
      {o : Outcome (Vm F D S J) (Unit {0})} {vm vm' : Vm F D S J}
      → Ran H G vm o
      → o ≡ some (ok tt, vm')
      → Framed vm vm'
  Ran-Framed starved e = cc
  Ran-Framed {vm} {vm'} (ran (succeeded {s} b)) e = let same : s ≡ vm' = cc in rw (sym same) b
  Ran-Framed (ran failed) e = cc

  -- A block that ends without an error, on any fuel, leaves the call stack as it was and the same
  -- number of call frames: every frame that a call pushed is popped, however the body of the function
  -- ended. The modes of the machine stay too. Of the governance handlers it is assumed that they keep
  -- the frames and the modes wherever they succeed.
  pub execute-Framed :
      (f : ℕ) (ops : Ops F D) (vm vm' : Vm F D S J)
      → HandlersKeep H G
      → execute H G f ops vm ≡ some (ok tt, vm')
      → ((vm'.memory.call_stack ≡ vm.memory.call_stack)
          × (length vm'.memory.call_frames ≡ length vm.memory.call_frames))
        × (vm'.explain_enabled ≡ vm.explain_enabled)
        × (vm'.simulation_mode ≡ vm.simulation_mode)
        × (vm'.verbose_storage_trace ≡ vm.verbose_storage_trace)
  execute-Framed f ops vm vm' keeps e =
      Ran-Framed (execute-Ran keeps f ops vm vm ((refl, refl), refl, refl, refl)) e
