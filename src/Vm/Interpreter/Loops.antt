-- ===== src/Vm/Interpreter/Loops.antt =====
-- `Break` in the body of a loop. The signal that `execute_inner` keeps is its own, so the loop around
-- a body does not find it.
use icn_covm.Prelude.{ℕ, zero, suc, ◌+◌, ◌≤◌, ◌≡◌, refl, false, some, Text, arith}
use icn_covm.Prelude.Actions.{ok}
use icn_covm.Vm.Values.{Floats}
use icn_covm.Vm.Types.{Ops, end, ◌⨾◌, no_control, loop_op, emit, break_op}
use icn_covm.Vm.Execution.{Host}
use icn_covm.Vm.Machine.{Vm, Handlers, emit_text}
use icn_covm.Vm.Machine.Leaf
use icn_covm.Vm.Interpreter.{execute, run_loop}
use icn_covm.Vm.Interpreter.Fuel.{execute_mono}

module _ {N : Floats} (H : Host N) (G : Handlers N.F H.D H.S H.J) where
  open N use {F}
  open H use {S, J, D}

  abbrev pub emit_and_break : Text → Ops F D
  emit_and_break message = emit message ⨾ break_op ⨾ end

  -- the message `n` times
  abbrev pub emitted : ℕ → Text → Vm F D S J → Vm F D S J
  emitted zero message vm = vm
  emitted (suc n) message vm = emitted n message (emit_text message vm).1

  -- neither explained nor simulated
  abbrev pub Silent : Vm F D S J → Type 0
  Silent vm = (vm.explain_enabled ≡ false) × (vm.simulation_mode ≡ false)

  abbrev six : ℕ
  six = suc (suc (suc (suc (suc (suc zero)))))

  body_lem :
      (f : ℕ) (message : Text) (vm : Vm F D S J)
      → six ≤ f
      → Silent vm
      → execute H G f (emit_and_break message) vm ≡ some (ok tt, (emit_text message vm).1)
  unfolding execute Leaf.leaf_op Leaf.plain_op Leaf.is_simulated
  body_lem f message vm h (e, s) =
      execute_mono H G six f (emit_and_break message) vm (ok tt, (emit_text message vm).1) h
        (rw (e, s) refl)

  run_loop_lem :
      (f n : ℕ) (message : Text) (vm : Vm F D S J)
      → n + 7 ≤ f
      → Silent vm
      → run_loop H G f no_control n (emit_and_break message) vm
        ≡ some (ok no_control, emitted n message vm)
  unfolding execute
  run_loop_lem zero n message vm h s = absurd (omega arith)
  run_loop_lem (suc f) zero message vm h s = refl
  run_loop_lem (suc f) (suc n) message vm h s =
      rw (body_lem f message vm (omega arith) s)
        (run_loop_lem f n message (emit_text message vm).1 (omega arith) s)

  loop_ends :
      (f n : ℕ) (message : Text) (vm : Vm F D S J)
      → n + 7 ≤ f
      → Silent vm
      → execute H G (suc (suc (suc (suc f)))) (loop_op n (emit_and_break message) ⨾ end) vm
        ≡ some (ok tt, emitted n message vm)
  unfolding execute Leaf.is_simulated
  loop_ends f n message vm h (e, s) =
      let p = run_loop_lem f n message vm h (e, s) in rw (e, s) (rw ((rw (e, s) at p)) refl)

  -- A `Break` does not end the loop that it stands in: where operations are neither explained nor
  -- simulated, a loop of `n` rounds whose body emits a message and breaks emits it `n` times.
  pub loop_break_lem :
      (n : ℕ) (message : Text) (vm : Vm F D S J)
      → vm.explain_enabled ≡ false
      → vm.simulation_mode ≡ false
      → execute H G (n + 11) (loop_op n (emit_and_break message) ⨾ end) vm
        ≡ some (ok tt, emitted n message vm)
  loop_break_lem n message vm e s =
      execute_mono H G (suc (suc (suc (suc (n + 7))))) (n + 11) _ vm _ (omega arith)
        (loop_ends (n + 7) n message vm (omega arith) (e, s))
