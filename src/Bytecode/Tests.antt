-- ===== src/Bytecode/Tests.antt =====
-- The bytecode: the theorem at a program that counts down.
use icn_covm.Prelude.{ℕ, ◌≡◌, refl, some, [], ◌∷◌, Text, text, ◌==◌, lookup, insert}
use icn_covm.Prelude.Actions.{ok}
use icn_covm.Storage.InMemory.{InMemoryStorage}
use icn_covm.Vm.Values.{number, sub, as_number, is_falsey}
use icn_covm.Vm.Types.{Ops, end, ◌⨾◌, push, store, load, while_op}
use icn_covm.Vm.Types
use icn_covm.Vm.Memory
use icn_covm.Vm.Stack
use icn_covm.Vm.Execution.Operators.{execute_arithmetic}
use icn_covm.Vm.Machine.{Vm}
use icn_covm.Vm.Machine.Leaf.{plain_op, leaf_op, is_simulated}
use icn_covm.Vm.Interpreter
use icn_covm.Vm.Interpreter.Tests.{host, handlers, start}
use icn_covm.Vm.Tests.{floats}
use icn_covm.Bytecode.{BytecodeOp}
use icn_covm.Bytecode.Compiler.{compile}
use icn_covm.Bytecode.Interpreter.{execute}
use icn_covm.Bytecode.Code.{Compiled}
use icn_covm.Bytecode.Correct.Whole.{interpreter, execute-compile}

abbrev debug : BytecodeOp ℕ ℕ → Text
debug op = []

-- x := 2; while x { x := x - 1 }
abbrev countdown : Ops ℕ ℕ
countdown =
    push (number 2)
    ⨾ store (text "x")
    ⨾ while_op (load (text "x") ⨾ end)
        (load (text "x") ⨾ push (number 1) ⨾ Types.sub ⨾ store (text "x") ⨾ end)
    ⨾ end

abbrev counted : Vm ℕ ℕ InMemoryStorage ℕ
counted = record start { memory = record start.memory { memory = (text "x", number 0) ∷ [] } }

countdown_runs : Interpreter.execute host handlers 30 countdown start ≡ some (ok tt, counted)
unfolding Interpreter.execute leaf_op plain_op is_simulated text ◌==◌ lookup insert Memory.load
    Memory.store Stack.pop Stack.pop_two execute_arithmetic sub as_number is_falsey
countdown_runs = refl

compiled : Compiled countdown
unfolding Compiled
compiled = (tt, (tt, (((tt, tt), (tt, (tt, (tt, (tt, tt))))), tt)))

execute-compile_example :
    (g : ℕ) × (k : ℕ) × (execute host debug g
        (interpreter host handlers debug (compile floats countdown) 0 start)
      ≡ some (ok tt, interpreter host handlers debug (compile floats countdown) k counted))
execute-compile_example =
    execute-compile host handlers debug 30 countdown start counted (ok tt) 0 compiled
      (refl, refl, refl) countdown_runs
