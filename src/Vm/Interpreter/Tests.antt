-- ===== src/Vm/Interpreter/Tests.antt =====
-- The interpreter: the theorems at small programs, over the in-memory storage.
use icn_covm.Prelude.{
  ℕ, suc, ◌+◌, ◌≡◌, refl, true, some, is_some, [], ◌∷◌, text, ◌==◌, length, lookup, insert,
}
use icn_covm.Prelude.Actions
use icn_covm.Prelude.Actions.{ok, err}
use icn_covm.Storage.InMemory.{Times, InMemoryStorage}
use icn_covm.Vm.Values.{number}
use icn_covm.Vm.Types.{
  Ops, end, ◌⨾◌, no_block, block, push, Op, def, call, load, return_op, if_op, loop_op, emit,
}
use icn_covm.Vm.Types
use icn_covm.Vm.Memory
use icn_covm.Vm.Stack
use icn_covm.Vm.Execution.{Host}
use icn_covm.Vm.Machine
use icn_covm.Vm.Machine.{Vm, Handlers}
use icn_covm.Vm.Machine.Leaf.{plain_op, leaf_op, is_simulated}
use icn_covm.Vm.Tests.{floats}
use icn_covm.Vm.InMemoryHost.{in_memory_host}
use icn_covm.Vm.Interpreter.{execute}
use icn_covm.Vm.Interpreter.Termination.{cost_ops, Bounded, execute-Bounded}
use icn_covm.Vm.Interpreter.Loops.{emit_and_break, emitted, loop_break_lem}
use icn_covm.Vm.Interpreter.Calls.{execute-Framed}
use icn_covm.Vm.Interpreter.Calls.Frames.{succeeded}
use icn_covm.Vm.Interpreter.Calls.Leaves.{HandlersKeep}

abbrev pub times : Times
times = record { account = 1; version = 2; audit = 3 }

abbrev pub host : Host floats
host = in_memory_host floats ℕ ℕ times (λ e. []) (λ op. []) (λ v. []) (λ a. []) (λ d. [])

-- handlers that do nothing
abbrev pub handlers : Handlers ℕ ℕ InMemoryStorage ℕ
handlers = record {
  ranked_vote = λ candidates ballots. Actions.pure tt;
  liquid_delegate = λ from to. Actions.pure tt;
  quorum_threshold = λ threshold. Actions.pure tt;
  vote_threshold = λ threshold. Actions.pure tt;
}

abbrev pub start : Vm ℕ ℕ InMemoryStorage ℕ
start = Machine.new

-- three times, two is pushed, and then a function with one parameter is called
abbrev program : Ops ℕ ℕ
program =
    loop_op 2 (push (number 2) ⨾ end)
    ⨾ def (text "f") (text "x" ∷ []) (load (text "x") ⨾ return_op ⨾ push (number 7) ⨾ end)
    ⨾ call (text "f")
    ⨾ end

abbrev defined : Vm ℕ ℕ InMemoryStorage ℕ
defined = record start {
  stack = number 2 ∷ number 2 ∷ [];
  memory =
      Memory.define_function (text "f") (text "x" ∷ [])
        (load (text "x") ⨾ return_op ⨾ push (number 7) ⨾ end) start.memory;
}

-- the value that was loaded stays on the stack under the value that was returned
abbrev finished : Vm ℕ ℕ InMemoryStorage ℕ
finished = record defined { stack = number 2 ∷ number 2 ∷ number 2 ∷ [] }

program_runs : execute host handlers 20 program start ≡ some (ok tt, finished)
unfolding execute leaf_op plain_op is_simulated text ◌==◌ lookup insert Memory.define_function
    Memory.get_function Memory.load Memory.push_call_frame Memory.pop_call_frame
    Memory.set_return_value Memory.in_function_call Stack.pop Stack.top
program_runs = refl

handlers_keep : HandlersKeep host handlers
handlers_keep = (
  λ candidates ballots vm s b. succeeded b,
  λ from to vm s b. succeeded b,
  λ threshold vm s b. succeeded b,
  λ threshold vm s b. succeeded b,
)

execute-Framed_example :
    ((finished.memory.call_stack ≡ start.memory.call_stack)
      × (length finished.memory.call_frames ≡ length start.memory.call_frames))
    × (finished.explain_enabled ≡ start.explain_enabled)
    × (finished.simulation_mode ≡ start.simulation_mode)
    × (finished.verbose_storage_trace ≡ start.verbose_storage_trace)
execute-Framed_example =
    execute-Framed host handlers 20 program start finished handlers_keep program_runs

-- a loop with a choice in it, which fails on the empty stack in the end
abbrev choices : Ops ℕ ℕ
choices =
    loop_op 3 (if_op (push (number 1) ⨾ end) (push (number 2) ⨾ end) (block (emit [] ⨾ end)) ⨾ end)
    ⨾ Types.over
    ⨾ Types.add
    ⨾ Types.add
    ⨾ Types.add
    ⨾ Types.add
    ⨾ end

bounded : Bounded choices
unfolding Bounded
bounded = ((((tt, tt), (tt, tt), (tt, tt)), tt), (tt, (tt, (tt, (tt, (tt, tt))))))

execute-Bounded_example :
    is_some (execute host handlers (suc (cost_ops choices)) choices start) ≡ true
execute-Bounded_example = execute-Bounded host handlers choices start bounded

loop_break_lem_example :
    execute host handlers
      (3 + 11)
      (loop_op 3 (emit_and_break host handlers (text "hi")) ⨾ end)
      start
    ≡ some (ok tt, emitted host handlers 3 (text "hi") start)
loop_break_lem_example = loop_break_lem host handlers 3 (text "hi") start refl refl
