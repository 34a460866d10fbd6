-- ===== src/Vm/Machine.antt =====
-- vm/vm.rs: the state of the machine, and every operation that runs no block. The DAG, the traces on
-- the console and the network node, which no operation reads, are left out of the state.
pub mod Leaf
pub mod Explain
pub mod Parameters
use icn_covm.Prelude.{ℕ, Bool, false, [], Text}
use icn_covm.Prelude.Actions.{Result, ok, err, Action, modify, lift, pure, ◌>>=◌, ◌>>◌}
use icn_covm.Storage.Auth.{AuthContext}
use icn_covm.Vm.Error.{VmError}
use icn_covm.Vm.Values.{Floats, TypedValue, print_bool, number, boolean, string, null}
use icn_covm.Vm.Types.{Op, Ops}
use icn_covm.Vm.Memory
use icn_covm.Vm.Memory.{VmMemory}
use icn_covm.Vm.Stack.{VmStack, push_value, pop, pop_two}
use icn_covm.Vm.Execution
use icn_covm.Vm.Execution.{Host, VmExecution}
use icn_covm.Vm.Execution.Fork
use icn_covm.Vm.Execution.Persistence.{MissingKeyBehavior, default}

pub record Vm (F D S J : Type 0) : Type 0 where
  pub stack : VmStack F
  pub memory : VmMemory (TypedValue F) (Ops F D)
  pub executor : VmExecution S J
  pub missing_key_behavior : MissingKeyBehavior
  pub explain_enabled : Bool
  pub simulation_mode : Bool
  pub verbose_storage_trace : Bool

module _ {F D S J : Type 0} where
  abbrev pub new : Vm F D S J
  new = record {
    stack = [];
    memory = Memory.new;
    executor = Execution.new;
    missing_key_behavior = default;
    explain_enabled = false;
    simulation_mode = false;
    verbose_storage_trace = false;
  }

  abbrev pub on_stack : {A : Type 0} → Action (VmStack F) VmError A → Action (Vm F D S J) VmError A
  on_stack m vm = let (r, s) = m vm.stack in (r, record vm { stack = s })

  abbrev pub on_executor :
      {A : Type 0} → Action (VmExecution S J) VmError A → Action (Vm F D S J) VmError A
  on_executor m vm = let (r, e) = m vm.executor in (r, record vm { executor = e })

  abbrev pub on_memory :
      {A : Type 0}
      → Action (VmMemory (TypedValue F) (Ops F D)) VmError A
      → Action (Vm F D S J) VmError A
  on_memory m vm = let (r, s) = m vm.memory in (r, record vm { memory = s })

  abbrev pub push : TypedValue F → Action (Vm F D S J) VmError (Unit {0})
  push v = on_stack (modify (push_value v))

  abbrev pub emit_text : Text → Action (Vm F D S J) VmError (Unit {0})
  emit_text message = on_executor (modify (Execution.emit message))

  -- the operations with one operand, and with two, the top being the second
  abbrev pub unary :
      (TypedValue F → Result VmError (TypedValue F)) → Action (Vm F D S J) VmError (Unit {0})
  unary f = do a ← on_stack pop; r ← lift (f a); push r

  abbrev pub binary :
      (TypedValue F → TypedValue F → Result VmError (TypedValue F))
      → Action (Vm F D S J) VmError (Unit {0})
  binary f = do operands ← on_stack pop_two; r ← lift (f operands.0 operands.1); push r

-- the four handlers of governance/, to which the machine passes its state
pub record Handlers (F D S J : Type 0) : Type 0 where
  pub ranked_vote : (candidates ballots : ℕ) → Action (Vm F D S J) VmError (Unit {0})
  pub liquid_delegate : (from to : Text) → Action (Vm F D S J) VmError (Unit {0})
  pub quorum_threshold : F → Action (Vm F D S J) VmError (Unit {0})
  pub vote_threshold : F → Action (Vm F D S J) VmError (Unit {0})

module _ {N : Floats} (H : Host N) where
  open N use {F}
  open H use {S, J, D}

  abbrev with_executor : Vm F D S J → Result VmError (VmExecution S J) → Result VmError (Vm F D S J)
  with_executor vm (ok e) = ok (record vm { executor = e })
  with_executor vm (err e) = err e

  unfoldable pub fork : Vm F D S J → Result VmError (Vm F D S J)
  fork vm = with_executor vm (Fork.fork H vm.executor)

  unfoldable pub commit_fork_transaction : Action (Vm F D S J) VmError (Unit {0})
  commit_fork_transaction = on_executor (Fork.commit_fork_transaction H)

  unfoldable pub rollback_fork_transaction : Action (Vm F D S J) VmError (Unit {0})
  rollback_fork_transaction = on_executor (Fork.rollback_fork_transaction H)
