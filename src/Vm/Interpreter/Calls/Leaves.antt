-- ===== src/Vm/Interpreter/Calls/Leaves.antt =====
-- The call frames around one operation that runs no block.
use icn_covm.Prelude.{ℕ, Option, none, some, Text}
use icn_covm.Prelude.Actions.{Result, ok, err, Action, ◌>>=◌, ◌>>◌}
use icn_covm.Prelude.Actions
use icn_covm.Vm.Error.{VmError}
use icn_covm.Vm.Values.{Floats, TypedValue}
use icn_covm.Vm.Types.{
  Op, LoopControl, push, add, sub, mul, div, modulo, store, load, emit, negate, assert_top,
  dump_stack, dump_memory, assert_memory, pop, eq, gt, lt, not_op, and_op, or_op, dup, swap, over,
  def, return_op, nop, break_op, continue_op, emit_event, assert_equal_stack, dump_state,
  ranked_vote, liquid_delegate, vote_threshold, quorum_threshold, store_p, load_p, create_resource,
  mint, transfer, burn, balance, increment_reputation,
}
use icn_covm.Vm.Memory
use icn_covm.Vm.Memory.{CallFrame, VmMemory, modify_at, modify_last}
use icn_covm.Vm.Execution.{Host}
use icn_covm.Vm.Stack
use icn_covm.Vm.Stack.{VmStack}
use icn_covm.Vm.Execution.Economy.{execute_balance}
use icn_covm.Vm.Machine.{Vm, Handlers}
use icn_covm.Vm.Machine.Leaf.{
  go, stop, plain_op, governance_op, leaf_op, log_storage_operation, save_return, or_governance,
  or_null,
}
use icn_covm.Vm.Interpreter.Calls.Frames.{
  Framed, After, succeeded, failed, Keeps, same-After, if-After, resume-After, binary-Keeps,
  unary-Keeps, set_return_value-Keeps, store-After, stack_then-Keeps, pop_then-Keeps,
  executor_then-Keeps, query_then-Keeps, load_then-Keeps,
}

module _ {N : Floats} (H : Host N) where
  open N use {F}
  open H use {S, J, D}

  -- the operations after which the block goes on
  abbrev pub PlainKeeps : Option (Action (Vm F D S J) VmError (Unit {0})) → Type 0
  PlainKeeps none = Unit
  PlainKeeps (some m) = Keeps H m

  module _ (G : Handlers F D S J) where
    log_storage_operation-Keeps :
        (operation key : Text) (v : TypedValue F) (vm s : Vm F D S J)
        → Framed vm s
        → After H vm (log_storage_operation H G operation key v s)
    unfolding log_storage_operation
    log_storage_operation-Keeps operation key v vm s b =
        if-After H s.verbose_storage_trace (succeeded b) (succeeded b)

    logged-Keeps :
        {B : Type 0} (operation key : Text) (v : TypedValue F) (m : Action (Vm F D S J) VmError B)
        → Keeps H m
        → Keeps H (log_storage_operation H G operation key v >> m)
    logged-Keeps operation key v m h vm s b =
        resume-After H (λ u. m) (log_storage_operation-Keeps operation key v vm s b) (λ u. h vm)

    pub plain_op-Keeps : (op : Op F D) → PlainKeeps (plain_op H G op)
    unfolding plain_op Memory.define_function
    plain_op-Keeps (push v) = λ vm s b. succeeded b
    plain_op-Keeps add = binary-Keeps H _
    plain_op-Keeps sub = binary-Keeps H _
    plain_op-Keeps mul = binary-Keeps H _
    plain_op-Keeps div = binary-Keeps H _
    plain_op-Keeps modulo = binary-Keeps H _
    plain_op-Keeps (store name) = pop_then-Keeps H _ (λ v. store-After H name v)
    plain_op-Keeps (load name) = query_then-Keeps H (Memory.load name) _ (λ v vm s k. succeeded k)
    plain_op-Keeps (emit message) = λ vm s b. succeeded b
    plain_op-Keeps negate = unary-Keeps H _
    plain_op-Keeps (assert_top expected) = pop_then-Keeps H _ (λ v vm s k. same-After H _ k)
    plain_op-Keeps dump_stack = λ vm s b. succeeded b
    plain_op-Keeps dump_memory = λ vm s b. succeeded b
    plain_op-Keeps (assert_memory key expected) =
        query_then-Keeps H (Memory.load key) _ (λ v vm s k. same-After H _ k)
    plain_op-Keeps pop = pop_then-Keeps H _ (λ v vm s k. succeeded k)
    plain_op-Keeps eq = binary-Keeps H _
    plain_op-Keeps gt = binary-Keeps H _
    plain_op-Keeps lt = binary-Keeps H _
    plain_op-Keeps not_op = unary-Keeps H _
    plain_op-Keeps and_op = binary-Keeps H _
    plain_op-Keeps or_op = binary-Keeps H _
    plain_op-Keeps dup = λ vm s b. same-After H _ b
    plain_op-Keeps swap = λ vm s b. same-After H _ b
    plain_op-Keeps over = λ vm s b. same-After H _ b
    plain_op-Keeps (def name params body) = λ vm s b. succeeded b
    plain_op-Keeps nop = λ vm s b. succeeded b
    plain_op-Keeps (emit_event category message) = λ vm s b. succeeded b
    plain_op-Keeps (assert_equal_stack depth) =
        stack_then-Keeps H (Actions.query (Stack.assert_equal_stack N depth)) _
          (λ v vm s k. same-After H _ k)
    plain_op-Keeps dump_state = λ vm s b. succeeded b
    plain_op-Keeps (create_resource resource) = λ vm s b. same-After H _ b
    plain_op-Keeps (mint _ _ _ _) = λ vm s b. same-After H _ b
    plain_op-Keeps (transfer _ _ _ _ _) = λ vm s b. same-After H _ b
    plain_op-Keeps (burn _ _ _ _) = λ vm s b. same-After H _ b
    plain_op-Keeps (balance _ _) =
        executor_then-Keeps H (execute_balance H _ _) _ (λ v vm s k. succeeded k)
    plain_op-Keeps (increment_reputation _ _ _) = λ vm s b. same-After H _ b
    plain_op-Keeps (store_p key) =
        pop_then-Keeps H _ (λ v. logged-Keeps _ _ v _ (λ vm s k. same-After H _ k))
    plain_op-Keeps (load_p key) =
        load_then-Keeps H key _ (λ v. logged-Keeps _ _ v _ (λ vm s k. succeeded k))
    plain_op-Keeps _ = tt

    -- the four handlers, wherever they succeed
    abbrev pub HandlersKeep : Type 0
    HandlersKeep =
        ((candidates ballots : ℕ) → Keeps H (G.ranked_vote candidates ballots))
        × ((from to : Text) → Keeps H (G.liquid_delegate from to))
        × ((threshold : F) → Keeps H (G.quorum_threshold threshold))
        × ((threshold : F) → Keeps H (G.vote_threshold threshold))

    then_pure-Keeps :
        {A : Type 0} (m : Action (Vm F D S J) VmError (Unit {0})) (a : A)
        → Keeps H m
        → Keeps H (m >> Actions.pure a)
    then_pure-Keeps m a h vm s b =
        resume-After H (λ u. Actions.pure a) (h vm s b) (λ u t k. succeeded k)

    governance_op-Keeps : HandlersKeep → (op : Op F D) → Keeps H (governance_op H G op)
    unfolding governance_op
    governance_op-Keeps h (ranked_vote c b) = then_pure-Keeps (G.ranked_vote c b) stop (h.0 c b)
    governance_op-Keeps h (liquid_delegate f t) =
        then_pure-Keeps (G.liquid_delegate f t) stop (h.1 f t)
    governance_op-Keeps h (quorum_threshold x) = then_pure-Keeps (G.quorum_threshold x) stop (h.2 x)
    governance_op-Keeps h (vote_threshold x) = then_pure-Keeps (G.vote_threshold x) stop (h.3 x)
    governance_op-Keeps h _ = λ vm s b. failed

    or_governance-Keeps :
        HandlersKeep
        → (o : Option (Action (Vm F D S J) VmError (Unit {0}))) (c : LoopControl) (op : Op F D)
        → PlainKeeps o
        → Keeps H (or_governance H G o c op)
    or_governance-Keeps h none c op k = governance_op-Keeps h op
    or_governance-Keeps h (some m) c op k = then_pure-Keeps m (go c) k

    save_return-Keeps : Keeps H (save_return H G)
    save_return-Keeps vm s b =
        if-After H (Memory.in_function_call s.memory)
          (set_return_value-Keeps H (or_null (Stack.top s.stack)) vm s b) (succeeded b)

    pub leaf_op-Keeps : HandlersKeep → (c : LoopControl) (op : Op F D) → Keeps H (leaf_op H G c op)
    unfolding leaf_op
    leaf_op-Keeps h c return_op = then_pure-Keeps (save_return H G) stop save_return-Keeps
    leaf_op-Keeps h c break_op = λ vm s b. succeeded b
    leaf_op-Keeps h c continue_op = λ vm s b. succeeded b
    leaf_op-Keeps h c op = or_governance-Keeps h (plain_op H G op) c op (plain_op-Keeps op)
