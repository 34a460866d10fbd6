-- ===== src/Vm/Interpreter/Calls/Outcomes.antt =====
-- The call frames around the parts of a block, and around a call.
use icn_covm.Prelude.{
  suc, ◌-◌, ◌≡◌, refl, Bool, true, false, Option, none, some, List, [], ◌∷◌, Text, Dict, length,
  length-append, if◌then◌else◌, arith,
}
use icn_covm.Prelude.Actions
use icn_covm.Prelude.Actions.{Result, ok, err, Action, ◌>>◌}
use icn_covm.Vm.Error.{VmError}
use icn_covm.Vm.Values.{Floats, TypedValue}
use icn_covm.Vm.Types.{
  Op, Ops, LoopControl, no_control, break, continue, load_p, load_version_p, balance,
}
use icn_covm.Vm.Memory
use icn_covm.Vm.Memory.{CallFrame, VmMemory, pop_top, drop_last}
use icn_covm.Vm.Stack
use icn_covm.Vm.Execution.{Host}
use icn_covm.Vm.Machine.{Vm, Handlers}
use icn_covm.Vm.Machine.Leaf.{Flow, go, stop, simulate}
use icn_covm.Vm.Interpreter.{
  Outcome, then_run, branch, after_body, after_op, keep, resume, explained, enter_function,
  leave_call, push_frame, pop_params, finish_call, push_return,
}
use icn_covm.Vm.Interpreter.Calls.Frames.{
  Framed, After, succeeded, failed, Keeps, same-After, resume-After,
}

length-drop_last : {A : Type 0} (xs : List A) → length (drop_last xs) ≡ length xs - 1
length-drop_last [] = refl
length-drop_last (x ∷ []) = refl
length-drop_last (x ∷ (y ∷ xs)) = omega (arith, length-drop_last (y ∷ xs))

module _ {N : Floats} (H : Host N) (G : Handlers N.F H.D H.S H.J) where
  open N use {F}
  open H use {S, J, D}

  -- Where an outcome is a success, the frames are those of the state `vm`.
  pub data Ran {A : Type 0} (vm : Vm F D S J) : Outcome (Vm F D S J) A → Type 0 where
    starved : Ran vm none
    ran : {p : Result VmError A × Vm F D S J} → After H vm p → Ran vm (some p)

  pub then_run-Ran :
      {A B : Type 0} {o : Outcome (Vm F D S J) A} {vm start : Vm F D S J}
      (k : A → Vm F D S J → Outcome (Vm F D S J) B)
      → Ran start o
      → ((a : A) (s : Vm F D S J) → Framed start s → Ran vm (k a s))
      → Ran vm (then_run o k)
  then_run-Ran k starved h = starved
  then_run-Ran k (ran (succeeded {a} {s} b)) h = h a s b
  then_run-Ran k (ran failed) h = ran failed

  pub resume-Ran :
      {A B : Type 0} {r : Result VmError A} {vm s : Vm F D S J}
      (k : A → Vm F D S J → Outcome (Vm F D S J) B)
      → After H vm (r, s)
      → ((a : A) (t : Vm F D S J) → Framed vm t → Ran vm (k a t))
      → Ran vm (resume r s k)
  resume-Ran k (succeeded {a} {s} b) h = h a s b
  resume-Ran k failed h = ran failed

  pub branch-Ran :
      {A : Type 0} (t : Bool) {vm : Vm F D S J} {o p : Outcome (Vm F D S J) A}
      → Ran vm o
      → Ran vm p
      → Ran vm (branch t o p)
  branch-Ran true h k = h
  branch-Ran false h k = k

  pub after_body-Ran :
      {vm : Vm F D S J} (again : LoopControl → Vm F D S J → Outcome (Vm F D S J) LoopControl)
      → ((c : LoopControl) (s : Vm F D S J) → Framed vm s → Ran vm (again c s))
      → (c : LoopControl) (s : Vm F D S J) → Framed vm s
      → Ran vm (after_body again c s)
  after_body-Ran again h break s b = ran (succeeded b)
  after_body-Ran again h continue s b = h no_control s b
  after_body-Ran again h no_control s b = h no_control s b

  pub after_op-Ran :
      {vm : Vm F D S J} (rest : LoopControl → Vm F D S J → Outcome (Vm F D S J) (Unit {0}))
      → ((c : LoopControl) (s : Vm F D S J) → Framed vm s → Ran vm (rest c s))
      → (flow : Flow) (s : Vm F D S J) → Framed vm s
      → Ran vm (after_op rest flow s)
  after_op-Ran rest h (go c) s b = h c s b
  after_op-Ran rest h stop s b = ran (succeeded b)

  pub keep-Ran :
      {vm : Vm F D S J} (c : LoopControl) {o : Outcome (Vm F D S J) (Unit {0})}
      → Ran vm o
      → Ran vm (keep c o)
  keep-Ran c h = then_run-Ran _ h (λ u s b. ran (succeeded b))

  pub loop-Ran :
      {vm : Vm F D S J} {o : Outcome (Vm F D S J) LoopControl}
      → Ran vm o
      → Ran vm (then_run o (λ c s. some (ok (go c), s)))
  loop-Ran h = then_run-Ran _ h (λ c s b. ran (succeeded b))

  if-Framed :
      (t : Bool) (vm s s' : Vm F D S J)
      → Framed vm s
      → Framed vm s'
      → Framed vm (if t then s else s')
  if-Framed true vm s s' h k = h
  if-Framed false vm s s' h k = k

  pub explained-Framed :
      (op : Op F D) (vm s : Vm F D S J) → Framed vm s → Framed vm (explained H G op s)
  explained-Framed op vm s b = if-Framed s.explain_enabled vm _ s b b

  pub simulate-Keeps : (op : Op F D) → Keeps H (simulate H G op)
  unfolding simulate
  simulate-Keeps (load_p _) = λ vm s b. succeeded b
  simulate-Keeps (load_version_p _ _) = λ vm s b. succeeded b
  simulate-Keeps (balance _ _) = λ vm s b. succeeded b
  simulate-Keeps _ = λ vm s b. succeeded b

  pop_params-Keeps : (names : List Text) → Keeps H (pop_params H G names)
  pop_params-Keeps [] vm s b = succeeded b
  pop_params-Keeps (name ∷ names) vm s b =
      resume-After H _ (pop_params-Keeps names vm s b) (λ values t k.
        resume-After H _ (same-After H (Stack.pop t.stack).0 k) (λ v u l. succeeded l))

  push_return-Keeps : (o : Option (TypedValue F)) → Keeps H (push_return H G o)
  push_return-Keeps none vm s b = succeeded b
  push_return-Keeps (some v) vm s b = succeeded b

  finish_call-Keeps :
      (name : Text) (o : Option (CallFrame (TypedValue F))) → Keeps H (finish_call H G name o)
  finish_call-Keeps name none vm s b = failed
  finish_call-Keeps name (some frame) vm s b = push_return-Keeps frame.return_value vm s b

  -- One frame more than in the state `vm`, on top of its call stack, and the same modes.
  abbrev pub Inside : Vm F D S J → Vm F D S J → Type 0
  Inside vm s =
      (pop_top s.memory.call_stack ≡ vm.memory.call_stack)
      × (length s.memory.call_frames ≡ suc (length vm.memory.call_frames))
      × (s.explain_enabled ≡ vm.explain_enabled)
      × (s.simulation_mode ≡ vm.simulation_mode)
      × (s.verbose_storage_trace ≡ vm.verbose_storage_trace)

  pub data Entered (vm : Vm F D S J) : Result VmError (Ops F D) × Vm F D S J → Type 0 where
    entered : {ops : Ops F D} {s : Vm F D S J} → Inside vm s → Entered vm (ok ops, s)
    refused : {e : VmError} {s : Vm F D S J} → Entered vm (err e, s)

  push_frame-Entered :
      (name : Text) (body : Ops F D) {vm s : Vm F D S J} {r : Result VmError (Dict (TypedValue F))}
      → After H vm (r, s)
      → Entered vm (
          Actions.resume r s
            (λ values. Actions.modify (push_frame H G name values) >> Actions.pure body))
  unfolding Memory.push_call_frame
  push_frame-Entered name body (succeeded {s} b) =
      entered (b.0.0, omega (arith, length-append s.memory.call_frames, b.0.1), b.1, b.2, b.3)
  push_frame-Entered name body failed = refused

  pub enter_call-Entered :
      (name : Text) (r : Result VmError (List Text × Ops F D)) (vm s : Vm F D S J)
      → Framed vm s
      → Entered vm (Actions.resume r s (enter_function H G name))
  enter_call-Entered name (ok (params, body)) vm s b =
      push_frame-Entered name body (pop_params-Keeps params vm s b)
  enter_call-Entered name (err e) vm s b = refused

  pub leave_call-After :
      (name : Text) (vm s : Vm F D S J) → Inside vm s → After H vm (leave_call H G name s)
  unfolding Memory.pop_call_frame
  leave_call-After name vm s p =
      finish_call-Keeps name (Memory.last s.memory.call_frames) vm
        (record s { memory = (Memory.pop_call_frame s.memory).1 })
        ((p.0, omega (arith, length-drop_last s.memory.call_frames, p.1)), p.2, p.3, p.4)

  pub call-Ran :
      {vm : Vm F D S J} {r : Result VmError (Ops F D)} {s : Vm F D S J}
      (k : Ops F D → Vm F D S J → Outcome (Vm F D S J) (Unit {0}))
      → Entered vm (r, s)
      → ((ops : Ops F D) (t : Vm F D S J) → Inside vm t → Ran vm (k ops t))
      → Ran vm (resume r s k)
  call-Ran k (entered {ops} {s} p) h = h ops s p
  call-Ran k refused h = ran failed
