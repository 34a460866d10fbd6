-- ===== src/Vm/Interpreter/Calls/Frames.antt =====
-- The call frames around an action, and what keeps them.
use icn_covm.Prelude.{
  ℕ, zero, suc, ◌≡◌, refl, ap, ◌∙◌, Bool, true, false, List, [], ◌∷◌, Text, length, if◌then◌else◌,
  ltb,
}
use icn_covm.Prelude.Actions.{Result, ok, err, Action, ◌>>=◌, ◌>>◌}
use icn_covm.Prelude.Actions
use icn_covm.Vm.Error.{VmError}
use icn_covm.Vm.Values.{Floats, TypedValue}
use icn_covm.Vm.Types.{Ops}
use icn_covm.Vm.Memory
use icn_covm.Vm.Memory.{CallFrame, VmMemory, modify_at, modify_last}
use icn_covm.Vm.Execution.{Host, VmExecution}
use icn_covm.Vm.Stack
use icn_covm.Vm.Stack.{VmStack}
use icn_covm.Vm.Execution.Persistence.{execute_load_p}
use icn_covm.Vm.Machine
use icn_covm.Vm.Machine.{Vm, Handlers, on_stack, on_executor, on_memory}

-- The call stack is the same, and there are as many frames.
abbrev pub Balanced : {V O : Type 0} → VmMemory V O → VmMemory V O → Type 0
Balanced m m' = (m'.call_stack ≡ m.call_stack) × (length m'.call_frames ≡ length m.call_frames)

-- ... and the modes of the machine are the same.
abbrev pub Framed : {F D S J : Type 0} → Vm F D S J → Vm F D S J → Type 0
Framed vm s =
    Balanced vm.memory s.memory
    × (s.explain_enabled ≡ vm.explain_enabled)
    × (s.simulation_mode ≡ vm.simulation_mode)
    × (s.verbose_storage_trace ≡ vm.verbose_storage_trace)

length-modify_at :
    {A : Type 0} (f : A → A) (i : ℕ) (xs : List A) → length (modify_at f i xs) ≡ length xs
length-modify_at f i [] = refl
length-modify_at f zero (x ∷ xs) = refl
length-modify_at f (suc i) (x ∷ xs) = ap suc (length-modify_at f i xs)

length-modify_last : {A : Type 0} (f : A → A) (xs : List A) → length (modify_last f xs) ≡ length xs
length-modify_last f [] = refl
length-modify_last f (x ∷ []) = refl
length-modify_last f (x ∷ (y ∷ xs)) = ap suc (length-modify_last f (y ∷ xs))

module _ {V O : Type 0} where
  store_at-Balanced :
      (name : Text) (v : V) (is : List ℕ) (m : VmMemory V O)
      → Balanced m (Memory.store_at name v is m)
  store_at-Balanced name v [] m = (refl, refl)
  store_at-Balanced name v (i ∷ is) m =
      (refl, length-modify_at (Memory.set_local name v) i m.call_frames)

module _ {N : Floats} (H : Host N) where
  open N use {F}
  open H use {S, J, D}

  -- Where an action succeeds, the frames are those of the state `vm`.
  pub data After {A : Type 0} (vm : Vm F D S J) : Result VmError A × Vm F D S J → Type 0 where
    succeeded : {a : A} {s : Vm F D S J} → Framed vm s → After vm (ok a, s)
    failed : {e : VmError} {s : Vm F D S J} → After vm (err e, s)

  abbrev pub Keeps : {A : Type 0} → Action (Vm F D S J) VmError A → Type 0
  Keeps m = (vm s : Vm F D S J) → Framed vm s → After vm (m s)

  -- the result of an action that leaves the memory alone
  pub same-After :
      {A : Type 0} (r : Result VmError A) {vm s : Vm F D S J} → Framed vm s → After vm (r, s)
  same-After (ok a) h = succeeded h
  same-After (err e) h = failed

  pub if-After :
      {A : Type 0} (t : Bool) {vm : Vm F D S J} {p q : Result VmError A × Vm F D S J}
      → After vm p
      → After vm q
      → After vm (if t then p else q)
  if-After true h k = h
  if-After false h k = k

  pub resume-After :
      {A B : Type 0} {r : Result VmError A} {vm s : Vm F D S J}
      (f : A → Action (Vm F D S J) VmError B)
      → After vm (r, s)
      → ((a : A) (t : Vm F D S J) → Framed vm t → After vm (f a t))
      → After vm (Actions.resume r s f)
  resume-After f (succeeded {a} {s} h) k = k a s h
  resume-After f failed k = failed

  pub binary-Keeps :
      (f : TypedValue F → TypedValue F → Result VmError (TypedValue F)) → Keeps (Machine.binary f)
  binary-Keeps f vm s h = resume-After _ (same-After _ h) (λ (p : TypedValue F × TypedValue F) t k.
      resume-After _ (same-After (f p.0 p.1) k) (λ v u l. succeeded l))

  pub unary-Keeps : (f : TypedValue F → Result VmError (TypedValue F)) → Keeps (Machine.unary f)
  unary-Keeps f vm s h =
      resume-After _ (same-After _ h)
        (λ a t k. resume-After _ (same-After (f a) k) (λ v u l. succeeded l))

  if_set-After :
      (v : TypedValue F) (t : Bool) (vm s : Vm F D S J)
      → Framed vm s
      → After vm (on_memory (Memory.set_if t v) s)
  if_set-After v true vm s b = succeeded (
    (b.0.0, length-modify_last (Memory.with_value v) s.memory.call_frames ∙ b.0.1),
    b.1,
    b.2,
    b.3,
  )
  if_set-After v false vm s b = failed

  pub set_return_value-Keeps :
      (v : TypedValue F) (vm s : Vm F D S J)
      → Framed vm s
      → After vm (on_memory (Memory.set_return_value v) s)
  unfolding Memory.set_return_value
  set_return_value-Keeps v vm s b = if_set-After v (ltb 0 (length s.memory.call_frames)) vm s b

  pub store-After :
      (name : Text) (v : TypedValue F) (vm t : Vm F D S J)
      → Framed vm t
      → After vm (on_memory (Actions.modify (Memory.store name v)) t)
  unfolding Memory.store
  store-After name v vm t k =
      let (stack, frames) = store_at-Balanced name v t.memory.call_stack t.memory in
      succeeded ((stack ∙ k.0.0, frames ∙ k.0.1), k.1, k.2, k.3)

  pub stack_then-Keeps :
      {A B : Type 0} (m : Action (VmStack F) VmError A) (f : A → Action (Vm F D S J) VmError B)
      → ((a : A) → Keeps (f a))
      → Keeps (on_stack m >>= f)
  stack_then-Keeps m f h vm s b = resume-After f (same-After (m s.stack).0 b) (λ a. h a vm)

  pub pop_then-Keeps :
      {B : Type 0} (f : TypedValue F → Action (Vm F D S J) VmError B)
      → ((v : TypedValue F) → Keeps (f v))
      → Keeps (on_stack Stack.pop >>= f)
  pop_then-Keeps f h = stack_then-Keeps Stack.pop f h

  pub executor_then-Keeps :
      {A B : Type 0} (m : Action (VmExecution S J) VmError A)
      (f : A → Action (Vm F D S J) VmError B)
      → ((a : A) → Keeps (f a))
      → Keeps (on_executor m >>= f)
  executor_then-Keeps m f h vm s b = resume-After f (same-After (m s.executor).0 b) (λ a. h a vm)

  pub query_then-Keeps :
      {A B : Type 0} (g : VmMemory (TypedValue F) (Ops F D) → Result VmError A)
      (f : A → Action (Vm F D S J) VmError B)
      → ((a : A) → Keeps (f a))
      → Keeps (on_memory (Actions.query g) >>= f)
  query_then-Keeps g f h vm s b = resume-After f (same-After (g s.memory) b) (λ a. h a vm)

  pub load_then-Keeps :
      {B : Type 0} (key : Text) (f : TypedValue F → Action (Vm F D S J) VmError B)
      → ((v : TypedValue F) → Keeps (f v))
      → Keeps ((λ vm. on_executor (execute_load_p H key vm.missing_key_behavior) vm) >>= f)
  load_then-Keeps key f h vm s b =
      resume-After f (same-After (execute_load_p H key s.missing_key_behavior s.executor).0 b)
        (λ v. h v vm)
