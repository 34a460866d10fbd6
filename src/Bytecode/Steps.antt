-- ===== src/Bytecode/Steps.antt =====
-- Runs of the bytecode of a fixed program, between two positions.
use icn_covm.Prelude.{
  ℕ, zero, suc, ◌+◌, ◌≡◌, refl, none, some, List, [], ◌∷◌, ◌++◌, Text, length, get_elem?, arith,
}
use icn_covm.Prelude.Actions.{ok, err}
use icn_covm.Vm.Error.{VmError}
use icn_covm.Vm.Values.{Floats}
use icn_covm.Vm.Execution.{Host}
use icn_covm.Vm.Machine.{Vm}
use icn_covm.Bytecode.{BytecodeOp, BytecodeProgram}
use icn_covm.Bytecode.Interpreter.{BytecodeInterpreter, execute_instruction, run}

-- The instructions from a position on begin with those of a list.
abbrev pub Holds : {A : Type 0} → List A → ℕ → List A → Type 0
Holds all n [] = Unit
Holds all n (x ∷ xs) = (get_elem? all n ≡ some x) × Holds all (suc n) xs

plus_zero : (n : ℕ) → (n + 0) ≡ n
plus_zero n = omega arith

plus_suc : (n k : ℕ) → (n + suc k) ≡ (suc n + k)
plus_suc n k = omega arith

pub Holds-append :
    {A : Type 0} (all : List A) (n : ℕ) (xs ys : List A)
    → Holds all n (xs ++ ys)
    → Holds all n xs × Holds all (n + length xs) ys
Holds-append all n [] ys h = (tt, rw (plus_zero n) h)
Holds-append all n (x ∷ xs) ys h =
    let (hx, hy) = Holds-append all (suc n) xs ys h.1 in ((h.0, hx), rw (plus_suc n (length xs)) hy)

-- a block, an instruction and two more blocks, with the lengths of the first and the second
pub Holds-joined :
    {A : Type 0} (all : List A) (n : ℕ) (xs ys zs : List A) (x : A) {a b : ℕ}
    → length xs ≡ a
    → length ys ≡ b
    → Holds all n (xs ++ x ∷ (ys ++ zs))
    → Holds all n xs
      × (get_elem? all (n + a) ≡ some x)
      × Holds all (suc (n + a)) ys
      × Holds all (suc (n + a) + b) zs
Holds-joined all n xs ys zs x p q h =
    let (hx, rest) = Holds-append all n xs (x ∷ (ys ++ zs)) h in
    let (here_x, after) = rw (p) at rest in
    let (hy, hz) = Holds-append all (suc (n + _)) ys zs after in (hx, here_x, hy, rw (q) at hz)

module _ {N : Floats} (H : Host N) (debug : BytecodeOp N.F H.D → Text)
    (program : BytecodeProgram N.F H.D) where
  open N use {F}
  open H use {S, J, D}

  abbrev pub state : ℕ → Vm F D S J → BytecodeInterpreter F D S J
  state n vm = record { pc = n; program = program; vm = vm }

  pub data Reaches (m : ℕ) (vm' : Vm F D S J) : ℕ → Vm F D S J → Type 0 where
    here : Reaches m vm' m vm'
    step :
        {n k : ℕ} {vm s : Vm F D S J} (op : BytecodeOp F D)
        → get_elem? program.instructions n ≡ some op
        → execute_instruction H debug op (state n vm) ≡ (ok tt, state k s)
        → Reaches m vm' k s
        → Reaches m vm' n vm

  -- an instruction that fails, some steps on
  pub data Fails (e : VmError) (vm' : Vm F D S J) : ℕ → Vm F D S J → Type 0 where
    now :
        {n k : ℕ} {vm : Vm F D S J} (op : BytecodeOp F D)
        → get_elem? program.instructions n ≡ some op
        → execute_instruction H debug op (state n vm) ≡ (err e, state k vm')
        → Fails e vm' n vm
    later :
        {n k : ℕ} {vm s : Vm F D S J} (op : BytecodeOp F D)
        → get_elem? program.instructions n ≡ some op
        → execute_instruction H debug op (state n vm) ≡ (ok tt, state k s)
        → Fails e vm' k s
        → Fails e vm' n vm

  pub Reaches-trans :
      {m k : ℕ} {b c : Vm F D S J} {n : ℕ} {a : Vm F D S J}
      → Reaches m b n a
      → Reaches k c m b
      → Reaches k c n a
  Reaches-trans here q = q
  Reaches-trans (step op g e p) q = step op g e (Reaches-trans p q)

  pub Reaches-Fails :
      {m : ℕ} {b c : Vm F D S J} {e : VmError} {n : ℕ} {a : Vm F D S J}
      → Reaches m b n a
      → Fails e c m b
      → Fails e c n a
  Reaches-Fails here q = q
  Reaches-Fails (step op g e p) q = later op g e (Reaches-Fails p q)

  -- Enough fuel for a run that leaves the program, and for one that fails.
  pub Reaches-run :
      {m : ℕ} {vm' : Vm F D S J} {n : ℕ} {vm : Vm F D S J}
      → Reaches m vm' n vm
      → get_elem? program.instructions m ≡ none
      → (f : ℕ) × (run H debug f (state n vm) ≡ some (ok tt, state m vm'))
  unfolding run
  Reaches-run here g = (suc zero, rw (g) refl)
  Reaches-run (step op h e p) g = let (f, r) = Reaches-run p g in (suc f, rw (h, e) r)

  pub Fails-run :
      {e : VmError} {vm' : Vm F D S J} {n : ℕ} {vm : Vm F D S J}
      → Fails e vm' n vm
      → (f : ℕ) × (k : ℕ) × (run H debug f (state n vm) ≡ some (err e, state k vm'))
  unfolding run
  Fails-run (now {k} op h e) = (suc zero, k, rw (h, e) refl)
  Fails-run (later op h e p) = let (f, k, r) = Fails-run p in (suc f, k, rw (h, e) r)
