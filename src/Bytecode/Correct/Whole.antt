-- ===== src/Bytecode/Correct/Whole.antt =====
-- Compiled programs.
use icn_covm.Prelude.{
  ℕ, suc, ◌+◌, ◌≡◌, refl, ap, ◌∙◌, none, some, List, [], ◌∷◌, Text, length, get_elem?, arith,
}
use icn_covm.Prelude.Actions.{Result}
use icn_covm.Vm.Error.{VmError}
use icn_covm.Vm.Values.{Floats}
use icn_covm.Vm.Types.{Ops}
use icn_covm.Vm.Execution.{Host}
use icn_covm.Vm.Machine.{Vm, Handlers}
use icn_covm.Vm.Interpreter
use icn_covm.Vm.Interpreter.{Outcome}
use icn_covm.Bytecode.{BytecodeOp, BytecodeProgram}
use icn_covm.Bytecode.Compiler.{compile}
use icn_covm.Bytecode.Code.{Compiled, size, code, length-code}
use icn_covm.Bytecode.Code.Emitted.{program}
use icn_covm.Bytecode.Code.Compiled.{compile-code}
use icn_covm.Bytecode.Interpreter.{BytecodeInterpreter, run, execute}
use icn_covm.Bytecode.Steps.{Holds, Reaches-run, Fails-run}
use icn_covm.Bytecode.Correct.{execute-Sim, Any}
use icn_covm.Bytecode.Correct.Direct.{Quiet, Sim, starved, ended, reaches, fails}

Holds-shift :
    {A : Type 0} (all xs : List A) (n : ℕ) (y : A) → Holds all n xs → Holds (y ∷ all) (suc n) xs
Holds-shift all [] n y h = tt
Holds-shift all (x ∷ xs) n y h = (h.0, Holds-shift all xs (suc n) y h.1)

Holds-self : {A : Type 0} (xs : List A) → Holds xs 0 xs
Holds-self [] = tt
Holds-self (x ∷ xs) = (refl, Holds-shift xs xs 0 x (Holds-self xs))

some-injective : {A : Type 0} {a b : A} → some a ≡ some b → a ≡ b
some-injective e = cc

get_elem?-end : {A : Type 0} (xs : List A) → get_elem? xs (length xs) ≡ none
get_elem?-end [] = refl
get_elem?-end (x ∷ xs) = get_elem?-end xs

module _ {N : Floats} (H : Host N) (G : Handlers N.F H.D H.S H.J)
    (debug : BytecodeOp N.F H.D → Text) where
  open N use {F}
  open H use {S, J, D}

  -- an interpreter for a program, at a position
  abbrev pub interpreter : BytecodeProgram F D → ℕ → Vm F D S J → BytecodeInterpreter F D S J
  interpreter p n vm = record { pc = n; program = p; vm = vm }

  run-Sim :
      (ops : Ops F D) {vm vm' : Vm F D S J} {o : Outcome (Vm F D S J) (Unit {0})}
      {r : Result VmError (Unit {0})}
      → Sim H G debug (program (code N ops 0) []) Any (0 + size ops) 0 vm o
      → o ≡ some (r, vm')
      → (f : ℕ) × (k : ℕ) × (run H debug f (interpreter (program (code N ops 0) []) 0 vm)
          ≡ some (r, interpreter (program (code N ops 0) []) k vm'))
  run-Sim ops starved e = absurd (cc)
  run-Sim ops (ended (reaches {s} p q t)) e =
      let at : length (code N ops 0) ≡ 0 + size ops = omega (arith, length-code N ops 0) in
      let (f, x) =
        Reaches-run H debug (program (code N ops 0) []) t
          (rw (at) at (get_elem?-end (code N ops 0))) in
      (
        f,
        0 + size ops,
        x
            ∙ ap (λ y. some (y.0, interpreter (program (code N ops 0) []) (0 + size ops) y.1))
                (some-injective e),
      )
  run-Sim ops (ended (fails t)) e =
      let (f, k, x) = Fails-run H debug (program (code N ops 0) []) t in
      (
        f,
        k,
        x ∙ ap (λ y. some (y.0, interpreter (program (code N ops 0) []) k y.1)) (some-injective e),
      )

  -- A block of the operations that machine and bytecode run alike, with `If`, `While` and short loops
  -- around them, is compiled faithfully: where the machine ends the block, with or without an error,
  -- the interpreter of the bytecode ends its program with the same result and in the same state of the
  -- machine, on some fuel. Operations must be neither explained nor simulated, and storage not traced.
  pub execute-compile :
      (f : ℕ) (ops : Ops F D) (vm vm' : Vm F D S J) (r : Result VmError (Unit {0})) (pc : ℕ)
      → Compiled ops
      → Quiet vm
      → Interpreter.execute H G f ops vm ≡ some (r, vm')
      → (g : ℕ) × (k : ℕ) × (execute H debug g (interpreter (compile N ops) pc vm)
          ≡ some (r, interpreter (compile N ops) k vm'))
  unfolding execute
  execute-compile f ops vm vm' r pc c q e = rw (compile-code N ops c) (
      run-Sim ops
        (execute-Sim H G debug (program (code N ops 0) []) f 0 ops vm c (Holds-self (code N ops 0))
          q)
        e)
