-- ===== src/Bytecode/Code/Emitted.antt =====
-- The parts of the compiler, on the instructions that stand before them.
use icn_covm.Prelude.{
  ℕ, zero, suc, ◌+◌, ◌≡◌, refl, ap, ◌∙◌, sym, List, [], ◌∷◌, ◌++◌, Dict, length, length-append,
  arith,
}
use icn_covm.Vm.Memory.{modify_at}
use icn_covm.Bytecode.{BytecodeOp, BytecodeProgram, jump, jump_if_zero}
use icn_covm.Bytecode.Compiler.{retarget, jump_here, iterate}
use icn_covm.Bytecode.Code.{times, rounds}

pub append_assoc : {A : Type 0} (xs ys zs : List A) → ((xs ++ ys) ++ zs) ≡ (xs ++ (ys ++ zs))
append_assoc [] ys zs = refl
append_assoc (x ∷ xs) ys zs = ap (λ l. x ∷ l) (append_assoc xs ys zs)

pub append_nil : {A : Type 0} (xs : List A) → (xs ++ []) ≡ xs
append_nil [] = refl
append_nil (x ∷ xs) = ap (λ l. x ∷ l) (append_nil xs)

pub modify_at-middle :
    {A : Type 0} (f : A → A) (ys zs : List A) (x : A)
    → modify_at f (length ys) (ys ++ x ∷ zs) ≡ (ys ++ f x ∷ zs)
modify_at-middle f [] zs x = refl
modify_at-middle f (y ∷ ys) zs x = ap (λ l. y ∷ l) (modify_at-middle f ys zs x)

pub length-middle :
    {A : Type 0} (ys zs : List A) (x : A) → length (ys ++ x ∷ zs) ≡ suc (length ys) + length zs
length-middle ys zs x = omega (arith, length-append ys (x ∷ zs))

module _ {F D : Type 0} where
  abbrev pub program : List (BytecodeOp F D) → Dict ℕ → BytecodeProgram F D
  program xs t = record { instructions = xs; function_table = t }

  -- What `f` appends to a program is `c`, at the position where it stands.
  pub record Emits (f : BytecodeProgram F D → BytecodeProgram F D) (c : ℕ → List (BytecodeOp F D))
      (size : ℕ) : Type 0 where
    pub emits :
        (xs : List (BytecodeOp F D)) (t : Dict ℕ)
        → f (program xs t) ≡ program (xs ++ c (length xs)) t
    pub sized : (n : ℕ) → length (c n) ≡ size

  -- after an instruction
  pub after-Emits :
      {f : BytecodeProgram F D → BytecodeProgram F D} {c : ℕ → List (BytecodeOp F D)} {size : ℕ}
      → Emits f c size
      → (xs : List (BytecodeOp F D)) (t : Dict ℕ) (i : BytecodeOp F D)
      → f (program (xs ++ i ∷ []) t) ≡ program (xs ++ i ∷ c (suc (length xs))) t
  after-Emits {f} {c} e xs t i =
      let at : length (xs ++ i ∷ []) ≡ suc (length xs) = omega (arith, length-append xs (i ∷ [])) in
      e.emits (xs ++ i ∷ []) t
      ∙ ap (λ n. program ((xs ++ i ∷ []) ++ c n) t) at
      ∙ ap (λ l. program l t) (append_assoc xs (i ∷ []) (c (suc (length xs))))

  pub jump_here-conditional :
      (ys zs : List (BytecodeOp F D)) (t : Dict ℕ) (a : ℕ)
      → jump_here (length ys) (program (ys ++ jump_if_zero a ∷ zs) t)
        ≡ program (ys ++ jump_if_zero (suc (length ys) + length zs) ∷ zs) t
  jump_here-conditional ys zs t a =
      let at = length-middle ys zs (jump_if_zero a) in
      ap (λ l. program l t) (modify_at-middle (retarget _) ys zs (jump_if_zero a))
      ∙ ap (λ n. program (ys ++ jump_if_zero n ∷ zs) t) at

  pub jump_here-jump :
      (ys zs : List (BytecodeOp F D)) (t : Dict ℕ) (a : ℕ)
      → jump_here (length ys) (program (ys ++ jump a ∷ zs) t)
        ≡ program (ys ++ jump (suc (length ys) + length zs) ∷ zs) t
  jump_here-jump ys zs t a =
      let at = length-middle ys zs (jump a) in
      ap (λ l. program l t) (modify_at-middle (retarget _) ys zs (jump a))
      ∙ ap (λ n. program (ys ++ jump n ∷ zs) t) at

  -- one block after another
  pub seq-Emits :
      {f g : BytecodeProgram F D → BytecodeProgram F D} {c d : ℕ → List (BytecodeOp F D)} {s r : ℕ}
      → Emits f c s
      → Emits g d r
      → Emits (λ p. g (f p)) (λ n. c n ++ d (n + s)) (s + r)
  seq-Emits {f} {g} {c} {d} {s} e h = record {
    emits = λ xs t.
        let n = length xs in
        let at : length (xs ++ c n) ≡ n + s = omega (arith, length-append xs (c n), e.sized n) in
        ap g (e.emits xs t)
        ∙ h.emits (xs ++ c n) t
        ∙ ap (λ m. program ((xs ++ c n) ++ d m) t) at
        ∙ ap (λ l. program l t) (append_assoc xs (c n) (d (n + s)));
    sized = λ n. omega (arith, length-append (c n) (d (n + s)), e.sized n, h.sized (n + s));
  }

  pub iterate-Emits :
      (k : ℕ) {f : BytecodeProgram F D → BytecodeProgram F D} {c : ℕ → List (BytecodeOp F D)}
      {s : ℕ}
      → Emits f c s
      → Emits (iterate k f) (rounds k s c) (times k s)
  iterate-Emits zero e = record {
    emits = λ xs t. ap (λ l. program l t) (sym (append_nil xs));
    sized = λ n. refl;
  }
  iterate-Emits (suc k) e = seq-Emits e (iterate-Emits k e)
