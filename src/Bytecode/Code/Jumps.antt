-- ===== src/Bytecode/Code/Jumps.antt =====
-- `If` and `While`: the jumps that are set after the code that they jump over.
use icn_covm.Prelude.{
  ℕ, suc, ◌+◌, ◌≡◌, refl, ap, ◌∙◌, sym, List, [], ◌∷◌, ◌++◌, Dict, length, length-append, arith,
}
use icn_covm.Bytecode.{BytecodeOp, BytecodeProgram, jump, jump_if_zero}
use icn_covm.Bytecode.Compiler.{append, position, jump_here}
use icn_covm.Bytecode.Code.{length-joined}
use icn_covm.Bytecode.Code.Emitted.{
  Emits, program, append_assoc, append_nil, after-Emits, jump_here-conditional, jump_here-jump,
  length-middle,
}

module _ {F D : Type 0} where
  -- a condition, a conditional jump and a block
  abbrev pub guarded :
      (f g : BytecodeProgram F D → BytecodeProgram F D) → BytecodeProgram F D → BytecodeProgram F D
  guarded f g p = g (append (jump_if_zero 0) (f p))

  guarded_lem :
      {f g : BytecodeProgram F D → BytecodeProgram F D} {c d : ℕ → List (BytecodeOp F D)} {s r : ℕ}
      → Emits f c s
      → Emits g d r
      → (xs : List (BytecodeOp F D)) (t : Dict ℕ)
      → guarded f g (program xs t)
        ≡ program
            ((xs ++ c (length xs)) ++ jump_if_zero 0 ∷ d (suc (length (xs ++ c (length xs)))))
            t
  guarded_lem {g} {c} e h xs t =
      ap (λ p. g (append (jump_if_zero 0) p)) (e.emits xs t)
      ∙ after-Emits h (xs ++ c (length xs)) t (jump_if_zero 0)

  -- the code of a condition, a jump to `target` and a block, with what follows, at its position
  placed :
      {f : BytecodeProgram F D → BytecodeProgram F D} {c : ℕ → List (BytecodeOp F D)} {s : ℕ}
      (e : Emits f c s) (xs : List (BytecodeOp F D)) (t : Dict ℕ) (target : ℕ → ℕ)
      (d : ℕ → List (BytecodeOp F D))
      → program
          ((xs ++ c (length xs))
            ++ jump_if_zero (target (length (xs ++ c (length xs))))
              ∷ d (length (xs ++ c (length xs))))
          t
        ≡ program
            (xs ++ (c (length xs) ++ jump_if_zero (target (length xs + s)) ∷ d (length xs + s)))
            t
  placed {c} {s} e xs t target d =
      let n = length xs in
      let at : length (xs ++ c n) ≡ n + s = omega (arith, length-append xs (c n), e.sized n) in
      ap (λ j. program ((xs ++ c n) ++ jump_if_zero (target j) ∷ d j) t) at
      ∙ ap (λ l. program l t) (append_assoc xs (c n) (jump_if_zero _ ∷ d (n + s)))

  -- a conditional jump over a block and what follows it
  jumped_over :
      {g : BytecodeProgram F D → BytecodeProgram F D} {d : ℕ → List (BytecodeOp F D)} {r : ℕ}
      (h : Emits g d r) (ys : List (BytecodeOp F D)) (t : Dict ℕ) (k : List (BytecodeOp F D))
      → jump_here (length ys) (program ((ys ++ jump_if_zero 0 ∷ d (suc (length ys))) ++ k) t)
        ≡ program
            (ys ++ jump_if_zero (suc (length ys) + (r + length k)) ∷ (d (suc (length ys)) ++ k))
            t
  jumped_over {d} {r} h ys t k =
      let zs = d (suc (length ys)) in
      let long : length (zs ++ k) ≡ r + length k =
        omega (arith, length-append zs k, h.sized (suc (length ys))) in
      ap (λ l. jump_here (length ys) (program l t)) (append_assoc ys (jump_if_zero 0 ∷ zs) k)
      ∙ jump_here-conditional ys (zs ++ k) t 0
      ∙ ap (λ j. program (ys ++ jump_if_zero (suc (length ys) + j) ∷ (zs ++ k)) t) long

  pub while-Emits :
      {f g : BytecodeProgram F D → BytecodeProgram F D} {c d : ℕ → List (BytecodeOp F D)} {s r : ℕ}
      → Emits f c s
      → Emits g d r
      → Emits
          (λ p. jump_here (position (f p)) (append (jump (position p)) (guarded f g p)))
          (λ n. c n ++ jump_if_zero (suc (n + s) + (r + 1)) ∷ (d (suc (n + s)) ++ jump n ∷ []))
          (s + suc (r + 1))
  while-Emits {f} {g} {c} {d} {s} {r} e h = record {
    emits = λ xs t.
        let n = length xs in
        let ys = xs ++ c n in
        let zs = d (suc (length ys)) in
        ap (λ p. jump_here (position p) (append (jump n) (guarded f g (program xs t))))
          (e.emits xs t)
        ∙ ap (λ p. jump_here (length ys) (append (jump n) p)) (guarded_lem e h xs t)
        ∙ jumped_over h ys t (jump n ∷ [])
        ∙ placed e xs t (λ m. suc m + (r + 1)) (λ m. d (suc m) ++ jump n ∷ []);
    sized = λ n.
        length-joined (c n) (d (suc (n + s))) (jump n ∷ []) _ (e.sized n) (h.sized (suc (n + s)))
          refl;
  }

  pub if-Emits :
      {f g : BytecodeProgram F D → BytecodeProgram F D} {c d : ℕ → List (BytecodeOp F D)} {s r : ℕ}
      → Emits f c s
      → Emits g d r
      → Emits
          (λ p. jump_here (position (f p)) (guarded f g p))
          (λ n. c n ++ jump_if_zero (suc (n + s) + (r + 0)) ∷ (d (suc (n + s)) ++ []))
          (s + suc (r + 0))
  if-Emits {f} {g} {c} {d} {s} {r} e h = record {
    emits = λ xs t.
        let n = length xs in
        let ys = xs ++ c n in
        let zs = d (suc (length ys)) in
        ap (λ p. jump_here (position p) (guarded f g (program xs t))) (e.emits xs t)
        ∙ ap (jump_here (length ys)) (guarded_lem e h xs t)
        ∙ ap (λ l. jump_here (length ys) (program l t))
            (sym (append_nil (ys ++ jump_if_zero 0 ∷ zs)))
        ∙ jumped_over h ys t []
        ∙ placed e xs t (λ m. suc m + (r + 0)) (λ m. d (suc m) ++ []);
    sized =
        λ n. length-joined (c n) (d (suc (n + s))) [] _ (e.sized n) (h.sized (suc (n + s))) refl;
  }

  pub if_else-Emits :
      {f g h : BytecodeProgram F D → BytecodeProgram F D} {c d b : ℕ → List (BytecodeOp F D)}
      {s r q : ℕ}
      → Emits f c s
      → Emits g d r
      → Emits h b q
      → Emits
          (λ p.
            jump_here
              (position (guarded f g p))
              (h (jump_here (position (f p)) (append (jump 0) (guarded f g p)))))
          (λ n.
            c n
            ++ jump_if_zero (suc (suc (n + s) + r))
              ∷ (d (suc (n + s)) ++ jump (suc (suc (n + s) + r) + q) ∷ b (suc (suc (n + s) + r))))
          (s + suc (r + suc q))
  if_else-Emits {f} {g} {h} {c} {d} {b} {s} {r} {q} e i o = record {
    emits = λ xs t.
        let n = length xs in
        let ys = xs ++ c n in
        let zs = d (suc (length ys)) in
        let k = suc (length ys) + r in
        let ws = ys ++ jump_if_zero (suc k) ∷ zs in
        let at_end : length (ys ++ jump_if_zero 0 ∷ zs) ≡ k =
          length-middle ys zs (jump_if_zero 0) ∙ ap (λ j. suc (length ys) + j) (i.sized _) in
        let at_jump : length ws ≡ k =
          length-middle ys zs (jump_if_zero (suc k)) ∙ ap (λ j. suc (length ys) + j) (i.sized _) in
        let target : suc (length ys) + (r + 1) ≡ suc k = omega arith in
        ap
          (λ p.
            jump_here (position p)
              (h (jump_here (position (f (program xs t))) (append (jump 0) p))))
          (guarded_lem e i xs t)
        ∙ ap
            (λ p.
              jump_here (length (ys ++ jump_if_zero 0 ∷ zs)) (
                h (
                  jump_here (position p) (program ((ys ++ jump_if_zero 0 ∷ zs) ++ jump 0 ∷ []) t))))
            (e.emits xs t)
        ∙ ap (λ p. jump_here (length (ys ++ jump_if_zero 0 ∷ zs)) (h p))
            (jumped_over i ys t (jump 0 ∷ [])
              ∙ ap (λ j. program (ys ++ jump_if_zero j ∷ (zs ++ jump 0 ∷ [])) t) target
              ∙ ap (λ l. program l t)
                  (sym (append_assoc ys (jump_if_zero (suc k) ∷ zs) (jump 0 ∷ []))))
        ∙ ap (jump_here (length (ys ++ jump_if_zero 0 ∷ zs))) (after-Emits o ws t (jump 0))
        ∙ ap (λ j. jump_here j (program (ws ++ jump 0 ∷ b (suc (length ws))) t))
            (at_end ∙ sym at_jump)
        ∙ jump_here-jump ws (b (suc (length ws))) t 0
        ∙ ap (λ j. program (ws ++ jump (suc (length ws) + j) ∷ b (suc (length ws))) t)
            (o.sized (suc (length ws)))
        ∙ ap (λ j. program (ws ++ jump (suc j + q) ∷ b (suc j)) t) at_jump
        ∙ ap (λ l. program l t) (append_assoc ys (jump_if_zero (suc k) ∷ zs) (jump _ ∷ b (suc k)))
        ∙ placed e xs t (λ m. suc (suc m + r))
            (λ m. d (suc m) ++ jump (suc (suc m + r) + q) ∷ b (suc (suc m + r)));
    sized = λ n.
        length-joined (c n) (d (suc (n + s))) (jump _ ∷ b (suc (suc (n + s) + r))) _ (e.sized n)
          (i.sized (suc (n + s))) (ap suc (o.sized (suc (suc (n + s) + r))));
  }
