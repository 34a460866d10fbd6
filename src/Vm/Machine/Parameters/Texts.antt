-- ===== src/Vm/Machine/Parameters/Texts.antt =====
-- The parameters of a run: the texts that are got after they are set.
use icn_covm.Prelude.{
  ℕ, ◌+◌, ◌≤◌, ◌≡◌, ◌⊎◌, refl, false, Option, none, some, [], ◌∷◌, Text, text, ◌==◌, Dict, lookup,
  lookup-insert, map, Bool-cases, Option-cases, inl, inr, arith, eq_of_==, ==_iff,
}
use icn_covm.Prelude.Actions.{Result, ok, err, ok_or}
use icn_covm.Vm.Error.{VmError, undefined_parameter}
use icn_covm.Vm.Values.{Floats}
use icn_covm.Vm.Memory.{store_param, get_parameter}
use icn_covm.Vm.Machine.{Vm}
use icn_covm.Vm.Machine.Parameters.{
  lower, same_word, parameter_value, parameter_text, set_parameters,
}

-- `t` is the word `w` of small letters, letter by letter the same or the capital, 32 below.
abbrev pub Spells : Text → Text → Type 0
Spells [] [] = Unit
Spells [] (d ∷ w) = ⊥
Spells (c ∷ t) [] = ⊥
Spells (c ∷ t) (d ∷ w) = ((c ≡ d) ⊎ (c + 32 ≡ d)) × Spells t w

abbrev IsSmall : Text → Type 0
IsSmall [] = Unit
IsSmall (d ∷ w) = ((97 ≤ d) × (d ≤ 122)) × IsSmall w

same_letter : (c d : ℕ) → 97 ≤ d → d ≤ 122 → lower c ≡ lower d → (c ≡ d) ⊎ (c + 32 ≡ d)
same_letter c d h k e = ground arith

letter_same : (c d : ℕ) → 97 ≤ d → d ≤ 122 → (c ≡ d) ⊎ (c + 32 ≡ d) → lower c ≡ lower d
letter_same c d h k e = ground arith

equal-Spells : (t w : Text) → IsSmall w → map lower t ≡ map lower w → Spells t w
equal-Spells [] [] s e = tt
equal-Spells [] (d ∷ w) s e = absurd (cc)
equal-Spells (c ∷ t) [] s e = absurd (cc)
equal-Spells (c ∷ t) (d ∷ w) ((h, k), s) e = (same_letter c d h k (cc), equal-Spells t w s (cc))

Spells-equal : (t w : Text) → IsSmall w → Spells t w → map lower t ≡ map lower w
Spells-equal [] [] s p = refl
Spells-equal [] (d ∷ w) s p = absurd p
Spells-equal (c ∷ t) [] s p = absurd p
Spells-equal (c ∷ t) (d ∷ w) ((h, k), s) (l, p) =
    let a = letter_same c d h k l in let b = Spells-equal t w s p in cc

not_spelled : (t w : Text) → IsSmall w → same_word t w ≡ false → Spells t w → ⊥
not_spelled t w s e p =
    let same = (==_iff (map lower t) (map lower w)).1 (Spells-equal t w s p) in cc

true-IsSmall : IsSmall (text "true")
unfolding text
true-IsSmall = omega arith

false-IsSmall : IsSmall (text "false")
unfolding text
false-IsSmall = omega arith

module _ (N : Floats) where
  open N use {F}

  -- the text that a parameter given as `t` is kept as
  pub data KeptAs (t : Text) : Text → Type 0 where
    as_true : Spells t (text "true") → KeptAs t (text "true")
    as_false : Spells t (text "false") → KeptAs t (text "false")
    as_printed_number :
        (Spells t (text "true") → ⊥)
        → (Spells t (text "false") → ⊥)
        → (n : F) → N.parse t ≡ some n
        → KeptAs t (N.print n)
    as_itself :
        (Spells t (text "true") → ⊥) → (Spells t (text "false") → ⊥) → N.parse t ≡ none → KeptAs t t

  -- what is got, given what is set under the name and what was there
  pub data Got (name : Text) : Option Text → Option Text → Result VmError Text → Type 0 where
    set_now :
        {t kept : Text} {before : Option Text} → KeptAs t kept → Got name (some t) before (ok kept)
    set_before : {t : Text} → Got name none (some t) (ok t)
    never_set : Got name none none (err (undefined_parameter name))

  parameter_text-KeptAs : (t : Text) → KeptAs t (parameter_text N (parameter_value N t))
  unfolding parameter_text parameter_value
  parameter_text-KeptAs t = elim (Bool-cases (same_word t (text "true"))) [
    | inl a ↦ rw (a) (as_true (equal-Spells t (text "true") true-IsSmall (eq_of_== _ _ a)))
    | inr a ↦ elim (Bool-cases (same_word t (text "false"))) [
      | inl b ↦ rw (a, b) (as_false (equal-Spells t (text "false") false-IsSmall (eq_of_== _ _ b)))
      | inr b ↦
          let not_true = not_spelled t (text "true") true-IsSmall a in
          let not_false = not_spelled t (text "false") false-IsSmall b in
          elim (Option-cases (N.parse t)) [
            | inl e ↦ rw (a, b, e) (as_itself not_true not_false e)
            | inr (n, e) ↦ rw (a, b, e) (as_printed_number not_true not_false n e)
          ]
    ]
  ]

  Got-before :
      (name : Text) (before : Option Text)
      → Got name none before (ok_or before (undefined_parameter name))
  Got-before name none = never_set
  Got-before name (some t) = set_before

  module _ {D S J : Type 0} where
    -- After parameters are set, each of them is got as the word "true" or "false" if it spells it in
    -- small letters or capitals, or else as the printed number if it parses as one, or else as the
    -- text that was given. Another parameter is got as the text it had before, and it is an error
    -- if it had none.
    pub get_parameter-set_parameters :
        (parameters : Dict Text) (vm : Vm F D S J) (name : Text)
        → Got name
            (lookup name parameters)
            (lookup name vm.memory.parameters)
            (get_parameter name (set_parameters N parameters vm).memory)
    unfolding set_parameters store_param get_parameter lookup
    get_parameter-set_parameters [] vm name = Got-before name (lookup name vm.memory.parameters)
    get_parameter-set_parameters ((key, t) ∷ rest) vm name = elim (Bool-cases (key == name)) [
      | inl e ↦ rw (lookup-insert, e) (set_now (parameter_text-KeptAs t))
      | inr e ↦ rw (lookup-insert, e) (get_parameter-set_parameters rest vm name)
    ]
