-- ===== src/Governance/Thresholds/Checks.antt =====
-- The handlers of thresholds: when they succeed, and what they leave on the stack.
use icn_covm.Prelude.{
  ◌≡◌, refl, sym, ◌∙◌, Bool, true, false, ◌||◌, List, [], ◌∷◌, Text, arith, Bool-cases, inl, inr,
}
use icn_covm.Prelude.Actions.{ok}
use icn_covm.Vm.Values.{Floats, number, is_falsey}
use icn_covm.Governance.Error.{GovernanceVm, pop_one}
use icn_covm.Governance.Thresholds.{quorum_threshold}

module _ (N : Floats) (at_least : N.F → N.F → Bool) (hundred : N.F) (show_float : N.F → Text)
    (fixed : N.F → Text) where
  open N use {F}

  -- a check that succeeded, by the shape of the stack
  split :
      (threshold : F) (stack : List F) (events : List Text)
      → N.is_zero N.zero_value ≡ true
      → N.is_zero N.one ≡ false
      → (quorum_threshold N at_least hundred show_float fixed threshold
          (record { stack = stack; events = events })).0
        ≡ ok tt
      → (total_possible : F) × (votes_cast : F) × (rest : List F) × (verdict : F) × (stack
          ≡ total_possible ∷ votes_cast ∷ rest)
        × (at_least N.zero_value total_possible ≡ false)
        × ((quorum_threshold N at_least hundred show_float fixed threshold
              (record { stack = stack; events = events })).1.stack
            ≡ verdict ∷ rest)
        × (is_falsey N (number verdict) ≡ at_least (N.div votes_cast total_possible) threshold)
  unfolding quorum_threshold pop_one is_falsey
  split threshold [] events z o h = ground arith
  split threshold (a ∷ []) events z o h = ground arith
  split threshold (total ∷ cast ∷ rest) events z o h =
      elim (Bool-cases (N.less threshold N.zero_value || N.less N.one threshold)) [
        | inl c ↦ absurd (let e = (rw (c) at h) in cc)
        | inr c ↦ elim (Bool-cases (at_least N.zero_value total)) [
          | inl d ↦ absurd (let e = (rw (c, d) at h) in cc)
          | inr d ↦ elim (Bool-cases (at_least (N.div cast total) threshold)) [
            | inl m ↦ (total, cast, rest, N.zero_value, refl, d, rw (c, d, m) refl, z ∙ sym m)
            | inr m ↦ (total, cast, rest, N.one, refl, d, rw (c, d, m) refl, o ∙ sym m)
          ]
        ]
      ]

  -- The value that a check leaves on top of the stack is read by `If` as a condition that does not
  -- hold exactly where the threshold is met: a quorum check that succeeds found two values on the
  -- stack, removed both, and left one number in their place, which is falsey if the ratio of votes
  -- cast to total votes reaches the threshold and truthy if not. It is assumed that 0 equals 0, and
  -- that 1 does not.
  pub quorum_threshold_lem :
      (threshold : F) (vm : GovernanceVm F)
      → N.is_zero N.zero_value ≡ true
      → N.is_zero N.one ≡ false
      → (quorum_threshold N at_least hundred show_float fixed threshold vm).0 ≡ ok tt
      → (total_possible : F) × (votes_cast : F) × (rest : List F) × (verdict : F) × (vm.stack
          ≡ total_possible ∷ votes_cast ∷ rest)
        × (at_least N.zero_value total_possible ≡ false)
        × ((quorum_threshold N at_least hundred show_float fixed threshold vm).1.stack
            ≡ verdict ∷ rest)
        × (is_falsey N (number verdict) ≡ at_least (N.div votes_cast total_possible) threshold)
  quorum_threshold_lem threshold vm z o h = split threshold vm.stack vm.events z o h
