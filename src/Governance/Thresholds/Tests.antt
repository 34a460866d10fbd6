-- ===== src/Governance/Thresholds/Tests.antt =====
-- Thresholds: the theorems at natural numbers for floats, with 3 votes of 4 on the stack.
use icn_covm.Prelude.{ℕ, ◌≡◌, refl, false, List, [], ◌∷◌, leb}
use icn_covm.Prelude.Decimal.{print}
use icn_covm.Prelude.Actions.{ok}
use icn_covm.Vm.Values.{number, is_falsey}
use icn_covm.Vm.Tests.{floats}
use icn_covm.Governance.Error.{GovernanceVm, pop_one}
use icn_covm.Governance.Thresholds.{quorum_threshold}
use icn_covm.Governance.Thresholds.Checks.{quorum_threshold_lem}

abbrev vm : GovernanceVm ℕ
vm = record { stack = 4 ∷ 3 ∷ []; events = [] }

passes : (quorum_threshold floats (λ a b. leb b a) 100 print print 1 vm).0 ≡ ok tt
unfolding quorum_threshold pop_one
passes = refl

quorum_threshold_lem_example :
    (total_possible : ℕ) × (votes_cast : ℕ) × (rest : List ℕ) × (verdict : ℕ) × (vm.stack
      ≡ total_possible ∷ votes_cast ∷ rest)
    × (leb total_possible 0 ≡ false)
    × ((quorum_threshold floats (λ a b. leb b a) 100 print print 1 vm).1.stack ≡ verdict ∷ rest)
    × (is_falsey floats (number verdict) ≡ leb 1 votes_cast)
quorum_threshold_lem_example =
    quorum_threshold_lem floats (λ a b. leb b a) 100 print print 1 vm refl refl passes
