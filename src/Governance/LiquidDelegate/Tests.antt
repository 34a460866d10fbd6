-- ===== src/Governance/LiquidDelegate/Tests.antt =====
-- LiquidDelegate: the theorems where "a" delegates to "b" and "b" to "c".
use icn_covm.Prelude.{
  ◌≡◌, ◌≢◌, refl, sym, ◌↔◌, true, false, none, some, [], ◌∷◌, Text, text, ◌==◌, Dict, lookup,
  insert, member, if◌then◌else◌,
}
use icn_covm.Prelude.Actions.{ok}
use icn_covm.Governance.LiquidDelegate.{
  DelegateVm, hop, is_empty, follow, would_cycle, delegations_of, liquid_delegate,
}
use icn_covm.Governance.LiquidDelegate.Chains.{Acyclic}
use icn_covm.Governance.LiquidDelegate.Acyclicity.{
  would_cycle_iff, liquid_delegate_lem, liquid_delegate-Acyclic,
}

abbrev read_back : (d m : Dict Text) → some d ≡ some m → some m ≡ some d
read_back d m e = sym e

abbrev vm : DelegateVm (Dict Text)
vm = record { count = some 1; metadata = some ((text "b", text "c") ∷ []); events = [] }

abbrev chain : Dict Text
chain = (text "a", text "b") ∷ (text "b", text "c") ∷ []

-- Delegating from "c" to "a" is refused, and from "c" to "d" it is not.
cycle_found :
    (would_cycle (text "c") (text "a") chain ≡ true)
    × (would_cycle (text "c") (text "d") chain ≡ false)
unfolding would_cycle follow hop lookup member ◌==◌ text
cycle_found = (refl, refl)

nobody-Acyclic : Acyclic []
unfolding hop lookup
nobody-Acyclic [] = (0, refl)
nobody-Acyclic (x ∷ k) = (1, ((λ e. cc), refl))

abbrev first : DelegateVm (Dict Text)
first = record { count = none; metadata = none; events = [] }

first-Acyclic : Acyclic (delegations_of some some first)
unfolding delegations_of
first-Acyclic = nobody-Acyclic

named : text "c" ≢ []
unfolding text
named e = absurd (cc)

would_cycle_iff_example :
    (would_cycle (text "c") (text "c") [] ≡ true) ↔ (Acyclic (insert (text "c") (text "c") []) → ⊥)
would_cycle_iff_example = would_cycle_iff (text "c") (text "c") [] named nobody-Acyclic

delegates : (liquid_delegate some some (text "a") (text "b") vm).0 ≡ ok tt
unfolding liquid_delegate would_cycle follow hop lookup member ◌==◌ text
delegates = refl

liquid_delegate_lem_example :
    lookup
      (text "b")
      (delegations_of some some (liquid_delegate some some (text "a") (text "b") vm).1)
    ≡ (if text "a" == text "b"
        then if is_empty (text "b") then none else some (text "b")
        else lookup (text "b") (delegations_of some some vm))
liquid_delegate_lem_example =
    liquid_delegate_lem some some read_back (text "a") (text "b") vm (text "b") delegates

liquid_delegate-Acyclic_example :
    Acyclic (delegations_of some some (liquid_delegate some some (text "a") (text "b") first).1)
liquid_delegate-Acyclic_example =
    liquid_delegate-Acyclic some some read_back (text "a") (text "b") first first-Acyclic
