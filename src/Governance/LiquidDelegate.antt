-- ===== src/Governance/LiquidDelegate.antt =====
-- governance/liquid_delegate.rs: the LiquidDelegate handler.
pub mod Chains
pub mod Search
pub mod Acyclicity
pub mod Tests
use icn_covm.Prelude.{
  ℕ, zero, suc, ◌+◌, Bool, true, false, Option, none, some, List, [], ◌∷◌, ◌++◌, Text, text, Dict,
  lookup, insert, remove, is_some, member, if◌then◌else◌, length,
}
use icn_covm.Prelude.Actions.{
  Result, ok, err, Action, pure, gets, modify, lift, fail, ok_or, ◌>>=◌, ◌>>◌,
}
use icn_covm.Governance.Error.{GovernanceError, governance_error, deserialization}

-- The part of the VM that the handler touches. `M` is the type of the metadata texts, `count` what
-- is stored in memory under "governance_delegations", and `metadata` the text under that name.
pub record DelegateVm (M : Type 0) : Type 0 where
  pub count : Option ℕ
  pub metadata : Option M
  pub events : List Text

-- `unwrap_or_default`
abbrev pub or_empty : Option Text → Text
or_empty none = []
or_empty (some t) = t

abbrev pub is_empty : Text → Bool
is_empty [] = true
is_empty (c ∷ t) = false

-- whom `k` delegates to, the empty text if nobody
unfoldable pub hop : Dict Text → Text → Text
hop delegations k = or_empty (lookup k delegations)

-- The `while !current.is_empty()` loop: `some true` where it meets a visited name, `some false`
-- where the chain ends, `none` where the fuel runs out.
unfoldable pub follow : ℕ → List Text → Text → Dict Text → Option Bool
follow zero visited current delegations = none
follow (suc fuel) visited current delegations =
    let rest = follow fuel (current ∷ visited) (hop delegations current) delegations in
    if is_empty current then some false else if member current visited then some true else rest

abbrev pub or_false : Option Bool → Bool
or_false none = false
or_false (some b) = b

-- Every pass but the last two visits a new delegator, so there are at most two more than delegations.
unfoldable pub would_cycle : Text → Text → Dict Text → Bool
unfolding follow
would_cycle from to delegations =
    or_false (follow (length delegations + 2) (from ∷ []) to delegations)

module _ {M : Type 0} (to_json : Dict Text → Option M) (from_json : M → Option (Dict Text)) where
  abbrev parsed : Option M → Dict Text
  parsed none = []
  parsed (some m) = elim (from_json m) [ none ↦ [] | some d ↦ d ]

  -- the delegations that the memory and the metadata hold
  abbrev loaded : Option ℕ → Option M → Dict Text
  loaded none metadata = []
  loaded (some n) metadata = parsed metadata

  unfoldable pub delegations_of : DelegateVm M → Dict Text
  delegations_of vm = loaded vm.count vm.metadata

  abbrev emit : Text → Action (DelegateVm M) GovernanceError (Unit {0})
  emit message = modify (λ vm. record vm { events = vm.events ++ message ∷ [] })

  -- the map after the call, or the error
  abbrev change : Text → Text → Dict Text → Action (DelegateVm M) GovernanceError (Dict Text)
  change from [] delegations =
      emit (
        if is_some (lookup from delegations)
        then text "Delegation revoked for " ++ from
        else text "No delegation found to revoke for " ++ from)
      >> pure (remove from delegations)
  change from (c ∷ to) delegations =
      if would_cycle from (c ∷ to) delegations
      then fail (
          governance_error (
            text "Delegation from "
            ++ (from ++ (text " to " ++ ((c ∷ to) ++ text " would create a cycle")))))
      else (emit (text "Delegation created from " ++ (from ++ (text " to " ++ (c ∷ to))))
          >> pure (insert from (c ∷ to) delegations))

  abbrev store : Dict Text → M → Action (DelegateVm M) GovernanceError (Unit {0})
  store delegations serialized =
      modify (λ vm. record vm { metadata = some serialized; count = some (length delegations) })

  unfoldable pub liquid_delegate : Text → Text → Action (DelegateVm M) GovernanceError (Unit {0})
  unfolding delegations_of
  liquid_delegate [] to =
      fail (governance_error (text "LiquidDelegate requires a non-empty 'from' parameter"))
  liquid_delegate (c ∷ from) to = do
    delegations ← gets delegations_of
    changed ← change (c ∷ from) to delegations
    serialized ←
        lift (ok_or (to_json changed) (deserialization (text "Failed to serialize delegations")))
    store changed serialized
