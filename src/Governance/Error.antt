-- ===== src/Governance/Error.antt =====
-- vm/errors.rs: the variants of `VMError` that the governance operations return, and the state that
-- they act on.
use icn_covm.Prelude.{List, [], ◌∷◌, ◌++◌, Text}
use icn_covm.Prelude.Actions.{Result, ok, err, Action, modify}

pub data GovernanceError : Type 0 where
  stack_underflow : GovernanceError
  governance_error : Text → GovernanceError
  deserialization : Text → GovernanceError

-- The part of the VM that a governance operation touches: the stack, top first, over the type `V` of
-- its values (f64 in the source), and the messages of the "governance" events, oldest first.
pub record GovernanceVm (V : Type 0) : Type 0 where
  pub stack : List V
  pub events : List Text

abbrev pub Run : Type 0 → Type 0 → Type 0
Run V = Action (GovernanceVm V) GovernanceError

module _ {V : Type 0} where
  abbrev pub pop_from : List V → GovernanceVm V → Result GovernanceError V × GovernanceVm V
  pop_from [] vm = (err stack_underflow, vm)
  pop_from (v ∷ rest) vm = (ok v, record vm { stack = rest })

  unfoldable pub pop_one : Run V V
  pop_one vm = pop_from vm.stack vm

  abbrev pub push : V → Run V (Unit {0})
  push v = modify (λ vm. record vm { stack = v ∷ vm.stack })

  abbrev pub emit : Text → Run V (Unit {0})
  emit message = modify (λ vm. record vm { events = vm.events ++ message ∷ [] })
