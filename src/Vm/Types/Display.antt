-- ===== src/Vm/Types/Display.antt =====
-- vm/types.rs: the text of an operation, given those of a float, a value, an amount and a duration.
use icn_covm.Prelude.{Option, Text, text, ◌++◌}
use icn_covm.Prelude.Decimal.{print}
use icn_covm.Vm.Values.{Floats, to_text}
use icn_covm.Vm.Types.{
  Op, push, add, sub, mul, div, modulo, store, load, if_op, loop_op, while_op, emit, negate,
  assert_top, dump_stack, dump_memory, assert_memory, pop, eq, gt, lt, not_op, and_op, or_op, dup,
  swap, over, def, call, return_op, nop, match_op, break_op, continue_op, emit_event,
  assert_equal_stack, dump_state, ranked_vote, liquid_delegate, vote_threshold, quorum_threshold,
  min_deliberation, expires_in, require_role, store_p, load_p, load_version_p, list_versions_p,
  diff_versions_p, verify_identity, check_membership, check_delegation, verify_signature,
  create_resource, mint, transfer, burn, balance, get_identity, require_valid_signature, if_passed,
  else_op, increment_reputation, macro,
}

abbrev pub wrapped : Text → Text → Text
wrapped name argument = name ++ (text "(" ++ (argument ++ text ")"))

module _ (N : Floats) {D : Type 0} (debug_amount : Option N.F → Text)
    (debug_duration : D → Text) where
  open N use {F}

  -- `Display`
  unfoldable pub show_op : Op F D → Text
  show_op (push v) = wrapped (text "Push") (to_text N v)
  show_op add = text "Add"
  show_op sub = text "Sub"
  show_op mul = text "Mul"
  show_op div = text "Div"
  show_op modulo = text "Mod"
  show_op (store name) = wrapped (text "Store") name
  show_op (load name) = wrapped (text "Load") name
  show_op (if_op _ _ _) = text "If"
  show_op (loop_op count _) = wrapped (text "Loop") (print count)
  show_op (while_op _ _) = text "While"
  show_op (emit message) = wrapped (text "Emit") message
  show_op negate = text "Negate"
  show_op (assert_top v) = wrapped (text "AssertTop") (to_text N v)
  show_op dump_stack = text "DumpStack"
  show_op dump_memory = text "DumpMemory"
  show_op (assert_memory key v) = wrapped (text "AssertMemory") (key ++ (text ", " ++ to_text N v))
  show_op pop = text "Pop"
  show_op eq = text "Eq"
  show_op gt = text "Gt"
  show_op lt = text "Lt"
  show_op not_op = text "Not"
  show_op and_op = text "And"
  show_op or_op = text "Or"
  show_op dup = text "Dup"
  show_op swap = text "Swap"
  show_op over = text "Over"
  show_op (def name _ _) = wrapped (text "Def") name
  show_op (call name) = wrapped (text "Call") name
  show_op return_op = text "Return"
  show_op nop = text "Nop"
  show_op (match_op _ _ _) = text "Match"
  show_op break_op = text "Break"
  show_op continue_op = text "Continue"
  show_op (emit_event category message) =
      wrapped (text "EmitEvent") (category ++ (text ", " ++ message))
  show_op (assert_equal_stack depth) = wrapped (text "AssertEqualStack") (print depth)
  show_op dump_state = text "DumpState"
  show_op (ranked_vote candidates ballots) =
      wrapped (text "RankedVote")
        (print candidates ++ (text " candidates, " ++ (print ballots ++ text " ballots")))
  show_op (liquid_delegate from to) = wrapped (text "LiquidDelegate") (from ++ (text " -> " ++ to))
  show_op (vote_threshold threshold) = wrapped (text "VoteThreshold") (N.print threshold)
  show_op (quorum_threshold threshold) = wrapped (text "QuorumThreshold") (N.print threshold)
  show_op (min_deliberation period) = wrapped (text "MinDeliberation") (debug_duration period)
  show_op (expires_in period) = wrapped (text "ExpiresIn") (debug_duration period)
  show_op (require_role role) = wrapped (text "RequireRole") role
  show_op (store_p key) = wrapped (text "StoreP") key
  show_op (load_p key) = wrapped (text "LoadP") key
  show_op (load_version_p key version) =
      wrapped (text "LoadVersionP") (key ++ (text ", v" ++ print version))
  show_op (list_versions_p key) = wrapped (text "ListVersionsP") key
  show_op (diff_versions_p key v1 v2) =
      wrapped (text "DiffVersionsP") (key ++ (text ", v" ++ (print v1 ++ (text ", v" ++ print v2))))
  show_op (verify_identity identity_id _ _) = wrapped (text "VerifyIdentity") identity_id
  show_op (check_membership identity_id namespace) =
      wrapped (text "CheckMembership") (identity_id ++ (text ", " ++ namespace))
  show_op (check_delegation delegator_id delegate_id) =
      wrapped (text "CheckDelegation") (delegator_id ++ (text " -> " ++ delegate_id))
  show_op verify_signature = text "VerifySignature"
  show_op (create_resource resource) = wrapped (text "CreateResource") resource
  show_op (mint resource account amount _) =
      wrapped (text "Mint")
        (N.print amount ++ (text " of " ++ (resource ++ (text " to " ++ account))))
  show_op (transfer resource from to amount _) = wrapped (text "Transfer") (
      N.print amount
      ++ (text " of " ++ (resource ++ (text " from " ++ (from ++ (text " to " ++ to))))))
  show_op (burn resource account amount _) =
      wrapped (text "Burn")
        (N.print amount ++ (text " of " ++ (resource ++ (text " from " ++ account))))
  show_op (balance resource account) =
      wrapped (text "Balance") (resource ++ (text " for " ++ account))
  show_op (get_identity id) = wrapped (text "GetIdentity") id
  show_op (require_valid_signature voter _ _) = wrapped (text "RequireValidSignature") voter
  show_op (if_passed _) = text "IfPassed"
  show_op (else_op _) = text "Else"
  show_op (increment_reputation identity_id amount _) =
      wrapped (text "IncrementReputation") (identity_id ++ (text ", " ++ debug_amount amount))
  show_op (macro name) = wrapped (text "Macro") name
