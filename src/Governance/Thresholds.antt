-- ===== src/Governance/Thresholds.antt =====
-- governance/quorum_threshold.rs and governance/vote_threshold.rs: the two handlers that compare. Of
-- f64 they use what `Floats` lists, and `at_least`, the comparison `>=`; `fixed` is the format `{:.2}`.
pub mod Checks
pub mod Tests
use icn_covm.Prelude.{Bool, ◌||◌, ◌++◌, Text, text, if◌then◌else◌}
use icn_covm.Prelude.Actions.{Action, fail_if, ◌>>=◌, ◌>>◌}
use icn_covm.Vm.Values.{Floats}
use icn_covm.Governance.Error.{GovernanceError, governance_error, Run, pop_one, push, emit}

module _ (N : Floats) (at_least : N.F → N.F → Bool) (hundred : N.F) (show_float : N.F → Text)
    (fixed : N.F → Text) where
  open N use {F}

  abbrev percent : F → Text
  percent a = fixed (N.mul a hundred) ++ text "%"

  -- the last step of both handlers
  abbrev pub verdict : Bool → Text → Run F (Unit {0})
  verdict met name =
      if met
      then push N.zero_value >> emit (name ++ text " threshold met")
      else push N.one >> emit (name ++ text " threshold not met")

  abbrev quorum_message : F → F → F → Text
  quorum_message votes_cast total_possible threshold =
      text "Quorum check: "
      ++ (show_float votes_cast
          ++ (text "/"
              ++ (show_float total_possible
                  ++ (text " = "
                      ++ (percent (N.div votes_cast total_possible)
                          ++ (text ", threshold: " ++ percent threshold))))))

  unfoldable pub quorum_threshold : F → Run F (Unit {0})
  quorum_threshold threshold = do
    fail_if (N.less threshold N.zero_value || N.less N.one threshold)
        (governance_error (text "QuorumThreshold must be between 0.0 and 1.0"))
    total_possible ← pop_one
    votes_cast ← pop_one
    fail_if (at_least N.zero_value total_possible)
        (governance_error (text "Total possible votes must be greater than zero"))
    emit (quorum_message votes_cast total_possible threshold)
    verdict (at_least (N.div votes_cast total_possible) threshold) (text "Quorum")

  unfoldable pub vote_threshold : F → Run F (Unit {0})
  vote_threshold threshold = do
    fail_if (N.less threshold N.zero_value)
        (governance_error (text "VoteThreshold must be non-negative"))
    total_votes ← pop_one
    emit (
        text "Vote threshold check: "
        ++ (fixed total_votes ++ (text " votes, threshold: " ++ fixed threshold)))
    verdict (at_least total_votes threshold) (text "Vote")
