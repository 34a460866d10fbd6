-- ===== src/Governance/ProposalLifecycle/Tests.antt =====
-- ProposalLifecycle: the theorems at one proposal.
use icn_covm.Prelude.{
  ℕ, ◌+◌, ◌*◌, ◌≤◌, ◌≡◌, ◌≢◌, refl, true, none, some, List, [], ◌∷◌, text, ◌⊎◌, inl, arith,
}
use icn_covm.Storage.Identity.{Identity}
use icn_covm.Governance.ProposalLifecycle.{
  draft, open_feedback, voting, executed, ProposalLifecycle, equal, no_quorum, open_for_feedback,
  start_voting, execute, reject, update_version, Call, opens, starts_voting, executes, rejects,
  updates, perform, perform_all, new, new_backwards_compatible,
}
use icn_covm.Governance.ProposalLifecycle.Moves.{Trail, perform_all-Trail}
use icn_covm.Governance.ProposalLifecycle.Voting.{
  start_voting-period, execute-late, threshold_wraps,
}

abbrev creator : Identity ℕ
creator = record {
  did = text "al";
  public_key_bytes = [];
  private_key_bytes = none;
  public_key_multibase = [];
  profile = record { public_username = text "al"; full_name = none; other_fields = [] };
  identity_type = text "member";
}

abbrev fresh : ProposalLifecycle ℕ
fresh = new 10 (text "p") creator (text "t") no_quorum 50 equal none none

abbrev opened : ProposalLifecycle ℕ
opened = record (open_for_feedback 11 fresh) { min_voting_period = some 100 }

abbrev in_vote : ProposalLifecycle ℕ
in_vote = start_voting 12 12 13 30 opened

abbrev calls : List Call
calls =
    opens 11
    ∷ updates 12
    ∷ executes 13 13
    ∷ starts_voting 14 14 14 5
    ∷ executes 15 15
    ∷ executes 20 20
    ∷ rejects 21
    ∷ []

-- The first two calls of `execute` come too early.
calls_end : (perform_all calls fresh).state ≡ executed
unfolding perform_all perform new open_for_feedback start_voting execute reject update_version
calls_end = refl

fresh-Trail : Trail draft fresh.history fresh.state
unfolding new
fresh-Trail = (inl refl, refl)

perform_all-Trail_example :
    Trail draft (perform_all calls fresh).history (perform_all calls fresh).state
perform_all-Trail_example = perform_all-Trail calls fresh fresh-Trail

abbrev done : ProposalLifecycle ℕ
done = record fresh { state = executed }

opened_state : opened.state ≡ open_feedback
unfolding new open_for_feedback
opened_state = refl

start_voting-period_example :
    (e : ℕ) × (in_vote.expires_at ≡ some e) × (12 + 100 ≤ e) × (12 + 30 ≤ e)
start_voting-period_example =
    start_voting-period 12 12 13 30 100 opened opened_state refl (omega arith)

in_vote_open : in_vote.state ≢ executed
unfolding new open_for_feedback start_voting
in_vote_open e = absurd (cc)

in_vote_ends : in_vote.expires_at ≡ some 112
unfolding new open_for_feedback start_voting
in_vote_ends = refl

in_vote_executes : (execute 120 121 in_vote).state ≡ executed
unfolding new open_for_feedback start_voting execute
in_vote_executes = refl

execute-late_example :
    (in_vote.state ≡ voting) × ((in_vote.allow_early_execution ≡ true) ⊎ (112 ≤ 120))
execute-late_example = execute-late 120 121 112 in_vote in_vote_open in_vote_ends in_vote_executes

threshold_wraps_example :
    (new_backwards_compatible 1
      (text "p")
      creator
      (text "t")
      60
      (256 * 1 + 0)
      none
      none).approval_threshold
    ≡ 0
threshold_wraps_example =
    threshold_wraps 1 (text "p") creator (text "t") 60 1 0 none none (omega arith)
