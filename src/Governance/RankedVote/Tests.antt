-- ===== src/Governance/RankedVote/Tests.antt =====
-- RankedVote: the theorems at an election of three candidates with two ballots.
use icn_covm.Prelude.{ℕ, ◌<◌, ◌≡◌, ◌≢◌, refl, false, List, [], ◌∷◌, ◌++◌, map, arith}
use icn_covm.Prelude.Actions.{ok}
use icn_covm.Governance.Error.{GovernanceVm}
use icn_covm.Governance.RankedVote.{
  flag, count_ballot, count_votes, fewest, round_loser, run_rounds, standing, winner_of,
  ranked_vote,
}
use icn_covm.Governance.RankedVote.Winner.{
  final_flags, winner_stands, concat, with_stack, ranked_vote_lem,
}
use icn_covm.Governance.RankedVote.Unanimous.{unanimous_loses}

-- Both ballots rank candidate 1 first.
abbrev ballots : List (List ℕ)
ballots = (1 ∷ 0 ∷ 2 ∷ []) ∷ (1 ∷ 2 ∷ 0 ∷ []) ∷ []

abbrev vm : GovernanceVm ℕ
vm = record { stack = []; events = [] }

-- Candidate 1, whom everybody ranks first, is eliminated, and so is one of those who follow.
winner_of-ballots : winner_of 3 ballots ≡ 2
unfolding winner_of run_rounds round_loser fewest count_votes count_ballot standing
winner_of-ballots = refl

winner_stands_example :
    (winner_of 3 ballots < 3) × (flag (final_flags 3 ballots) (winner_of 3 ballots) ≡ false)
winner_stands_example = winner_stands 3 ballots (omega arith)

ranked_vote_lem_example :
    ((ranked_vote
        (λ n. n)
        (λ n. n)
        3
        2
        (with_stack (λ n. n) (λ n. n) (concat ballots ++ 9 ∷ []) vm)).0
      ≡ ok tt)
    × ((ranked_vote
          (λ n. n)
          (λ n. n)
          3
          2
          (with_stack (λ n. n) (λ n. n) (concat ballots ++ 9 ∷ []) vm)).1.stack
        ≡ winner_of 3 (map (map (λ n. n)) ballots) ∷ 9 ∷ [])
ranked_vote_lem_example =
    ranked_vote_lem (λ n. n) (λ n. n) 3 ballots (9 ∷ []) vm (omega arith) (omega arith)
      (refl, (refl, tt))

unanimous_loses_example : winner_of 3 ballots ≢ 1
unanimous_loses_example =
    unanimous_loses 3 1 ballots (omega arith) (omega arith) (omega arith) (refl, (refl, tt))
