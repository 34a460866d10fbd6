-- ===== src/Governance/RankedVote.antt =====
-- governance/ranked_vote.rs: the RankedVote handler. `as_usize` is Rust's cast of a stack value to
-- usize, and `as_f64` the cast back.
pub mod Rounds
pub mod Winner
pub mod Unanimous
pub mod Tests
use icn_covm.Prelude.{
  ℕ, zero, suc, ◌+◌, ◌-◌, ◌≡◌, Bool, true, false, not, ◌&&◌, Option, none, some, List, [], ◌∷◌,
  ◌++◌, Text, text, if◌then◌else◌, ltb, set, replicate, length,
}
use icn_covm.Prelude.Decimal.{print}
use icn_covm.Prelude.Actions.{Result, ok, err, Action, pure, fail_if, modify, resume, ◌>>=◌, ◌>>◌}
use icn_covm.Governance.Error.{
  GovernanceError, governance_error, GovernanceVm, Run, pop_one, push, emit,
}

-- `v[i]` of a `Vec<bool>`, read only inside its bounds
abbrev pub flag : List Bool → ℕ → Bool
flag [] i = false
flag (b ∷ bs) zero = b
flag (b ∷ bs) (suc i) = flag bs i

-- `votes[i] += 1`
abbrev pub bump : ℕ → List ℕ → List ℕ
bump i [] = []
bump zero (v ∷ vs) = (v + 1) ∷ vs
bump (suc i) (v ∷ vs) = v ∷ bump i vs

-- The inner loop of the count: the first choice that is a candidate still standing gets the vote.
count_ballot : ℕ → List Bool → List ℕ → List ℕ → List ℕ
count_ballot candidates eliminated [] votes = votes
count_ballot candidates eliminated (choice ∷ ballot) votes =
    let rest = count_ballot candidates eliminated ballot votes in
    if ltb choice candidates && not (flag eliminated choice) then bump choice votes else rest

unfoldable pub count_votes : ℕ → List Bool → List (List ℕ) → List ℕ → List ℕ
unfolding count_ballot
count_votes candidates eliminated [] votes = votes
count_votes candidates eliminated (ballot ∷ ballots) votes =
    count_votes candidates eliminated ballots (count_ballot candidates eliminated ballot votes)

-- The scan for the candidate with the fewest votes, from candidate `i` on; the pair is `min_votes`
-- and `min_candidate`. Candidates without a vote are passed over.
unfoldable pub fewest : List ℕ → List Bool → ℕ → ℕ × ℕ → ℕ × ℕ
fewest [] eliminated i best = best
fewest (v ∷ votes) eliminated i (min_votes, min_candidate) = fewest votes eliminated (i + 1) (
    if not (flag eliminated i) && (ltb v min_votes && ltb 0 v)
    then (v, i)
    else (min_votes, min_candidate))

-- one pass of the `while remaining_candidates > 1` loop: who is eliminated, and with how many votes
unfoldable pub round_loser : ℕ → List (List ℕ) → List Bool → ℕ × ℕ
unfolding fewest count_votes
round_loser candidates ballots eliminated =
    fewest (count_votes candidates eliminated ballots (replicate candidates 0)) eliminated 0
      (length ballots + 1, 0)

-- The loop runs `remaining_candidates - 1` times, since each pass lowers that by one.
unfoldable pub run_rounds : ℕ → ℕ → List (List ℕ) → List Bool → List Bool
run_rounds zero candidates ballots eliminated = eliminated
run_rounds (suc n) candidates ballots eliminated =
    run_rounds n candidates ballots
      (set eliminated (round_loser candidates ballots eliminated).1 true)

-- `eliminated.iter().position(|&e| !e)`, from index `i` on
unfoldable pub standing : List Bool → ℕ → Option ℕ
standing [] i = none
standing (b ∷ bs) i = let rest = standing bs (i + 1) in if b then rest else some i

abbrev pub or_zero : Option ℕ → ℕ
or_zero none = 0
or_zero (some n) = n

unfoldable pub winner_of : ℕ → List (List ℕ) → ℕ
unfolding standing run_rounds
winner_of candidates ballots =
    or_zero
      (standing (run_rounds (candidates - 1) candidates ballots (replicate candidates false)) 0)

module _ {V : Type 0} (as_usize : V → ℕ) (as_f64 : ℕ → V) where
  -- a ballot's choices, in the order in which they are popped
  unfoldable pub pop_ballot : ℕ → Run V (List ℕ)
  pop_ballot zero = pure []
  pop_ballot (suc n) = do choice ← pop_one; rest ← pop_ballot n; pure (as_usize choice ∷ rest)

  unfoldable pub pop_ballots : ℕ → ℕ → Run V (List (List ℕ))
  pop_ballots candidates zero = pure []
  pop_ballots candidates (suc n) = do
    ballot ← pop_ballot candidates
    rest ← pop_ballots candidates n
    pure (ballot ∷ rest)

  -- the events of the rounds, in order
  emit_rounds : ℕ → ℕ → List (List ℕ) → List Bool → Run V (Unit {0})
  emit_rounds zero candidates ballots eliminated = pure tt
  emit_rounds (suc n) candidates ballots eliminated = do
    let loser = round_loser candidates ballots eliminated
    emit (
        text "Eliminated candidate "
        ++ (print loser.1 ++ (text " with " ++ (print loser.0 ++ text " votes"))))
    emit_rounds n candidates ballots (set eliminated loser.1 true)

  unfoldable pub ranked_vote : ℕ → ℕ → Run V (Unit {0})
  unfolding emit_rounds
  ranked_vote candidates ballots = do
    fail_if (ltb candidates 2) (governance_error (text "RankedVote requires at least 2 candidates"))
    fail_if (ltb ballots 1) (governance_error (text "RankedVote requires at least 1 ballot"))
    all_ballots ← pop_ballots candidates ballots
    emit (
        text "Running ranked-choice vote with "
        ++ (print candidates ++ (text " candidates and " ++ (print ballots ++ text " ballots"))))
    emit_rounds (candidates - 1) candidates all_ballots (replicate candidates false)
    emit (
        text "Winner of ranked-choice vote: candidate " ++ print (winner_of candidates all_ballots))
    push (as_f64 (winner_of candidates all_ballots))
