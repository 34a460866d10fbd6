-- ===== src/Governance/RankedVote/Winner.antt =====
-- RankedVote: the handler takes its ballots from the stack and leaves a candidate's number.
use icn_covm.Prelude.{
  ℕ, zero, suc, ◌-◌, ◌≤◌, ◌<◌, ◌≡◌, refl, Bool, false, List, [], ◌∷◌, ◌++◌, map, replicate, length,
  length-replicate, arith, ltb,
}
use mathlib.Core.List.{append_assoc}
use icn_covm.Prelude.Actions.{ok}
use icn_covm.Governance.Error.{GovernanceVm, pop_one}
use icn_covm.Governance.RankedVote.{
  flag, run_rounds, standing, winner_of, or_zero, pop_ballot, pop_ballots, emit_rounds, ranked_vote,
}
use icn_covm.Governance.RankedVote.Rounds.{
  remaining, remaining-replicate, remaining-run_rounds, length-run_rounds, standing-finds,
}

abbrev pub final_flags : ℕ → List (List ℕ) → List Bool
final_flags candidates ballots =
    run_rounds (candidates - 1) candidates ballots (replicate candidates false)

-- With at least one candidate, whatever the ballots hold, the winner is one of the candidates and
-- was not eliminated in any round.
pub winner_stands :
    (candidates : ℕ) (ballots : List (List ℕ))
    → 1 ≤ candidates
    → (winner_of candidates ballots < candidates)
      × (flag (final_flags candidates ballots) (winner_of candidates ballots) ≡ false)
unfolding winner_of
winner_stands candidates ballots h =
    let es = final_flags candidates ballots in
    let left : 1 ≤ remaining es = omega (
      arith,
      remaining-replicate candidates,
      remaining-run_rounds (candidates - 1) candidates ballots (replicate candidates false),
    ) in
    let (w, found, inside, stands) = standing-finds es 0 left in
    let e : or_zero (standing es 0) ≡ w = rw found (omega arith) in
    rw e (
      omega (
        arith,
        length-run_rounds (candidates - 1) candidates ballots (replicate candidates false),
        length-replicate candidates false,
      ),
      stands,
    )

-- every ballot holds `n` choices
abbrev pub EachOfLength {ℓ} : {V : Type ℓ} → ℕ → List (List V) → Type 0
EachOfLength n [] = Unit
EachOfLength n (b ∷ bs) = (length b ≡ n) × EachOfLength n bs

abbrev pub concat {ℓ} : {V : Type ℓ} → List (List V) → List V
concat [] = []
concat (b ∷ bs) = b ++ concat bs

module _ {V : Type 0} (as_usize : V → ℕ) (as_f64 : ℕ → V) where
  abbrev pub with_stack : List V → GovernanceVm V → GovernanceVm V
  with_stack s vm = record vm { stack = s }

  pop_ballot_lem :
      (n : ℕ) (b rest : List V) (vm : GovernanceVm V)
      → length b ≡ n
      → pop_ballot as_usize as_f64 n (with_stack (b ++ rest) vm)
        ≡ (ok (map as_usize b), with_stack rest vm)
  unfolding pop_ballot pop_one
  pop_ballot_lem zero [] rest vm h = refl
  pop_ballot_lem zero (v ∷ b) rest vm h = absurd (omega arith)
  pop_ballot_lem (suc n) [] rest vm h = absurd (omega arith)
  pop_ballot_lem (suc n) (v ∷ b) rest vm h = rw (pop_ballot_lem n b rest vm (omega arith)) refl

  pop_ballots_lem :
      (candidates : ℕ) (bs : List (List V)) (rest : List V) (vm : GovernanceVm V)
      → EachOfLength candidates bs
      → pop_ballots as_usize as_f64 candidates (length bs) (with_stack (concat bs ++ rest) vm)
        ≡ (ok (map (map as_usize) bs), with_stack rest vm)
  unfolding pop_ballots
  pop_ballots_lem candidates [] rest vm h = refl
  pop_ballots_lem candidates (b ∷ bs) rest vm (h, hs) =
      rw
        (
          append_assoc,
          pop_ballot_lem candidates b (concat bs ++ rest) vm h,
          pop_ballots_lem candidates bs rest vm hs,
        )
        refl

  emit_rounds_lem :
      (n candidates : ℕ) (ballots : List (List ℕ)) (es : List Bool) (vm : GovernanceVm V)
      → ((emit_rounds as_usize as_f64 n candidates ballots es vm).0 ≡ ok tt)
        × ((emit_rounds as_usize as_f64 n candidates ballots es vm).1.stack ≡ vm.stack)
  unfolding emit_rounds
  emit_rounds_lem zero candidates ballots es vm = (refl, refl)
  emit_rounds_lem (suc n) candidates ballots es vm = emit_rounds_lem n candidates ballots _ _

  -- With at least two candidates and one ballot, where the stack holds whole ballots of one choice
  -- per candidate above `rest`, the call succeeds, takes exactly the ballots off the stack, and
  -- leaves the winner's number on `rest`.
  pub ranked_vote_lem :
      (candidates : ℕ) (bs : List (List V)) (rest : List V) (vm : GovernanceVm V)
      → 2 ≤ candidates
      → 1 ≤ length bs
      → EachOfLength candidates bs
      → ((ranked_vote as_usize as_f64 candidates (length bs) (with_stack (concat bs ++ rest) vm)).0
          ≡ ok tt)
        × ((ranked_vote as_usize as_f64 candidates
              (length bs)
              (with_stack (concat bs ++ rest) vm)).1.stack
            ≡ as_f64 (winner_of candidates (map (map as_usize) bs)) ∷ rest)
  unfolding ranked_vote
  ranked_vote_lem candidates bs rest vm hc hb each =
      let enough : ltb candidates 2 ≡ false = ground arith in
      let some_ballot : ltb (length bs) 1 ≡ false = ground arith in
      rw
        (
          enough,
          some_ballot,
          pop_ballots_lem candidates bs rest vm each,
          (emit_rounds_lem _ _ _ _ _).0,
          (emit_rounds_lem _ _ _ _ _).1,
        )
        (refl, refl)
