-- ===== src/Governance/RankedVote/Rounds.antt =====
-- RankedVote: what the rounds of elimination leave.
use icn_covm.Prelude.{
  ℕ, zero, suc, ◌+◌, ◌≤◌, ◌<◌, ◌≡◌, refl, Bool, true, false, some, List, [], ◌∷◌, set, replicate,
  length, arith,
}
use icn_covm.Governance.RankedVote.{flag, run_rounds, round_loser, standing}

-- how many candidates are still standing
abbrev pub remaining : List Bool → ℕ
remaining [] = 0
remaining (true ∷ bs) = remaining bs
remaining (false ∷ bs) = remaining bs + 1

pub remaining-replicate : (n : ℕ) → remaining (replicate n false) ≡ n
remaining-replicate zero = refl
remaining-replicate (suc n) = omega (arith, remaining-replicate n)

-- One elimination takes at most one candidate.
remaining-set : (es : List Bool) (i : ℕ) → remaining es ≤ remaining (set es i true) + 1
remaining-set [] i = omega arith
remaining-set (true ∷ es) zero = omega arith
remaining-set (false ∷ es) zero = omega arith
remaining-set (true ∷ es) (suc i) = omega (arith, remaining-set es i)
remaining-set (false ∷ es) (suc i) = omega (arith, remaining-set es i)

pub remaining-run_rounds :
    (n candidates : ℕ) (ballots : List (List ℕ)) (es : List Bool)
    → remaining es ≤ remaining (run_rounds n candidates ballots es) + n
unfolding run_rounds
remaining-run_rounds zero candidates ballots es = omega arith
remaining-run_rounds (suc n) candidates ballots es =
    let loser = (round_loser candidates ballots es).1 in
    omega
      (arith, remaining-set es loser, remaining-run_rounds n candidates ballots (set es loser true))

length-set_flag : (es : List Bool) (i : ℕ) → length (set es i true) ≡ length es
length-set_flag [] i = refl
length-set_flag (e ∷ es) zero = refl
length-set_flag (e ∷ es) (suc i) = omega (arith, length-set_flag es i)

pub length-run_rounds :
    (n candidates : ℕ) (ballots : List (List ℕ)) (es : List Bool)
    → length (run_rounds n candidates ballots es) ≡ length es
unfolding run_rounds
length-run_rounds zero candidates ballots es = refl
length-run_rounds (suc n) candidates ballots es =
    let loser = (round_loser candidates ballots es).1 in
    omega
      (arith, length-run_rounds n candidates ballots (set es loser true), length-set_flag es loser)

flag-set : (es : List Bool) (i j : ℕ) → flag es j ≡ true → flag (set es i true) j ≡ true
flag-set [] i j h = h
flag-set (e ∷ es) zero zero h = refl
flag-set (e ∷ es) zero (suc j) h = h
flag-set (e ∷ es) (suc i) zero h = h
flag-set (e ∷ es) (suc i) (suc j) h = flag-set es i j h

-- Who is eliminated stays eliminated.
pub flag-run_rounds :
    (n candidates : ℕ) (ballots : List (List ℕ)) (es : List Bool) (j : ℕ)
    → flag es j ≡ true
    → flag (run_rounds n candidates ballots es) j ≡ true
unfolding run_rounds
flag-run_rounds zero candidates ballots es j h = h
flag-run_rounds (suc n) candidates ballots es j h =
    flag-run_rounds n candidates ballots _ j (flag-set es (round_loser candidates ballots es).1 j h)

-- While somebody stands, `standing` finds the first: inside the list, and not eliminated.
pub standing-finds :
    (es : List Bool) (i : ℕ)
    → 1 ≤ remaining es
    → (w : ℕ) × (standing es i ≡ some (i + w)) × (w < length es) × (flag es w ≡ false)
unfolding standing
standing-finds [] i h = absurd (omega arith)
standing-finds (false ∷ es) i h = (0, ground arith, omega arith, refl)
standing-finds (true ∷ es) i h =
    let (w, found, inside, stands) = standing-finds es (i + 1) h in
    (suc w, ground arith, omega arith, stands)
