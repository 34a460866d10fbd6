-- ===== src/Governance/RankedVote/Unanimous.antt =====
-- RankedVote: an election in which every ballot ranks the same candidate first.
use icn_covm.Prelude.{
  ℕ, zero, suc, ◌+◌, ◌-◌, ◌≤◌, ◌<◌, ◌≡◌, ◌≢◌, refl, sym, ap, ◌∙◌, Bool, true, false, List, [], ◌∷◌,
  ltb, set, replicate, length, length-replicate, arith,
}
use icn_covm.Governance.RankedVote.{
  flag, bump, count_ballot, count_votes, fewest, round_loser, run_rounds, winner_of,
}
use icn_covm.Governance.RankedVote.Rounds.{flag-run_rounds}
use icn_covm.Governance.RankedVote.Winner.{winner_stands, final_flags}

-- the first choice of every ballot is `c`
abbrev pub AllRankFirst : ℕ → List (List ℕ) → Type 0
AllRankFirst c [] = Unit
AllRankFirst c ([] ∷ ballots) = ⊥
AllRankFirst c ((choice ∷ ballot) ∷ ballots) = (choice ≡ c) × AllRankFirst c ballots

-- the tally of `n` candidates in which only candidate `c` has votes, `k` of them
abbrev single : ℕ → ℕ → ℕ → List ℕ
single zero c k = []
single (suc n) zero k = k ∷ replicate n 0
single (suc n) (suc c) k = 0 ∷ single n c k

no_votes : (n c : ℕ) → replicate n 0 ≡ single n c 0
no_votes zero c = refl
no_votes (suc n) zero = refl
no_votes (suc n) (suc c) = ap (λ vs. 0 ∷ vs) (no_votes n c)

bump-single : (n c k : ℕ) → bump c (single n c k) ≡ single n c (k + 1)
bump-single zero zero k = refl
bump-single zero (suc c) k = refl
bump-single (suc n) zero k = refl
bump-single (suc n) (suc c) k = ap (λ vs. 0 ∷ vs) (bump-single n c k)

flag-replicate : (n i : ℕ) → flag (replicate n false) i ≡ false
flag-replicate zero i = refl
flag-replicate (suc n) zero = refl
flag-replicate (suc n) (suc i) = flag-replicate n i

count_ballot-first :
    (n c k : ℕ) (ballot : List ℕ)
    → c < n
    → count_ballot n (replicate n false) (c ∷ ballot) (single n c k) ≡ single n c (k + 1)
unfolding count_ballot
count_ballot-first n c k ballot h =
    let inside : ltb c n ≡ true = ground arith in
    rw (inside, flag-replicate n c) (bump-single n c k)

count_votes-unanimous :
    (n c k : ℕ) (ballots : List (List ℕ))
    → c < n
    → AllRankFirst c ballots
    → count_votes n (replicate n false) ballots (single n c k) ≡ single n c (k + length ballots)
unfolding count_votes
count_votes-unanimous n c k [] h first = ap (single n c) (omega arith)
count_votes-unanimous n c k ([] ∷ ballots) h first = elim first [ ]
count_votes-unanimous n c k ((choice ∷ ballot) ∷ ballots) h (e, first) =
    rw (e, count_ballot-first n c k ballot h, count_votes-unanimous n c (k + 1) ballots h first)
      (ap (single n c) (omega arith))

fewest-none : (n : ℕ) (es : List Bool) (i m b : ℕ) → fewest (replicate n 0) es i (m, b) ≡ (m, b)
unfolding fewest
fewest-none zero es i m b = refl
fewest-none (suc n) es i m b = ground (arith, fewest-none n es (i + 1) m b)

fewest-single :
    (n c k p i m b : ℕ)
    → c < n
    → 1 ≤ k
    → k < m
    → fewest (single n c k) (replicate p false) i (m, b) ≡ (k, i + c)
unfolding fewest
fewest-single zero c k p i m b h hk hm = absurd (omega arith)
fewest-single (suc n) zero k p i m b h hk hm =
    let less : ltb k m ≡ true = ground arith in
    let some_votes : ltb 0 k ≡ true = ground arith in
    ground (arith, flag-replicate p i, fewest-none n (replicate p false) (i + 1) k i)
fewest-single (suc n) (suc c) k p i m b h hk hm =
    let none_here : ltb 0 0 ≡ false = ground arith in
    ground (arith, fewest-single n c k p (i + 1) m b (omega arith) hk hm)

loser-unanimous :
    (n c : ℕ) (ballots : List (List ℕ))
    → c < n
    → 1 ≤ length ballots
    → AllRankFirst c ballots
    → (round_loser n ballots (replicate n false)).1 ≡ c
unfolding round_loser
loser-unanimous n c ballots h hb first =
    rw (no_votes n c, count_votes-unanimous n c 0 ballots h first)
      (ap (λ p. p.1)
          (fewest-single n c (0 + length ballots) n 0 (length ballots + 1) 0 h (omega arith)
            (omega arith))
        ∙ omega arith)

flag-set_self : (es : List Bool) (i : ℕ) → i < length es → flag (set es i true) i ≡ true
flag-set_self [] i h = absurd (omega arith)
flag-set_self (e ∷ es) zero h = refl
flag-set_self (e ∷ es) (suc i) h = flag-set_self es i (omega arith)

not_both : {b : Bool} → b ≡ true → b ≡ false → ⊥
not_both t f = ground arith

-- With at least two candidates and one ballot, a candidate whom every ballot ranks first never wins:
-- the first round eliminates them, since the scan for the fewest votes passes over candidates with
-- none.
pub unanimous_loses :
    (candidates c : ℕ) (ballots : List (List ℕ))
    → 2 ≤ candidates
    → c < candidates
    → 1 ≤ length ballots
    → AllRankFirst c ballots
    → winner_of candidates ballots ≢ c
unfolding run_rounds
unanimous_loses zero c ballots hn h hb first = absurd (omega arith)
unanimous_loses (suc zero) c ballots hn h hb first = absurd (omega arith)
unanimous_loses (suc (suc n)) c ballots hn h hb first = λ wins.
    let es = replicate (suc (suc n)) false in
    let loser = round_loser (suc (suc n)) ballots es in
    let inside : c < length es = omega (arith, length-replicate (suc (suc n)) false) in
    let out : flag (set es loser.1 true) c ≡ true =
      rw (loser-unanimous (suc (suc n)) c ballots h hb first) (flag-set_self es c inside) in
    let stays = flag-run_rounds n (suc (suc n)) ballots (set es loser.1 true) c out in
    let stands = (winner_stands (suc (suc n)) ballots (omega arith)).1 in
    let rounds : suc (suc n) - 1 ≡ suc n = omega arith in
    let loses : flag (final_flags (suc (suc n)) ballots) c ≡ true = rw rounds stays in
    not_both loses (rw (sym wins) stands)
