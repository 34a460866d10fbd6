-- ===== src/Governance/LiquidDelegate/Chains.antt =====
-- LiquidDelegate: chains of delegations and where they end.
use icn_covm.Prelude.{
  ℕ, zero, suc, ◌≡◌, ◌≢◌, refl, false, [], Text, ◌==◌, eq_of_==, Dict, insert, remove,
  lookup-insert, lookup-remove, if◌then◌else◌, Bool-cases, inl, inr, arith,
}
use icn_covm.Governance.LiquidDelegate.{hop}

-- The chain of delegations that starts at `k` ends after `n` names.
abbrev pub EndsIn : Dict Text → ℕ → Text → Type 0
EndsIn d zero k = k ≡ []
EndsIn d (suc n) k = (k ≢ []) × EndsIn d n (hop d k)

-- From every name the chain of delegations ends.
abbrev pub Acyclic : Dict Text → Type 0
Acyclic d = (k : Text) → (n : ℕ) × EndsIn d n k

pub EndsIn-unique : (d : Dict Text) (n m : ℕ) (k : Text) → EndsIn d n k → EndsIn d m k → n ≡ m
EndsIn-unique d zero zero k h g = refl
EndsIn-unique d zero (suc m) k h (ne, g) = absurd (ne h)
EndsIn-unique d (suc n) zero k (ne, h) g = absurd (ne g)
EndsIn-unique d (suc n) (suc m) k (_, h) (_, g) = omega (arith, EndsIn-unique d n m (hop d k) h g)

pub hop-insert :
    (d : Dict Text) (from to k : Text)
    → hop (insert from to d) k ≡ (if from == k then to else hop d k)
unfolding hop
hop-insert d from to k = rw lookup-insert (ground arith)

pub hop-remove :
    (d : Dict Text) (from k : Text) → hop (remove from d) k ≡ (if from == k then [] else hop d k)
unfolding hop
hop-remove d from k = rw lookup-remove (ground arith)

-- The chains of a map in which `from` delegates to nobody, or to a name whose chain ends.
pub EndsIn-changed :
    (d d' : Dict Text) (from : Text)
    → ((k : Text) → (from == k) ≡ false → hop d' k ≡ hop d k)
    → (n : ℕ) × EndsIn d' n from
    → (m : ℕ) (k : Text) → EndsIn d m k
    → (n : ℕ) × EndsIn d' n k
EndsIn-changed d d' from same ended zero k h = (0, h)
EndsIn-changed d d' from same ended (suc m) k (ne, h) = elim (Bool-cases (from == k)) [
  | inl e ↦ rw (← eq_of_== from k e) ended
  | inr e ↦
      let (n, ends) = EndsIn-changed d d' from same ended m (hop d k) h in
      (suc n, (ne, rw (same k e) ends))
]
