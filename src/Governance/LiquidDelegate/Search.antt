-- ===== src/Governance/LiquidDelegate/Search.antt =====
-- LiquidDelegate: the search for a cycle, when it ends and what it finds.
use icn_covm.Prelude.{
  ℕ, zero, suc, ◌+◌, ◌≤◌, ◌<◌, ◌≡◌, ◌≢◌, refl, Bool, true, false, none, some, List, [], ◌∷◌, Text,
  ◌==◌, ==_iff, eq_of_==, Dict, lookup, member, if◌then◌else◌, length, Bool-cases, Option-cases,
  inl, inr, arith,
}
use icn_covm.Governance.LiquidDelegate.{hop, follow}
use icn_covm.Governance.LiquidDelegate.Chains.{EndsIn, EndsIn-unique}

-- how many delegations have a delegator that was not visited
abbrev pub unvisited : List Text → Dict Text → ℕ
unvisited visited [] = 0
unvisited visited (entry ∷ d) =
    let rest = unvisited visited d in if member entry.0 visited then rest else rest + 1

pub unvisited_bound : (visited : List Text) (d : Dict Text) → unvisited visited d ≤ length d
unvisited_bound visited [] = omega arith
unvisited_bound visited (entry ∷ d) = ground (arith, unvisited_bound visited d)

unvisited_mono :
    (c : Text) (visited : List Text) (d : Dict Text)
    → unvisited (c ∷ visited) d ≤ unvisited visited d
unfolding member
unvisited_mono c visited [] = omega arith
unvisited_mono c visited (entry ∷ d) = ground (arith, unvisited_mono c visited d)

unvisited_decreases :
    (c t : Text) (visited : List Text) (d : Dict Text)
    → member c visited ≡ false
    → lookup c d ≡ some t
    → unvisited (c ∷ visited) d + 1 ≤ unvisited visited d
unfolding member lookup
unvisited_decreases c t visited [] new h = absurd (cc)
unvisited_decreases c t visited (entry ∷ d) new h = ground (
  arith,
  ==_iff entry.0 c,
  ==_iff c entry.0,
  unvisited_mono c visited d,
  unvisited_decreases c t visited d new,
)

follow_nobody :
    (fuel : ℕ) (visited : List Text) (k : Text) (d : Dict Text)
    → lookup k d ≡ none
    → 1 ≤ fuel
    → follow fuel visited (hop d k) d ≡ some false
unfolding follow hop
follow_nobody zero visited k d ends h = absurd (omega arith)
follow_nobody (suc fuel) visited k d ends h = rw ends refl

member-cons : (a b : Text) (xs : List Text) → member a xs ≡ true → member a (b ∷ xs) ≡ true
unfolding member
member-cons a b xs h = ground arith

visited_differs :
    (a b : Text) (xs : List Text) → member a xs ≡ true → member b xs ≡ false → (a == b) ≡ false
visited_differs a b xs h new = elim (Bool-cases (a == b)) [
  | inl e ↦ absurd (clash (rw (eq_of_== a b e) at h))
  | inr e ↦ e
]
  where
    clash : member b xs ≡ true → ⊥
    clash t = ground arith

-- With two more passes than unvisited delegators the loop comes to an end.
pub follow_total :
    (fuel : ℕ) (visited : List Text) (c : Text) (d : Dict Text)
    → unvisited visited d + 2 ≤ fuel
    → (b : Bool) × (follow fuel visited c d ≡ some b)
unfolding follow
follow_total zero visited c d h = absurd (omega arith)
follow_total (suc fuel) visited [] d h = (false, refl)
follow_total (suc fuel) visited (x ∷ c) d h = elim (Bool-cases (member (x ∷ c) visited)) [
  | inl seen ↦ (true, rw seen refl)
  | inr new ↦ elim (Option-cases (lookup (x ∷ c) d)) [
    | inl ends ↦
        (false, rw new (follow_nobody fuel ((x ∷ c) ∷ visited) (x ∷ c) d ends (omega arith)))
    | inr (t, found) ↦ rw new (
        follow_total fuel ((x ∷ c) ∷ visited) (hop d (x ∷ c)) d
          (omega (arith, unvisited_decreases (x ∷ c) t visited d new found)))
  ]
]

-- Where the search finds no cycle, the chain ends, also in a map that differs at a visited name.
pub follow_ends :
    (d d' : Dict Text) (from : Text)
    → ((k : Text) → (from == k) ≡ false → hop d' k ≡ hop d k)
    → (fuel : ℕ) (visited : List Text) (c : Text) → member from visited ≡ true
    → follow fuel visited c d ≡ some false
    → (n : ℕ) × EndsIn d' n c
unfolding follow
follow_ends d d' from same zero visited c m h = absurd (cc)
follow_ends d d' from same (suc fuel) visited [] m h = (0, refl)
follow_ends d d' from same (suc fuel) visited (x ∷ c) m h =
    elim (Bool-cases (member (x ∷ c) visited)) [
      | inl seen ↦ absurd (ground arith)
      | inr new ↦
          let (n, ends) =
            follow_ends d d' from same fuel ((x ∷ c) ∷ visited) (hop d (x ∷ c))
              (member-cons from (x ∷ c) visited m) (rw new at h) in
          (suc n, (λ e. cc, rw (same (x ∷ c) (visited_differs from (x ∷ c) visited m new)) ends))
    ]

-- the chain of every visited name is longer than `n`
abbrev pub AllLonger : Dict Text → ℕ → List Text → Type 0
AllLonger d n visited = (v : Text) (m : ℕ) → member v visited ≡ true → EndsIn d m v → n < m

AllLonger-cons :
    (d : Dict Text) (n : ℕ) (visited : List Text) (c : Text)
    → EndsIn d (suc n) c
    → AllLonger d (suc n) visited
    → AllLonger d n (c ∷ visited)
unfolding member
AllLonger-cons d n visited c ends longer v m h other = elim (Bool-cases (c == v)) [
  | inl e ↦
      let same : EndsIn d (suc n) v = rw (← eq_of_== c v e) ends in
      omega (arith, EndsIn-unique d (suc n) m v same other)
  | inr e ↦ omega (arith, longer v m (rw e at h) other)
]

-- Where the chain ends even in the map that differs at a visited name, the search finds no cycle.
pub follow_finds_none :
    (d d' : Dict Text) (from : Text)
    → ((k : Text) → (from == k) ≡ false → hop d' k ≡ hop d k)
    → (fuel n : ℕ) (visited : List Text) (c : Text) → member from visited ≡ true
    → EndsIn d' n c
    → AllLonger d' n visited
    → follow fuel visited c d ≢ some true
unfolding follow
follow_finds_none d d' from same zero n visited c m ends longer h = absurd (cc)
follow_finds_none d d' from same (suc fuel) n visited [] m ends longer h = absurd (cc)
follow_finds_none d d' from same (suc fuel) zero visited (x ∷ c) m ends longer h = absurd (cc)
follow_finds_none d d' from same (suc fuel) (suc n) visited (x ∷ c) m (ne, ends) longer h =
    elim (Bool-cases (member (x ∷ c) visited)) [
      | inl seen ↦ absurd (omega (arith, longer (x ∷ c) (suc n) seen (ne, ends)))
      | inr new ↦
          follow_finds_none d d' from same fuel n ((x ∷ c) ∷ visited) (hop d (x ∷ c))
            (member-cons from (x ∷ c) visited m)
            (rw (← same (x ∷ c) (visited_differs from (x ∷ c) visited m new)) ends)
            (AllLonger-cons d' n visited (x ∷ c) (ne, ends) longer) (rw new at h)
    ]
