-- ===== src/Governance/LiquidDelegate/Acyclicity.antt =====
-- LiquidDelegate: cycles of delegations, and what the handler does about them.
use icn_covm.Prelude.{
  ℕ, suc, ◌+◌, ◌≡◌, ◌≢◌, refl, ◌∙◌, ◌↔◌, ◌⊎◌, Bool, true, false, Option, none, some, [], ◌∷◌, Text,
  ◌==◌, ==-refl, eq_of_==, Dict, lookup, insert, remove, lookup-insert, lookup-remove, member,
  if◌then◌else◌, length, Bool-cases, Option-cases, inl, inr, arith,
}
use icn_covm.Prelude.Actions.{Result, ok, is_ok}
use icn_covm.Governance.Error.{GovernanceError}
use icn_covm.Governance.LiquidDelegate.{
  DelegateVm, hop, is_empty, follow, would_cycle, delegations_of, liquid_delegate,
}
use icn_covm.Governance.LiquidDelegate.Chains.{
  EndsIn, Acyclic, EndsIn-unique, EndsIn-changed, hop-insert, hop-remove,
}
use icn_covm.Governance.LiquidDelegate.Search.{
  unvisited_bound, follow_total, follow_ends, follow_finds_none, AllLonger,
}

-- On every map of delegations, the fuel that the search is given lasts until it has an answer.
pub search_ends :
    (from to : Text) (d : Dict Text)
    → (b : Bool) × (follow (length d + 2) (from ∷ []) to d ≡ some b)
search_ends from to d =
    follow_total (length d + 2) (from ∷ []) to d (omega (arith, unvisited_bound (from ∷ []) d))

search-would_cycle :
    (from to : Text) (d : Dict Text)
    → follow (length d + 2) (from ∷ []) to d ≡ some (would_cycle from to d)
unfolding would_cycle
search-would_cycle from to d = let (b, e) = search_ends from to d in rw e refl

itself_visited : (from : Text) → member from (from ∷ []) ≡ true
unfolding member
itself_visited from = rw (==-refl from) refl

insert-same :
    (d : Dict Text) (from to k : Text) → (from == k) ≡ false → hop (insert from to d) k ≡ hop d k
insert-same d from to k h = rw (hop-insert, h) refl

hop-inserted : (d : Dict Text) (from to : Text) → hop (insert from to d) from ≡ to
hop-inserted d from to = rw (hop-insert, ==-refl from) refl

insert-Acyclic :
    (from to : Text) (d : Dict Text)
    → from ≢ []
    → Acyclic d
    → would_cycle from to d ≡ false
    → Acyclic (insert from to d)
insert-Acyclic from to d ne h safe k =
    let d' = insert from to d in
    let found = search-would_cycle from to d in
    let (n, ends) =
      follow_ends d d' from (insert-same d from to) (length d + 2) (from ∷ []) to
        (itself_visited from) (rw safe at found) in
    let (m, before) = h k in
    EndsIn-changed d d' from (insert-same d from to) (suc n, (ne, rw (hop-inserted d from to) ends))
      m k before

whole_longest :
    (d : Dict Text) (from : Text) (n : ℕ) → EndsIn d (suc n) from → AllLonger d n (from ∷ [])
unfolding member
whole_longest d from n whole v m h other = elim (Bool-cases (from == v)) [
  | inl e ↦
      let same : EndsIn d (suc n) v = rw (← eq_of_== from v e) whole in
      omega (arith, EndsIn-unique d (suc n) m v same other)
  | inr e ↦ absurd (ground arith)
]

cycle-refuses :
    (from to : Text) (d : Dict Text)
    → from ≢ []
    → would_cycle from to d ≡ true
    → Acyclic (insert from to d)
    → ⊥
cycle-refuses from to d ne cyclic h =
    let d' = insert from to d in
    let (n, ends) = h to in
    let whole : EndsIn d' (suc n) from = (ne, rw (hop-inserted d from to) ends) in
    let longer : AllLonger d' n (from ∷ []) = whole_longest d' from n whole in
    follow_finds_none d d' from (insert-same d from to) (length d + 2) n (from ∷ []) to
      (itself_visited from) ends longer (search-would_cycle from to d ∙ rw cyclic refl)

-- Where no delegations form a cycle, the check finds one for a new delegation of a named person
-- exactly if the new delegation would make one.
pub would_cycle_iff :
    (from to : Text) (d : Dict Text)
    → from ≢ []
    → Acyclic d
    → (would_cycle from to d ≡ true) ↔ (Acyclic (insert from to d) → ⊥)
would_cycle_iff from to d ne h = (
  cycle-refuses from to d ne,
  λ cyclic. elim (Bool-cases (would_cycle from to d)) [
    | inl e ↦ e
    | inr e ↦ absurd (cyclic (insert-Acyclic from to d ne h e))
  ],
)

remove-Acyclic : (from : Text) (d : Dict Text) → from ≢ [] → Acyclic d → Acyclic (remove from d)
remove-Acyclic from d ne h k =
    let (m, before) = h k in
    let nobody : hop (remove from d) from ≡ [] = rw (hop-remove, ==-refl from) refl in
    let same : (k : Text) → (from == k) ≡ false → hop (remove from d) k ≡ hop d k =
      λ k e. rw (hop-remove, e) refl in
    EndsIn-changed d (remove from d) from same (1, (ne, nobody)) m k before

module _ {M : Type 0} (to_json : Dict Text → Option M) (from_json : M → Option (Dict Text))
    (round_trip : (d : Dict Text) (m : M) → to_json d ≡ some m → from_json m ≡ some d) where
  -- the delegations after a call: `d'` where it succeeds, those before where it fails
  abbrev Outcome :
      Dict Text → DelegateVm M → Result GovernanceError (Unit {0}) × DelegateVm M → Type 0
  Outcome d' vm result =
      ((result.0 ≡ ok tt) × (delegations_of to_json from_json result.1 ≡ d'))
      ⊎ ((is_ok result.0 ≡ false)
          × (delegations_of to_json from_json result.1 ≡ delegations_of to_json from_json vm))

  revoke-Outcome :
      (c : ℕ) (from : Text) (vm : DelegateVm M)
      → Outcome
          (remove (c ∷ from) (delegations_of to_json from_json vm))
          vm
          (liquid_delegate to_json from_json (c ∷ from) [] vm)
  unfolding liquid_delegate
  revoke-Outcome c from vm =
      let d' = remove (c ∷ from) (delegations_of to_json from_json vm) in
      elim (Option-cases (to_json d')) [
        | inl e ↦ inr (rw e refl, rw e refl)
        | inr (m, e) ↦ inl (rw e refl, rw (e, round_trip d' m e) refl)
      ]

  create-Outcome :
      (c : ℕ) (from : Text) (x : ℕ) (to : Text) (vm : DelegateVm M)
      → would_cycle (c ∷ from) (x ∷ to) (delegations_of to_json from_json vm) ≡ false
      → Outcome
          (insert (c ∷ from) (x ∷ to) (delegations_of to_json from_json vm))
          vm
          (liquid_delegate to_json from_json (c ∷ from) (x ∷ to) vm)
  unfolding liquid_delegate
  create-Outcome c from x to vm safe =
      let d' = insert (c ∷ from) (x ∷ to) (delegations_of to_json from_json vm) in
      elim (Option-cases (to_json d')) [
        | inl e ↦ inr (rw (safe, e) refl, rw (safe, e) refl)
        | inr (m, e) ↦ inl (rw (safe, e) refl, rw (safe, e, round_trip d' m e) refl)
      ]

  cycle-unchanged :
      (c : ℕ) (from : Text) (x : ℕ) (to : Text) (vm : DelegateVm M)
      → would_cycle (c ∷ from) (x ∷ to) (delegations_of to_json from_json vm) ≡ true
      → (is_ok (liquid_delegate to_json from_json (c ∷ from) (x ∷ to) vm).0 ≡ false)
        × ((liquid_delegate to_json from_json (c ∷ from) (x ∷ to) vm).1 ≡ vm)
  unfolding liquid_delegate
  cycle-unchanged c from x to vm cyclic = (rw cyclic refl, rw cyclic refl)

  nobody_unchanged :
      (to : Text) (vm : DelegateVm M)
      → Acyclic (delegations_of to_json from_json vm)
      → Acyclic (delegations_of to_json from_json (liquid_delegate to_json from_json [] to vm).1)
  unfolding liquid_delegate
  nobody_unchanged to vm h = h

  -- A call that succeeds leaves exactly one delegator changed: `from` delegates to `to`, or to nobody
  -- where `to` is empty, and everybody else delegates as before; this where JSON that was printed is
  -- read back as the same map.
  pub liquid_delegate_lem :
      (from to : Text) (vm : DelegateVm M) (k : Text)
      → (liquid_delegate to_json from_json from to vm).0 ≡ ok tt
      → lookup k (delegations_of to_json from_json (liquid_delegate to_json from_json from to vm).1)
        ≡ (if from == k
            then if is_empty to then none else some to
            else lookup k (delegations_of to_json from_json vm))
  unfolding liquid_delegate
  liquid_delegate_lem [] to vm k h = absurd (cc)
  liquid_delegate_lem (c ∷ from) [] vm k h = elim (revoke-Outcome c from vm) [
    | inl (_, now) ↦ rw (now, lookup-remove) refl
    | inr (failed, _) ↦ absurd (ground arith)
  ]
  liquid_delegate_lem (c ∷ from) (x ∷ to) vm k h =
      elim (Bool-cases (would_cycle (c ∷ from) (x ∷ to) (delegations_of to_json from_json vm))) [
        | inl cyclic ↦
            let (failed, _) = cycle-unchanged c from x to vm cyclic in absurd (ground arith)
        | inr safe ↦ elim (create-Outcome c from x to vm safe) [
          | inl (_, now) ↦ rw (now, lookup-insert) refl
          | inr (failed, _) ↦ absurd (ground arith)
        ]
      ]

  -- No call, whether it succeeds or fails, makes delegations form a cycle, where JSON that was
  -- printed is read back as the same map.
  pub liquid_delegate-Acyclic :
      (from to : Text) (vm : DelegateVm M)
      → Acyclic (delegations_of to_json from_json vm)
      → Acyclic (delegations_of to_json from_json (liquid_delegate to_json from_json from to vm).1)
  liquid_delegate-Acyclic [] to vm h = nobody_unchanged to vm h
  liquid_delegate-Acyclic (c ∷ from) [] vm h = elim (revoke-Outcome c from vm) [
    | inl (_, now) ↦
        rw now (remove-Acyclic (c ∷ from) (delegations_of to_json from_json vm) (λ e. cc) h)
    | inr (_, now) ↦ rw now h
  ]
  liquid_delegate-Acyclic (c ∷ from) (x ∷ to) vm h =
      let d = delegations_of to_json from_json vm in
      elim (Bool-cases (would_cycle (c ∷ from) (x ∷ to) d)) [
        | inl cyclic ↦ rw (cycle-unchanged c from x to vm cyclic).1 h
        | inr safe ↦ elim (create-Outcome c from x to vm safe) [
          | inl (_, now) ↦ rw now (insert-Acyclic (c ∷ from) (x ∷ to) d (λ e. cc) h safe)
          | inr (_, now) ↦ rw now h
        ]
      ]
