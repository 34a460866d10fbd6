-- ===== src/Ledger/Fuel.antt =====
-- The ledger: how much fuel an export takes.
use icn_covm.Prelude.{
  ℕ, zero, suc, ◌+◌, ◌≤◌, ◌≡◌, refl, true, false, Option, none, some, List, [], ◌∷◌, Text, ==_iff,
  member, if◌then◌else◌, length, Bool-cases, Option-cases, inl, inr, arith,
}
use icn_covm.Ledger.{
  DagNode, Progress, find_by_id, export_each, push_node, parents_of, export_recursive,
  export_selected,
}
use icn_covm.Ledger.Visits.{Within, Visits, export_recursive-Visits, member-cons}

module _ {V : Type 0} where
  -- how many nodes were not visited
  abbrev left : List Text → List (DagNode V) → ℕ
  left visited [] = 0
  left visited (n ∷ nodes) =
      let rest = left visited nodes in if member n.id visited then rest else rest + 1

  left_bound : (visited : List Text) (nodes : List (DagNode V)) → left visited nodes ≤ length nodes
  left_bound visited [] = omega arith
  left_bound visited (n ∷ nodes) = ground (arith, left_bound visited nodes)

  left_mono :
      (vs ws : List Text) (nodes : List (DagNode V)) → Within vs ws → left ws nodes ≤ left vs nodes
  left_mono vs ws [] h = omega arith
  left_mono vs ws (n ∷ nodes) h = ground (arith, h n.id, left_mono vs ws nodes h)

  left_decreases :
      (i : Text) (vs : List Text) (nodes : List (DagNode V)) (n : DagNode V)
      → member i vs ≡ false
      → find_by_id i nodes ≡ some n
      → left (i ∷ vs) nodes + 1 ≤ left vs nodes
  unfolding find_by_id member
  left_decreases i vs [] n new h = absurd (cc)
  left_decreases i vs (m ∷ nodes) n new h = ground (
    arith,
    ==_iff m.id i,
    ==_iff i m.id,
    left_mono vs (i ∷ vs) nodes (λ v. member-cons v i vs),
    left_decreases i vs nodes n new,
  )

module _ {V : Type 0} (nodes : List (DagNode V)) where
  -- a visit that ends wherever at most `bound` nodes are left
  abbrev Ends : ℕ → (Text → Progress V → Option (Progress V)) → Type 0
  Ends bound visit =
      (i : Text) (st : Progress V)
      → left st.1 nodes ≤ bound
      → (st' : Progress V) × (visit i st ≡ some st')

  export_each_total :
      (bound : ℕ) (visit : Text → Progress V → Option (Progress V))
      → Visits nodes visit
      → Ends bound visit
      → (is : List Text) (st : Progress V) → left st.1 nodes ≤ bound
      → (st' : Progress V) × (export_each visit is (some st) ≡ some st')
  unfolding export_each
  export_each_total bound visit visits ends [] st h = (st, refl)
  export_each_total bound visit visits ends (i ∷ is) st h =
      let (mid, e) = ends i st h in
      let ((sub, _), _) = visits i st mid e in
      rw e (
        export_each_total bound visit visits ends is mid
          (omega (arith, left_mono st.1 mid.1 nodes sub)))

  visit_missing :
      (fuel : ℕ) (i : Text) (st : Progress V)
      → member i st.1 ≡ false
      → find_by_id i nodes ≡ none
      → (st' : Progress V) × (export_recursive (suc fuel) nodes i st ≡ some st')
  unfolding export_recursive export_each
  visit_missing fuel i st new missing = ((st.0, i ∷ st.1), rw (new, missing) refl)

  visit_seen :
      (fuel : ℕ) (i : Text) (st : Progress V)
      → member i st.1 ≡ true
      → (st' : Progress V) × (export_recursive (suc fuel) nodes i st ≡ some st')
  unfolding export_recursive
  visit_seen fuel i st seen = (st, rw seen refl)

  export_recursive_total : (fuel : ℕ) → Ends fuel (export_recursive (suc fuel) nodes)
  unfolding export_recursive
  export_recursive_total zero i st h = elim (Bool-cases (member i st.1)) [
    | inl seen ↦ visit_seen zero i st seen
    | inr new ↦ elim (Option-cases (find_by_id i nodes)) [
      | inl missing ↦ visit_missing zero i st new missing
      | inr (n, found) ↦ absurd (omega (arith, left_decreases i st.1 nodes n new found))
    ]
  ]
  export_recursive_total (suc fuel) i st h = elim (Bool-cases (member i st.1)) [
    | inl seen ↦ visit_seen (suc fuel) i st seen
    | inr new ↦ elim (Option-cases (find_by_id i nodes)) [
      | inl missing ↦ visit_missing (suc fuel) i st new missing
      | inr (n, found) ↦ rw new (
          export_each_total fuel (export_recursive (suc fuel) nodes)
            (export_recursive-Visits nodes (suc fuel)) (export_recursive_total fuel)
            (parents_of (find_by_id i nodes)) (push_node (find_by_id i nodes) st.0, i ∷ st.1)
            (omega (arith, left_decreases i st.1 nodes n new found)))
    ]
  ]

  -- An export from any ids comes to an end, also where nodes are each other's ancestors: the fuel
  -- given to it always lasts.
  pub export_selected_total :
      (start_ids : List Text) → (st : Progress V) × (export_selected start_ids nodes ≡ some st)
  unfolding export_selected
  export_selected_total start_ids =
      let enough : length nodes + 1 ≡ suc (length nodes) = omega arith in
      rw enough (
        export_each_total (length nodes) (export_recursive (suc (length nodes)) nodes)
          (export_recursive-Visits nodes (suc (length nodes)))
          (export_recursive_total (length nodes)) start_ids ([], []) (left_bound [] nodes))
