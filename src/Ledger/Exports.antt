-- ===== src/Ledger/Exports.antt =====
-- The ledger: what an export holds.
use icn_covm.Prelude.{
  ℕ, zero, suc, ◌+◌, ◌≡◌, refl, true, false, ◌&&◌, ◌||◌, Option, some, is_some, List, [], ◌∷◌, ◌++◌,
  Text, ◌==◌, ==_iff, eq_of_==, member, length, Bool-cases, Option-cases, inl, inr, arith,
}
use icn_covm.Ledger.{
  DagNode, Progress, ids, find_by_id, export_each, push_node, parents_of, export_recursive,
  export_selected,
}
use icn_covm.Ledger.Visits.{
  Within, Extends, export_each-none, export_each-Extends, export_recursive-Visits, never,
}

-- No id comes twice.
abbrev pub Distinct : List Text → Type 0
Distinct [] = Unit
Distinct (x ∷ xs) = (member x xs ≡ false) × Distinct xs

nothing : (v : Text) → member v [] ≡ false
unfolding member
nothing v = refl

module _ {V : Type 0} where
  pub member-ids_append :
      (v : Text) (result : List (DagNode V)) (n : DagNode V)
      → member v (ids (result ++ n ∷ [])) ≡ (member v (ids result) || n.id == v)
  unfolding member
  member-ids_append v [] n = ground arith
  member-ids_append v (m ∷ result) n = ground (arith, member-ids_append v result n)

  pub Distinct-append :
      (result : List (DagNode V)) (n : DagNode V)
      → Distinct (ids result)
      → member n.id (ids result) ≡ false
      → Distinct (ids (result ++ n ∷ []))
  unfolding member
  Distinct-append [] n d new = (refl, tt)
  Distinct-append (m ∷ result) n (first, d) new = (
    rw (member-ids_append m.id result n) (ground (arith, ==_iff m.id n.id, ==_iff n.id m.id)),
    Distinct-append result n d (ground arith),
  )

  pub find_by_id-id :
      (i : Text) (nodes : List (DagNode V)) {n : DagNode V}
      → find_by_id i nodes ≡ some n
      → (n.id == i) ≡ true
  unfolding find_by_id
  find_by_id-id i [] h = cc
  find_by_id-id i (m ∷ nodes) h = elim (Bool-cases (m.id == i)) [
    | inl e ↦ ground arith
    | inr e ↦ find_by_id-id i nodes (rw e at h)
  ]

module _ {V : Type 0} (nodes : List (DagNode V)) where
  -- The result holds the nodes of the visited ids that are in the ledger, each once.
  abbrev Good : Progress V → Type 0
  Good st =
      ((v : Text) → member v (ids st.0) ≡ (member v st.1 && is_some (find_by_id v nodes)))
      × Distinct (ids st.0)

  push-Good :
      (i : Text) (st : Progress V)
      → member i st.1 ≡ false
      → Good st
      → Good (push_node (find_by_id i nodes) st.0, i ∷ st.1)
  unfolding member
  push-Good i st new (same, distinct) = elim (Option-cases (find_by_id i nodes)) [
    | inl missing ↦ rw missing ((λ v. ground (arith, same v, missing, ==_iff i v)), distinct)
    | inr (n, found) ↦
        let e : n.id ≡ i = eq_of_== n.id i (find_by_id-id i nodes found) in
        rw found (
          (λ v. rw member-ids_append (ground (arith, e, found, same v, ==_iff i v))),
          Distinct-append st.0 n distinct (rw e (ground (arith, same i))),
        )
  ]

  export_each-Good :
      (visit : Text → Progress V → Option (Progress V))
      → ((i : Text) (st st' : Progress V) → visit i st ≡ some st' → Good st → Good st')
      → (is : List Text) (st st' : Progress V) → export_each visit is (some st) ≡ some st'
      → Good st
      → Good st'
  unfolding export_each
  export_each-Good visit keeps [] st st' h good = let e : st ≡ st' = cc in rw (← e) good
  export_each-Good visit keeps (i ∷ is) st st' h good = elim (Option-cases (visit i st)) [
    | inl e ↦ absurd (never (export_each-none nodes visit is) (rw e at h))
    | inr (mid, e) ↦ export_each-Good visit keeps is mid st' (rw e at h) (keeps i st mid e good)
  ]

  export_recursive-Good :
      (fuel : ℕ) (i : Text) (st st' : Progress V)
      → export_recursive fuel nodes i st ≡ some st'
      → Good st
      → Good st'
  unfolding export_recursive
  export_recursive-Good zero i st st' h good = absurd (cc)
  export_recursive-Good (suc fuel) i st st' h good = elim (Bool-cases (member i st.1)) [
    | inl seen ↦
        let same : some st ≡ some st' = rw seen at h in let e : st ≡ st' = cc in rw (← e) good
    | inr new ↦
        export_each-Good (export_recursive fuel nodes) (export_recursive-Good fuel)
          (parents_of (find_by_id i nodes)) (push_node (find_by_id i nodes) st.0, i ∷ st.1) st'
          (rw new at h) (push-Good i st new good)
  ]

  empty-Good : Good ([], [])
  unfolding member
  empty-Good = ((λ v. refl), tt)

  exported-Good :
      (start_ids : List Text) (st : Progress V)
      → export_selected start_ids nodes ≡ some st
      → Good st
  unfolding export_selected
  exported-Good start_ids st h =
      export_each-Good (export_recursive (length nodes + 1) nodes)
        (export_recursive-Good (length nodes + 1)) start_ids ([], []) st h empty-Good

  exported-Extends :
      (start_ids : List Text) (st : Progress V)
      → export_selected start_ids nodes ≡ some st
      → Extends nodes [] st.1 × Within start_ids st.1
  unfolding export_selected
  exported-Extends start_ids st h =
      export_each-Extends nodes (export_recursive (length nodes + 1) nodes)
        (export_recursive-Visits nodes (length nodes + 1)) start_ids ([], []) st h

  -- An export holds a node with each id that was asked for and that the ledger has.
  pub export_selected-start :
      (start_ids : List Text) (st : Progress V) (v : Text)
      → export_selected start_ids nodes ≡ some st
      → member v start_ids ≡ true
      → member v (ids st.0) ≡ is_some (find_by_id v nodes)
  export_selected-start start_ids st v h asked =
      let (same, _) = exported-Good start_ids st h in
      let (_, all) = exported-Extends start_ids st h in ground (arith, same v, all v asked)

  -- With each node an export holds a node for each of its parents that the ledger has.
  pub export_selected-parents :
      (start_ids : List Text) (st : Progress V) (v p : Text)
      → export_selected start_ids nodes ≡ some st
      → member v (ids st.0) ≡ true
      → member p (parents_of (find_by_id v nodes)) ≡ true
      → member p (ids st.0) ≡ is_some (find_by_id p nodes)
  export_selected-parents start_ids st v p h held parent =
      let (same, _) = exported-Good start_ids st h in
      let ((_, closed), _) = exported-Extends start_ids st h in
      let visited : member v st.1 ≡ true = ground (arith, same v) in
      ground (arith, same p, closed v visited (nothing v) p parent)

  -- An export holds only nodes whose ids the ledger has, and no id twice.
  pub export_selected-Distinct :
      (start_ids : List Text) (st : Progress V) (v : Text)
      → export_selected start_ids nodes ≡ some st
      → member v (ids st.0) ≡ true
      → (is_some (find_by_id v nodes) ≡ true) × Distinct (ids st.0)
  export_selected-Distinct start_ids st v h held =
      let (same, distinct) = exported-Good start_ids st h in (ground (arith, same v), distinct)
