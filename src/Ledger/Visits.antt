-- ===== src/Ledger/Visits.antt =====
-- The ledger: what a visit of an export goes on to.
use icn_covm.Prelude.{
  ℕ, zero, suc, ◌≡◌, refl, true, false, Option, none, some, List, [], ◌∷◌, Text, ◌==◌, ==-refl,
  eq_of_==, member, Bool-cases, Option-cases, inl, inr, arith,
}
use icn_covm.Ledger.{
  DagNode, Progress, find_by_id, export_each, push_node, parents_of, export_recursive,
}

abbrev pub Within : List Text → List Text → Type 0
Within xs ys = (v : Text) → member v xs ≡ true → member v ys ≡ true

pub never : {A : Type 0} {o : Option A} {a : A} → o ≡ none → o ≡ some a → ⊥
never e h = cc

no_member : (v : Text) → member v [] ≡ true → ⊥
unfolding member
no_member v h = cc

pub member-tail :
    (v i : Text) (is : List Text) → member v (i ∷ is) ≡ true → (i == v) ≡ false → member v is ≡ true
unfolding member
member-tail v i is m other = ground arith

pub member-cons_new :
    (v i : Text) (is : List Text)
    → member v is ≡ false
    → (i == v) ≡ false
    → member v (i ∷ is) ≡ false
unfolding member
member-cons_new v i is m other = ground arith

pub member-cons : (v i : Text) (is : List Text) → member v is ≡ true → member v (i ∷ is) ≡ true
unfolding member
member-cons v i is m = ground arith

pub member-head : (i : Text) (is : List Text) → member i (i ∷ is) ≡ true
unfolding member
member-head i is = rw (==-refl i) refl

module _ {V : Type 0} (nodes : List (DagNode V)) where
  -- All parents of the ledger's node with id `v` are visited.
  abbrev pub ParentsIn : List Text → Text → Type 0
  ParentsIn visited v =
      (p : Text) → member p (parents_of (find_by_id v nodes)) ≡ true → member p visited ≡ true

  -- What a visit does: it goes on visiting, and visits all parents of what it visits.
  abbrev pub Extends : List Text → List Text → Type 0
  Extends before after =
      Within before after
      × ((v : Text) → member v after ≡ true → member v before ≡ false → ParentsIn after v)

  Extends-refl : (vs : List Text) → Extends vs vs
  Extends-refl vs = ((λ v h. h), (λ v h new. absurd (ground arith)))

  Extends-trans : (vs bs cs : List Text) → Extends vs bs → Extends bs cs → Extends vs cs
  Extends-trans vs bs cs (sub, closed) (sub', closed') = (
    (λ v h. sub' v (sub v h)),
    (λ v h new. elim (Bool-cases (member v bs)) [
      | inl early ↦ λ p m. sub' p (closed v early new p m)
      | inr late ↦ closed' v h late
    ]),
  )

  -- a visit that extends what is visited, and visits its id
  abbrev pub Visits : (Text → Progress V → Option (Progress V)) → Type 0
  Visits visit =
      (i : Text) (st st' : Progress V)
      → visit i st ≡ some st'
      → Extends st.1 st'.1 × (member i st'.1 ≡ true)

  pub export_each-none :
      (visit : Text → Progress V → Option (Progress V)) (is : List Text)
      → export_each visit is none ≡ none
  unfolding export_each
  export_each-none visit [] = refl
  export_each-none visit (i ∷ is) = refl

  pub export_each-Extends :
      (visit : Text → Progress V → Option (Progress V))
      → Visits visit
      → (is : List Text) (st st' : Progress V) → export_each visit is (some st) ≡ some st'
      → Extends st.1 st'.1 × Within is st'.1
  unfolding export_each
  export_each-Extends visit ok [] st st' h =
      let e : st ≡ st' = cc in rw (← e) (Extends-refl st.1, λ v m. absurd (no_member v m))
  export_each-Extends visit ok (i ∷ is) st st' h = elim (Option-cases (visit i st)) [
    | inl e ↦ absurd (never (export_each-none visit is) (rw e at h))
    | inr (mid, e) ↦
        let (first, here) = ok i st mid e in
        let (others, all) = export_each-Extends visit ok is mid st' (rw e at h) in
        (
          Extends-trans st.1 mid.1 st'.1 first others,
          λ v m. elim (Bool-cases (i == v)) [
            | inl same ↦ rw (← eq_of_== i v same) (others.0 i here)
            | inr other ↦ all v (member-tail v i is m other)
          ],
        )
  ]

  pub export_recursive-Visits : (fuel : ℕ) → Visits (export_recursive fuel nodes)
  unfolding export_recursive
  export_recursive-Visits zero i st st' h = absurd (cc)
  export_recursive-Visits (suc fuel) i st st' h = elim (Bool-cases (member i st.1)) [
    | inl seen ↦
        let same : some st ≡ some st' = rw seen at h in
        let e : st ≡ st' = cc in rw (← e) (Extends-refl st.1, seen)
    | inr new ↦
        let pushed : Progress V = (push_node (find_by_id i nodes) st.0, i ∷ st.1) in
        let ((sub, closed), parents) =
          export_each-Extends (export_recursive fuel nodes) (export_recursive-Visits fuel)
            (parents_of (find_by_id i nodes)) pushed st' (rw new at h) in
        (
          (
            (λ v m. sub v (member-cons v i st.1 m)),
            (λ v m fresh. elim (Bool-cases (i == v)) [
              | inl same ↦ rw (← eq_of_== i v same) parents
              | inr other ↦ closed v m (member-cons_new v i st.1 fresh other)
            ]),
          ),
          sub i (member-head i st.1),
        )
  ]
