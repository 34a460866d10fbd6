-- ===== src/Ledger/Imports.antt =====
-- The ledger: what appending, importing and comparing do to the ids that it has.
use icn_covm.Prelude.{
  ◌+◌, ◌≡◌, refl, Bool, not, ◌&&◌, ◌||◌, Option, none, some, List, [], ◌∷◌, ◌++◌, Text, ◌==◌,
  ==_iff, find, any, filter, member, if◌then◌else◌, length, length-append, Bool-cases, inl, inr,
  arith,
}
use icn_covm.Ledger.{DagNode, DagLedger, ids, append, find_by_id, import_nodes, diff_with}
use icn_covm.Ledger.Exports.{Distinct, member-ids_append, Distinct-append}

abbrev pub or_else : {A : Type 0} → Option A → Option A → Option A
or_else none o = o
or_else (some a) o = some a

find-append_one :
    {A : Type 0} (p : A → Bool) (xs : List A) (x : A)
    → find p (xs ++ x ∷ []) ≡ or_else (find p xs) (if p x then some x else none)
find-append_one p [] x = refl
find-append_one p (y ∷ xs) x = ground (arith, find-append_one p xs x)

module _ {V : Type 0} where
  any-member :
      (node : DagNode V) (nodes : List (DagNode V))
      → any (λ existing. existing.id == node.id) nodes ≡ member node.id (ids nodes)
  unfolding member
  any-member node [] = refl
  any-member node (n ∷ nodes) = rw (any-member node nodes) refl

  -- After an import the ledger has exactly the ids that it had and those of the imported nodes.
  pub import_nodes-ids :
      (lines nodes : List (DagNode V)) (v : Text)
      → member v (ids (import_nodes lines nodes).1) ≡ (member v (ids nodes) || member v (ids lines))
  unfolding import_nodes member
  import_nodes-ids [] nodes v = ground arith
  import_nodes-ids (node ∷ lines) nodes v = elim (Bool-cases (member node.id (ids nodes))) [
    | inl known ↦
        rw (any-member node nodes, known)
          (ground (arith, import_nodes-ids lines nodes v, known, ==_iff node.id v))
    | inr new ↦
        rw (any-member node nodes, new)
          (ground
            (arith, import_nodes-ids lines (nodes ++ node ∷ []) v, member-ids_append v nodes node))
  ]

  -- An import into a ledger in which no id comes twice leaves it so, even where a file holds an id
  -- twice.
  pub import_nodes-Distinct :
      (lines nodes : List (DagNode V))
      → Distinct (ids nodes)
      → Distinct (ids (import_nodes lines nodes).1)
  unfolding import_nodes
  import_nodes-Distinct [] nodes d = d
  import_nodes-Distinct (node ∷ lines) nodes d = elim (Bool-cases (member node.id (ids nodes))) [
    | inl known ↦ rw (any-member node nodes, known) (import_nodes-Distinct lines nodes d)
    | inr new ↦
        rw (any-member node nodes, new)
          (import_nodes-Distinct lines (nodes ++ node ∷ []) (Distinct-append nodes node d new))
  ]

  -- The number that an import reports is by how many nodes the ledger has grown.
  pub import_nodes-length :
      (lines nodes : List (DagNode V))
      → length (import_nodes lines nodes).1 ≡ length nodes + (import_nodes lines nodes).0
  unfolding import_nodes
  import_nodes-length [] nodes = omega arith
  import_nodes-length (node ∷ lines) nodes = ground (
    arith,
    import_nodes-length lines nodes,
    import_nodes-length lines (nodes ++ node ∷ []),
    length-append nodes (node ∷ []),
  )

  -- After a node is appended, each id finds the node that it found before, and an id that found none
  -- finds the appended node, under its computed id, exactly if it is that id.
  pub find_by_id-append :
      (compute_id : DagNode V → Text) (node : DagNode V) (l : DagLedger V) (i : Text)
      → find_by_id i (append compute_id node l).1.nodes
        ≡ or_else
            (find_by_id i l.nodes)
            (if compute_id node == i then some (record node { id = compute_id node }) else none)
  unfolding find_by_id append
  find_by_id-append compute_id node l i = find-append_one _ l.nodes _

  member-filter :
      (keep : Text → Bool) (nodes : List (DagNode V)) (v : Text)
      → member v (ids (filter (λ n. keep n.id) nodes)) ≡ (member v (ids nodes) && keep v)
  unfolding member
  member-filter keep [] v = refl
  member-filter keep (n ∷ nodes) v = ground (arith, ==_iff n.id v, member-filter keep nodes v)

  -- In the difference of two ledgers an id is added exactly if only the first has it, and removed
  -- exactly if only the second has it.
  pub diff_with_lem :
      (nodes others : List (DagNode V)) (v : Text)
      → (member v (ids (diff_with nodes others).added)
          ≡ (member v (ids nodes) && not (member v (ids others))))
        × (member v (ids (diff_with nodes others).removed)
            ≡ (member v (ids others) && not (member v (ids nodes))))
  unfolding diff_with
  diff_with_lem nodes others v = (
    member-filter (λ i. not (member i (ids others))) nodes v,
    member-filter (λ i. not (member i (ids nodes))) others v,
  )
