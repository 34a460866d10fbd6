-- ===== src/Ledger/Tests.antt =====
-- The ledger: the theorems at three nodes, two of which are each other's parents.
use icn_covm.Prelude.{ℕ, ◌≡◌, refl, true, some, is_some, List, [], ◌∷◌, Text, text, ◌==◌, member}
use icn_covm.Ledger.{
  DagNode, proposal_created, Progress, ids, find_by_id, import_nodes, parents_of, export_each,
  export_recursive, export_selected,
}
use icn_covm.Ledger.Fuel.{export_selected_total}
use icn_covm.Ledger.Exports.{Distinct, export_selected-parents}

abbrev node : Text → List Text → DagNode ℕ
node i parents = record {
  id = i;
  parent_ids = parents;
  timestamp = 1;
  namespace = text "default";
  contents = proposal_created (text "p") (text "t");
}

-- The parent "z" of "c" is missing.
abbrev nodes : List (DagNode ℕ)
nodes =
    node (text "a") (text "b" ∷ [])
    ∷ node (text "b") (text "a" ∷ [])
    ∷ node (text "c") (text "a" ∷ text "z" ∷ [])
    ∷ []

abbrev exported : Progress ℕ
exported = (
  node (text "c") (text "a" ∷ text "z" ∷ [])
      ∷ node (text "a") (text "b" ∷ [])
      ∷ node (text "b") (text "a" ∷ [])
      ∷ [],
  text "z" ∷ text "b" ∷ text "a" ∷ text "c" ∷ [],
)

export-nodes : export_selected (text "c" ∷ []) nodes ≡ some exported
unfolding export_selected export_recursive export_each find_by_id member text ◌==◌
export-nodes = refl

export_selected_total_example :
    (st : Progress ℕ) × (export_selected (text "c" ∷ []) nodes ≡ some st)
export_selected_total_example = export_selected_total nodes (text "c" ∷ [])

c_asked : member (text "c") (text "c" ∷ []) ≡ true
unfolding member ◌==◌ text
c_asked = refl

c_exported : member (text "c") (ids exported.0) ≡ true
unfolding member ◌==◌ text
c_exported = refl

z_parent : member (text "z") (parents_of (find_by_id (text "c") nodes)) ≡ true
unfolding member ◌==◌ text find_by_id
z_parent = refl

export_selected-parents_example :
    member (text "z") (ids exported.0) ≡ is_some (find_by_id (text "z") nodes)
export_selected-parents_example =
    export_selected-parents nodes (text "c" ∷ []) exported (text "c") (text "z") export-nodes
      c_exported z_parent

abbrev lines : List (DagNode ℕ)
lines = node (text "d") [] ∷ node (text "a") [] ∷ node (text "d") [] ∷ []

import-lines : (import_nodes lines nodes).0 ≡ 1
unfolding import_nodes text ◌==◌
import-lines = refl

nodes-Distinct : Distinct (ids nodes)
unfolding member ◌==◌ text
nodes-Distinct = (refl, (refl, (refl, tt)))
