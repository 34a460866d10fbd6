-- ===== src/Ledger.antt =====
-- crates/icn-ledger/src/lib.rs: the ledger of governance events, a directed graph of nodes. `V` is
-- the type of the f64 values in nodes, and `compute_id` stands for serde_json and Sha256.
pub mod Imports
pub mod Visits
pub mod Fuel
pub mod Exports
pub mod Tests
use icn_covm.Prelude.{
  ℕ, zero, suc, ◌+◌, Bool, true, false, not, Option, none, some, List, [], ◌∷◌, ◌++◌, Text, text,
  ◌==◌, map, find, filter, any, member, add_member, if◌then◌else◌, length,
}
use icn_covm.Prelude.Actions.{Result, ok, err}

pub data NodeData (V : Type 0) : Type 0 where
  proposal_created : (proposal_id title : Text) → NodeData V
  vote_cast : (proposal_id voter : Text) (vote : V) → NodeData V
  proposal_executed : (proposal_id : Text) (success : Bool) → NodeData V
  token_minted : (resource recipient : Text) (amount : V) → NodeData V

-- `contents` is the source's `data`, a reserved word here.
pub record DagNode (V : Type 0) : Type 0 where
  pub id : Text
  pub parent_ids : List Text
  pub timestamp : ℕ
  pub namespace : Text
  pub contents : NodeData V

pub record DagLedger (V : Type 0) : Type 0 where
  pub nodes : List (DagNode V)
  pub file_path : Option Text

pub record DagDiff (V : Type 0) : Type 0 where
  pub added : List (DagNode V)
  pub removed : List (DagNode V)
  pub common : List Text

-- `result` and `visited` of an export
abbrev pub Progress : Type 0 → Type 0
Progress V = List (DagNode V) × List Text

-- `collect` into a `HashSet`
abbrev pub unique : List Text → List Text
unique [] = []
unique (i ∷ is) = add_member i (unique is)

module _ {V : Type 0} where
  pub with_namespace : List Text → NodeData V → ℕ → Text → DagNode V
  with_namespace parent_ids contents timestamp namespace = record {
    id = [];
    parent_ids = parent_ids;
    timestamp = timestamp;
    namespace = namespace;
    contents = contents;
  }

  pub with_default_namespace : List Text → NodeData V → ℕ → DagNode V
  with_default_namespace parent_ids contents timestamp = record {
    id = [];
    parent_ids = parent_ids;
    timestamp = timestamp;
    namespace = text "default";
    contents = contents;
  }

  -- the ledger after the call, and the result
  unfoldable pub append :
      (DagNode V → Text) → DagNode V → DagLedger V → Result Text Text × DagLedger V
  append compute_id node l =
      let new_id = compute_id node in
      (ok new_id, record l { nodes = l.nodes ++ record node { id = new_id } ∷ [] })

  unfoldable pub find_by_id : Text → List (DagNode V) → Option (DagNode V)
  find_by_id id nodes = find (λ n. n.id == id) nodes

  pub nodes_by_namespace : Text → DagLedger V → List (DagNode V)
  nodes_by_namespace namespace l = filter (λ n. n.namespace == namespace) l.nodes

  abbrev creates : Text → NodeData V → Bool
  creates proposal (proposal_created p _) = p == proposal
  creates proposal _ = false

  abbrev votes_on : Text → NodeData V → Bool
  votes_on proposal (vote_cast p _ _) = p == proposal
  votes_on proposal _ = false

  abbrev concerns : Text → NodeData V → Bool
  concerns proposal (proposal_created p _) = p == proposal
  concerns proposal (vote_cast p _ _) = p == proposal
  concerns proposal (proposal_executed p _) = p == proposal
  concerns proposal (token_minted _ _ _) = false

  abbrev id_of : Option (DagNode V) → Option Text
  id_of none = none
  id_of (some n) = some n.id

  pub find_proposal_node_id : Text → DagLedger V → Option Text
  find_proposal_node_id proposal l = id_of (find (λ n. creates proposal n.contents) l.nodes)

  pub find_vote_nodes_for : Text → DagLedger V → List (DagNode V)
  find_vote_nodes_for proposal l = filter (λ n. votes_on proposal n.contents) l.nodes

  pub find_proposal_related_nodes : Text → DagLedger V → List (DagNode V)
  find_proposal_related_nodes proposal l = filter (λ n. concerns proposal n.contents) l.nodes

  pub export_nodes : List Text → DagLedger V → List (DagNode V)
  export_nodes ids l = filter (λ n. member n.id ids) l.nodes

  abbrev pub ids : List (DagNode V) → List Text
  ids nodes = map (λ n. n.id) nodes

  -- The loop of `import_from_file`, over the nodes that the lines of the file give: how many were
  -- added, and the nodes then.
  unfoldable pub import_nodes : List (DagNode V) → List (DagNode V) → ℕ × List (DagNode V)
  import_nodes [] nodes = (0, nodes)
  import_nodes (node ∷ lines) nodes =
      let skipped = import_nodes lines nodes in
      let rest = import_nodes lines (nodes ++ node ∷ []) in
      if any (λ existing. existing.id == node.id) nodes then skipped else (rest.0 + 1, rest.1)

  -- `common` is in the order of the nodes of the first ledger.
  unfoldable pub diff_with : List (DagNode V) → List (DagNode V) → DagDiff V
  diff_with nodes others = record {
    added = filter (λ n. not (member n.id (ids others))) nodes;
    removed = filter (λ n. not (member n.id (ids nodes))) others;
    common = filter (λ i. member i (ids others)) (unique (ids nodes));
  }

  -- The loop over the parents, or over the starting nodes; `none` where the fuel ran out.
  unfoldable pub export_each :
      (Text → Progress V → Option (Progress V))
      → List Text
      → Option (Progress V)
      → Option (Progress V)
  export_each visit [] st = st
  export_each visit (i ∷ is) none = none
  export_each visit (i ∷ is) (some st) = export_each visit is (visit i st)

  abbrev pub push_node : Option (DagNode V) → List (DagNode V) → List (DagNode V)
  push_node none result = result
  push_node (some node) result = result ++ node ∷ []

  abbrev pub parents_of : Option (DagNode V) → List Text
  parents_of none = []
  parents_of (some node) = node.parent_ids

  unfoldable pub export_recursive : ℕ → List (DagNode V) → Text → Progress V → Option (Progress V)
  export_recursive zero nodes i st = none
  export_recursive (suc fuel) nodes i st =
      let node = find_by_id i nodes in
      let rest =
        export_each (export_recursive fuel nodes) (parents_of node)
          (some (push_node node st.0, i ∷ st.1)) in
      if member i st.1 then some st else rest

  -- A visit inside another finds a new node of the ledger, so there are no more of them than nodes.
  unfoldable pub export_selected : List Text → List (DagNode V) → Option (Progress V)
  unfolding export_recursive export_each
  export_selected start_ids nodes =
      export_each (export_recursive (length nodes + 1) nodes) start_ids (some ([], []))
