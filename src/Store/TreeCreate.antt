-- ===== src/Store/TreeCreate.antt =====
-- internal/store/store.go, `Create` on a tree.
use sky_lock.Common.{
  ℕ, ◌+◌, u64, if_elim, ◌≡◌, ◌≢◌, refl, sym, ap, subst, ◌∙◌, inl, inr, false, none, some,
  Option-cases, Bool-cases, [], ◌++◌, Text, str_eq, str_eq_iff, str_eq_refl, str_eq_ne, lookup, put,
  lookup-put, arith, ok, err,
}
use sky_lock.Path.{root, normalize_path, parent_path}
use sky_lock.Path.Segments.{normalize_path_idempotent}
use sky_lock.Path.Children.{parent_path-normalized, suffixed_path}
use sky_lock.Sequence.{format_sequence}
use sky_lock.Sequence.Digits.{format_sequence-suffix}
use sky_lock.Store.Types.{Node, Store, start, created, ephemeral_parent}
use sky_lock.Store.Writes.{Creation, insert_node, place_node, create}
use sky_lock.Store.Tree.{IsTree}
use sky_lock.Store.TreeGrow.{extended, CanHold, grown-IsTree}

-- The node that `Create` makes.
unfoldable pub new_node : Creation → Text → ℕ → Node
new_node c path seq = record {
  path = path;
  payload = c.payload;
  version = 1;
  ephemeral = c.ephemeral;
  session_id = c.session_id;
  sequential = c.sequential;
  sequence = seq;
  children = [];
  create_time = c.now;
  modify_time = c.now;
}

module _ (c : Creation) (path : Text) (s : Store) (parent_node : Node)
    (held : lookup (parent_path path) s.nodes ≡ some parent_node)
    (has_parent : parent_path path ≢ []) where
  pub insert_node_free :
      lookup path s.nodes ≡ none
      → insert_node c (parent_path path) path s ≡ (
        record s { nodes = extended s.nodes path (new_node c path s.seq_counter) parent_node },
        start s.callbacks.on_create (created path (new_node c path s.seq_counter)),
        ok path,
      )
  unfolding insert_node extended new_node
  insert_node_free free =
      let node = new_node c path s.seq_counter in
      let apart : path ≢ parent_path path = λ e. cc (held, free, ap (λ q. lookup q s.nodes) e) in
      let above : lookup (parent_path path) (put path node s.nodes) ≡ some parent_node =
        lookup-put path (parent_path path) node s.nodes
        ∙ rw (str_eq_ne path (parent_path path) apart) held in
      ground (arith, above, str_eq_ne (parent_path path) [] has_parent)

  pub can_hold :
      lookup path s.nodes ≡ none
      → parent_node.ephemeral ≡ false
      → normalize_path path ≡ path
      → path ≢ root
      → CanHold s.nodes path (new_node c path s.seq_counter) parent_node
  unfolding new_node
  can_hold free lasting normal not_root = record {
    free = free;
    held = held;
    lasting = lasting;
    normal = normal;
    not_root = not_root;
    own = refl;
    empty = refl;
  }

  insert_node_taken :
      (there : Node)
      → lookup path s.nodes ≡ some there
      → IsTree s.nodes
      → IsTree (insert_node c (parent_path path) path s).0.nodes
  unfolding insert_node
  insert_node_taken there taken tree = rw (taken, insert_node) tree

  insert_node-IsTree :
      parent_node.ephemeral ≡ false
      → normalize_path path ≡ path
      → path ≢ root
      → IsTree s.nodes
      → IsTree (insert_node c (parent_path path) path s).0.nodes
  insert_node-IsTree lasting normal not_root tree = elim (Option-cases (lookup path s.nodes)) [
    | inl free ↦
        subst (λ r. IsTree r.0.nodes) (sym (insert_node_free free))
          (grown-IsTree s.nodes path (new_node c path s.seq_counter) parent_node
            (can_hold free lasting normal not_root) tree)
    | inr (there, taken) ↦ insert_node_taken there taken tree
  ]

place_node-IsTree :
    (c : Creation) (path : Text) (s : Store) (parent_node : Node)
    → normalize_path path ≡ path
    → path ≢ root
    → lookup (parent_path path) s.nodes ≡ some parent_node
    → parent_node.ephemeral ≡ false
    → IsTree s.nodes
    → IsTree (place_node c (parent_path path) path s).0.nodes
unfolding place_node
place_node-IsTree c path s parent_node normal not_root held lasting tree =
    let has_parent = (parent_path-normalized path normal not_root).1 in
    let seq = u64 (s.seq_counter + 1) in
    let suffix = format_sequence seq in
    let (no_slash, long) = format_sequence-suffix seq in
    let (normal', same, _, not_root') =
      suffixed_path path suffix normal not_root no_slash (omega (arith, long)) in
    let s' = record s { seq_counter = seq } in
    let held' = ap (λ q. lookup q s.nodes) same ∙ held in
    let has' = λ (e : parent_path (path ++ suffix) ≡ []). has_parent (sym same ∙ e) in
    if_elim (λ r. IsTree r.0.nodes) c.sequential
      (insert_node c (parent_path path) (path ++ suffix) s')
      (insert_node c (parent_path path) path s)
      (λ _.
        subst (λ q. IsTree (insert_node c q (path ++ suffix) s').0.nodes) same
          (insert_node-IsTree c (path ++ suffix) s' parent_node held' has' lasting normal' not_root'
            tree))
      (λ _. insert_node-IsTree c path s parent_node held has_parent lasting normal not_root tree)

parent_root : parent_path root ≡ []
unfolding parent_path
parent_root = rw (str_eq_refl root)

-- At the root the plain `Create` finds the node there.
create_root-IsTree :
    (c : Creation) (s : Store)
    → c.sequential ≡ false
    → IsTree s.nodes
    → IsTree (place_node c [] root s).0.nodes
unfolding place_node
create_root-IsTree c s plain tree = elim (Option-cases (lookup root s.nodes)) [
  | inl missing ↦ absurd (tree.rooted missing)
  | inr (n, there) ↦ ground (arith, there, tree)
]

-- `Create` keeps the tree, in every outcome, but for a sequential node under the name of the root.
pub create-IsTree :
    (c : Creation) (node_path : Text) (s : Store)
    → IsTree s.nodes
    → (normalize_path node_path ≡ root → c.sequential ≡ false)
    → IsTree (create c node_path s).0.nodes
unfolding create
create-IsTree c node_path s tree named =
    let path = normalize_path node_path in
    let normal = normalize_path_idempotent node_path in
    if_elim (λ r. IsTree r.0.nodes) (str_eq (parent_path path) [])
      (place_node c (parent_path path) path s) _
      (λ orphan. elim (Bool-cases (str_eq path root)) [
        | inl at_root ↦ at_root_lem ((str_eq_iff path root).0 at_root)
        | inr below ↦ absurd (
            (parent_path-normalized path normal (not_root below)).1
              ((str_eq_iff (parent_path path) []).0 orphan))
      ])
      (λ has_parent. elim (Option-cases (lookup (parent_path path) s.nodes)) [
        | inl missing ↦ rw missing tree
        | inr (parent_node, held) ↦ rw held (
            if_elim (λ r. IsTree r.0.nodes) parent_node.ephemeral (s, [], err ephemeral_parent)
              (place_node c (parent_path path) path s) (λ _. tree)
              (λ lasting.
                place_node-IsTree c path s parent_node normal (below_root has_parent) held lasting
                  tree))
      ])
  where
    at_root_lem :
        normalize_path node_path ≡ root
        → IsTree
            (place_node c
              (parent_path (normalize_path node_path))
              (normalize_path node_path)
              s).0.nodes
    at_root_lem e =
        subst (λ p. IsTree (place_node c (parent_path p) p s).0.nodes) (sym e)
          (subst (λ q. IsTree (place_node c q root s).0.nodes) (sym parent_root)
            (create_root-IsTree c s (named e) tree))

    not_root : str_eq (normalize_path node_path) root ≡ false → normalize_path node_path ≢ root
    not_root below e = ground (arith, below, str_eq_iff (normalize_path node_path) root)

    below_root :
        str_eq (parent_path (normalize_path node_path)) [] ≡ false → normalize_path node_path ≢ root
    below_root has_parent e = ground (
      arith,
      has_parent,
      ap parent_path e ∙ parent_root,
      str_eq_iff (parent_path (normalize_path node_path)) [],
    )
