-- ===== src/Store/Writes.antt =====
-- internal/store/store.go: `Create`, `Set` and `Delete`.
use sky_lock.Common.{
  ℕ, ◌+◌, Bool, false, not, Option, none, some, List, [], ◌∷◌, ◌++◌, ltb, ◌==◌, if◌then◌else◌,
  length, Text, str_eq, Map, lookup, put, delete, Result, ok, err, ℤ, pos, negsuc, u64,
}
use sky_lock.Path.{root, normalize_path, parent_path, base_name}
use sky_lock.Sequence.{format_sequence}
use sky_lock.Store.Types.{
  StoreError, node_exists, node_not_found, version_mismatch, not_empty, ephemeral_parent,
  root_deletion, Node, created, updated, deleted, Store, Calls, start,
}

-- The arguments of `Create`, with the clock.
pub record Creation : Type 0 where
  pub now : ℕ
  pub payload : List ℕ
  pub ephemeral : Bool
  pub session_id : Text
  pub sequential : Bool

unfoldable pub add_child : Text → Node → Node
add_child name n = record n { children = n.children ++ name ∷ [] }

-- `Create` from the test that the path is free, with the counter as it is then.
unfoldable pub insert_node : Creation → Text → Text → Store → Store × Calls × Result StoreError Text
unfolding add_child start
insert_node c parent path s =
    let node : Node = record {
      path = path;
      payload = c.payload;
      version = 1;
      ephemeral = c.ephemeral;
      session_id = c.session_id;
      sequential = c.sequential;
      sequence = s.seq_counter;
      children = [];
      create_time = c.now;
      modify_time = c.now;
    } in
    let nodes = put path node s.nodes in
    let linked : Map Node = elim (lookup parent nodes) [
      | none ↦ nodes
      | some parent_node ↦ put parent (add_child (base_name path) parent_node) nodes
    ] in
    elim (lookup path s.nodes) [
      | some _ ↦ (s, [], err node_exists)
      | none ↦ (
        record s { nodes = if str_eq parent [] then nodes else linked },
        start s.callbacks.on_create (created path node),
        ok path,
      )
    ]

-- The name and the counter for a sequential node, or the path as it is.
unfoldable pub place_node : Creation → Text → Text → Store → Store × Calls × Result StoreError Text
unfolding insert_node
place_node c parent path s =
    let seq = u64 (s.seq_counter + 1) in
    if c.sequential
    then insert_node c parent (path ++ format_sequence seq) (record s { seq_counter = seq })
    else insert_node c parent path s

unfoldable pub create : Creation → Text → Store → Store × Calls × Result StoreError Text
unfolding place_node
create c node_path s =
    let path = normalize_path node_path in
    let parent = parent_path path in
    if str_eq parent [] then place_node c parent path s else elim (lookup parent s.nodes) [
      | none ↦ (s, [], err node_not_found)
      | some parent_node ↦
          if parent_node.ephemeral
          then (s, [], err ephemeral_parent)
          else place_node c parent path s
    ]

-- `expectedVersion >= 0 && uint64(expectedVersion) != node.Version`
unfoldable pub version_conflict : ℤ → ℕ → Bool
version_conflict (negsuc _) version = false
version_conflict (pos expected) version = not (expected == version)

unfoldable pub set_payload : ℕ → List ℕ → Node → Node
set_payload now payload n = record n {
  payload = payload;
  version = u64 (n.version + 1);
  modify_time = now;
}

unfoldable pub set : ℕ → Text → List ℕ → ℤ → Store → Store × Calls × Result StoreError Node
unfolding version_conflict set_payload start
set now node_path payload expected s =
    let path = normalize_path node_path in
    elim (lookup path s.nodes) [
      | none ↦ (s, [], err node_not_found)
      | some node ↦
          let node' = set_payload now payload node in
          if version_conflict expected node.version then (s, [], err version_mismatch) else (
            record s { nodes = put path node' s.nodes },
            start s.callbacks.on_update (updated path node'),
            ok node',
          )
    ]

-- The first occurrence of a name is cut out of the slice.
unfoldable pub remove_name : Text → List Text → List Text
remove_name name [] = []
remove_name name (child ∷ rest) = if str_eq child name then rest else child ∷ remove_name name rest

unfoldable pub drop_child : Text → Node → Node
unfolding remove_name
drop_child name n = record n { children = remove_name name n.children }

-- `Remove from parent's children`, then `delete(s.nodes, nodePath)`. `DeleteEphemerals` passes over a missing
-- parent; `Delete`, which does not test for one, would panic there, but in a tree every parent is there.
unfoldable pub unlink : Text → Map Node → Map Node
unfolding drop_child
unlink path nodes =
    let parent = parent_path path in
    let unlisted : Map Node = elim (lookup parent nodes) [
      | none ↦ nodes
      | some parent_node ↦ put parent (drop_child (base_name path) parent_node) nodes
    ] in
    delete path (if str_eq parent [] then nodes else unlisted)

-- `None` is the success of a method that returns only an error.
unfoldable pub delete_node : Text → ℤ → Store → Store × Calls × Option StoreError
unfolding version_conflict unlink start
delete_node node_path expected s =
    let path = normalize_path node_path in
    if str_eq path root then (s, [], some root_deletion) else elim (lookup path s.nodes) [
      | none ↦ (s, [], some node_not_found)
      | some node ↦
          if version_conflict expected node.version
          then (s, [], some version_mismatch)
          else if ltb 0 (length node.children)
          then (s, [], some not_empty)
          else (
            record s { nodes = unlink path s.nodes },
            start s.callbacks.on_delete (deleted path),
            none,
          )
    ]
