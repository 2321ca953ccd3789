-- ===== src/Store/Flat.antt =====
-- internal/store/store.go: the keys of the map under each method.
use sky_lock.Common.{
  ℕ, refl, Option, some, List, [], ◌∷◌, Text, str_eq, Map, lookup, IsFlat, put-IsFlat,
  delete-IsFlat, if_elim, Option_elim, err, u64, ◌+◌, ◌++◌, ℤ, Result, length, ltb,
}
use sky_lock.Path.{root, normalize_path, parent_path, base_name}
use sky_lock.Sequence.{format_sequence}
use sky_lock.Store.Types.{
  StoreError, Node, Store, Calls, new_store, version_mismatch, ephemeral_parent, not_empty,
  root_deletion,
}
use sky_lock.Store.Writes.{
  Creation, add_child, insert_node, place_node, create, version_conflict, set, drop_child, unlink,
  delete_node,
}
use sky_lock.Store.Ephemerals.{unlink_all, delete_ephemerals, ephemeral_paths, sort_by_length}

abbrev Keeps : (A : Type 0) → Store × Calls × A → Type 0
Keeps A r = IsFlat r.0.nodes

pub new_store-IsFlat : (now : ℕ) → IsFlat (new_store now).nodes
unfolding new_store IsFlat lookup
new_store-IsFlat now = (refl, tt)

insert_node-IsFlat :
    (c : Creation) (parent path : Text) (s : Store)
    → IsFlat s.nodes
    → IsFlat (insert_node c parent path s).0.nodes
unfolding insert_node
insert_node-IsFlat c parent path s flat =
    Option_elim (Keeps (Result StoreError Text)) (lookup path s.nodes) _ _
      (λ _.
        let placed = put-IsFlat path _ s.nodes flat in
        if_elim IsFlat (str_eq parent []) _ _ (λ _. placed)
          (λ _.
            Option_elim IsFlat (lookup parent _) _ _ (λ _. placed)
              (λ n _. put-IsFlat parent (add_child (base_name path) n) _ placed)))
      (λ _ _. flat)

place_node-IsFlat :
    (c : Creation) (parent path : Text) (s : Store)
    → IsFlat s.nodes
    → IsFlat (place_node c parent path s).0.nodes
unfolding place_node
place_node-IsFlat c parent path s flat =
    let seq = u64 (s.seq_counter + 1) in
    if_elim (Keeps (Result StoreError Text)) c.sequential _ (insert_node c parent path s)
      (λ _.
        insert_node-IsFlat c parent (path ++ format_sequence seq) (record s { seq_counter = seq })
          flat)
      (λ _. insert_node-IsFlat c parent path s flat)

pub create-IsFlat :
    (c : Creation) (node_path : Text) (s : Store)
    → IsFlat s.nodes
    → IsFlat (create c node_path s).0.nodes
unfolding create
create-IsFlat c node_path s flat =
    let path = normalize_path node_path in
    let parent = parent_path path in
    let placed = place_node-IsFlat c parent path s flat in
    if_elim (Keeps (Result StoreError Text)) (str_eq parent []) (place_node c parent path s) _
      (λ _. placed)
      (λ _.
        Option_elim (Keeps (Result StoreError Text)) (lookup parent s.nodes) _ _ (λ _. flat)
          (λ n _.
            if_elim (Keeps (Result StoreError Text)) n.ephemeral (s, [], err ephemeral_parent) _
              (λ _. flat) (λ _. placed)))

pub set-IsFlat :
    (now : ℕ) (node_path : Text) (payload : List ℕ) (expected : ℤ) (s : Store)
    → IsFlat s.nodes
    → IsFlat (set now node_path payload expected s).0.nodes
unfolding set
set-IsFlat now node_path payload expected s flat =
    let path = normalize_path node_path in
    Option_elim (Keeps (Result StoreError Node)) (lookup path s.nodes) _ _ (λ _. flat)
      (λ n _.
        if_elim (Keeps (Result StoreError Node)) (version_conflict expected n.version)
          (s, [], err version_mismatch) _ (λ _. flat) (λ _. put-IsFlat path _ s.nodes flat))

unlink-IsFlat : (path : Text) (m : Map Node) → IsFlat m → IsFlat (unlink path m)
unfolding unlink
unlink-IsFlat path m flat =
    let parent = parent_path path in
    delete-IsFlat path _ (
      if_elim IsFlat (str_eq parent []) m _ (λ _. flat)
        (λ _.
          Option_elim IsFlat (lookup parent m) _ _ (λ _. flat)
            (λ n _. put-IsFlat parent (drop_child (base_name path) n) m flat)))

pub delete_node-IsFlat :
    (node_path : Text) (expected : ℤ) (s : Store)
    → IsFlat s.nodes
    → IsFlat (delete_node node_path expected s).0.nodes
unfolding delete_node
delete_node-IsFlat node_path expected s flat =
    let path = normalize_path node_path in
    if_elim (Keeps (Option StoreError)) (str_eq path root) (s, [], some root_deletion) _ (λ _. flat)
      (λ _.
        Option_elim (Keeps (Option StoreError)) (lookup path s.nodes) _ _ (λ _. flat)
          (λ n _.
            if_elim (Keeps (Option StoreError)) (version_conflict expected n.version)
              (s, [], some version_mismatch) _ (λ _. flat)
              (λ _.
                if_elim (Keeps (Option StoreError)) (ltb 0 (length n.children))
                  (s, [], some not_empty) _ (λ _. flat) (λ _. unlink-IsFlat path s.nodes flat))))

unlink_all-IsFlat : (ps : List Text) (s : Store) → IsFlat s.nodes → IsFlat (unlink_all ps s).0.nodes
unfolding unlink_all
unlink_all-IsFlat [] s flat = flat
unlink_all-IsFlat (p ∷ ps) s flat =
    unlink_all-IsFlat ps (record s { nodes = unlink p s.nodes }) (unlink-IsFlat p s.nodes flat)

pub delete_ephemerals-IsFlat :
    (session_id : Text) (s : Store)
    → IsFlat s.nodes
    → IsFlat (delete_ephemerals session_id s).0.nodes
unfolding delete_ephemerals
delete_ephemerals-IsFlat session_id s flat =
    unlink_all-IsFlat (sort_by_length (ephemeral_paths session_id s.nodes)) s flat
