-- ===== src/Store/Listing.antt =====
-- internal/store/store.go: what each mutating method does to the names that one directory lists.
use sky_lock.Common.{
  ℕ, if_elim, Option_elim, ◌≡◌, Bool, true, Option, none, some, List, [], ◌∷◌, Text, str_eq,
  str_eq_iff, Map, lookup, put, delete, lookup-put, lookup-delete, arith, if◌then◌else◌, Result,
  err, ℤ, ltb, length,
}
use sky_lock.Path.{root, normalize_path, parent_path, base_name}
use sky_lock.Store.Types.{
  StoreError, Node, Store, Calls, node_not_found, version_mismatch, not_empty, root_deletion,
}
use sky_lock.Store.Writes.{
  version_conflict, set_payload, set, remove_name, drop_child, unlink, delete_node,
}
use sky_lock.Store.Ephemerals.{ephemeral_paths, sort_by_length, unlink_all, delete_ephemerals}
use sky_lock.Store.Tree.{has_name}

abbrev names_of : Option Node → List Text
names_of none = []
names_of (some n) = n.children

module _ (dir : Text) where
  -- Whether the directory is there and lists the name.
  abbrev pub lists : Text → Map Node → Bool
  lists x m = has_name x (names_of (lookup dir m))

  pub lists-put :
      (x k : Text) (n : Node) (m : Map Node)
      → lists x (put k n m) ≡ (if str_eq k dir then has_name x n.children else lists x m)
  lists-put x k n m = ground (arith, lookup-put k dir n m)

  -- No name is listed that was not.
  abbrev pub Shrinks : Map Node → Map Node → Type 0
  Shrinks m m' = (x : Text) → lists x m' ≡ true → lists x m ≡ true

  remove_name-has_name :
      (x gone : Text) (xs : List Text)
      → has_name x (remove_name gone xs) ≡ true
      → has_name x xs ≡ true
  unfolding has_name remove_name
  remove_name-has_name x gone [] h = h
  remove_name-has_name x gone (y ∷ ys) h = ground (arith, h, remove_name-has_name x gone ys)

  unlink-Shrinks : (path : Text) (m : Map Node) → Shrinks m (unlink path m)
  unfolding unlink drop_child has_name
  unlink-Shrinks path m x =
      let parent = parent_path path in
      if_elim (λ r. lists x (delete path r) ≡ true → lists x m ≡ true) (str_eq parent []) m _
        (λ _ h. ground (arith, h, lookup-delete path dir m))
        (λ _.
          Option_elim (λ r. lists x (delete path r) ≡ true → lists x m ≡ true) (lookup parent m) m _
            (λ missing h. ground (arith, h, lookup-delete path dir m))
            (λ n there h.
              let m' = put parent (drop_child (base_name path) n) m in
              let cut = remove_name-has_name x (base_name path) n.children in
              ground (
                arith,
                h,
                lookup-delete path dir m',
                lookup-put parent dir (drop_child (base_name path) n) m,
                str_eq_iff parent dir,
                there,
                cut,
              )))

  pub delete_node-Shrinks :
      (node_path : Text) (expected : ℤ) (s : Store)
      → Shrinks s.nodes (delete_node node_path expected s).0.nodes
  unfolding delete_node
  delete_node-Shrinks node_path expected s x =
      let path = normalize_path node_path in
      let Stays = λ (r : Store × Calls × Option StoreError).
        lists x r.0.nodes ≡ true → lists x s.nodes ≡ true in
      if_elim Stays (str_eq path root) (s, [], some root_deletion) _ (λ _ h. h)
        (λ _.
          Option_elim Stays (lookup path s.nodes) (s, [], some node_not_found) _ (λ _ h. h)
            (λ n there.
              if_elim Stays (version_conflict expected n.version) (s, [], some version_mismatch) _
                (λ _ h. h)
                (λ _.
                  if_elim Stays (ltb 0 (length n.children)) (s, [], some not_empty) _ (λ _ h. h)
                    (λ _. unlink-Shrinks path s.nodes x))))

  unlink_all-Shrinks :
      (paths : List Text) (s : Store) → Shrinks s.nodes (unlink_all paths s).0.nodes
  unfolding unlink_all
  unlink_all-Shrinks [] s x h = h
  unlink_all-Shrinks (path ∷ rest) s x h =
      unlink-Shrinks path s.nodes x
        (unlink_all-Shrinks rest (record s { nodes = unlink path s.nodes }) x h)

  pub delete_ephemerals-Shrinks :
      (session_id : Text) (s : Store) → Shrinks s.nodes (delete_ephemerals session_id s).0.nodes
  unfolding delete_ephemerals
  delete_ephemerals-Shrinks session_id s =
      unlink_all-Shrinks (sort_by_length (ephemeral_paths session_id s.nodes)) s

  pub set-Shrinks :
      (now : ℕ) (node_path : Text) (payload : List ℕ) (expected : ℤ) (s : Store)
      → Shrinks s.nodes (set now node_path payload expected s).0.nodes
  unfolding set set_payload
  set-Shrinks now node_path payload expected s x =
      let path = normalize_path node_path in
      let Stays = λ (r : Store × Calls × Result StoreError Node).
        lists x r.0.nodes ≡ true → lists x s.nodes ≡ true in
      Option_elim Stays (lookup path s.nodes) (s, [], err node_not_found) _ (λ _ h. h)
        (λ n there.
          if_elim Stays (version_conflict expected n.version) (s, [], err version_mismatch) _
            (λ _ h. h)
            (λ _ h. ground (
              arith,
              h,
              lookup-put path dir (set_payload now payload n) s.nodes,
              str_eq_iff path dir,
              there,
            )))
