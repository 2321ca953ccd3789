-- ===== src/Store/Reach.antt =====
-- internal/store/store.go: the stores that the mutating methods can lead to, from an empty one.
use sky_lock.Common.{
  ℕ, ◌≡◌, refl, ap, sym, subst, ◌∙◌, inl, inr, false, some, List, [], Text, str_eq, str_eq_iff, Map,
  lookup, IsFlat, put, lookup-put, arith, if_elim, Option_elim, Bool-cases, err, ℤ, Result,
}
use sky_lock.Path.{root, normalize_path, parent_path, base_name}
use sky_lock.Store.Types.{
  StoreError, Node, Callbacks, Store, Calls, new_store, set_watch_callbacks, version_mismatch,
}
use sky_lock.Store.Writes.{Creation, create, version_conflict, set_payload, set, delete_node}
use sky_lock.Store.Ephemerals.{delete_ephemerals}
use sky_lock.Store.Tree.{Listed, IsTree, new_store-IsTree}
use sky_lock.Store.TreeCreate.{create-IsTree}
use sky_lock.Store.TreeDelete.{delete_node-IsTree}
use sky_lock.Store.TreeExpiry.{delete_ephemerals-IsTree}
use sky_lock.Store.Flat.{
  new_store-IsFlat, create-IsFlat, set-IsFlat, delete_node-IsFlat, delete_ephemerals-IsFlat,
}

module _ (now : ℕ) (node_path : Text) (payload : List ℕ) (expected : ℤ) (s : Store) where
  abbrev path : Text
  path = normalize_path node_path

  module _ (n : Node) (at : lookup path s.nodes ≡ some n) where
    abbrev rewritten : Map Node
    rewritten = put path (set_payload now payload n) s.nodes

    -- The node at a path, but for its payload, its version and its time.
    rewritten_at :
        (p : Text) (k : Node)
        → lookup p rewritten ≡ some k
        → (before : Node) × (lookup p s.nodes ≡ some before)
          × (k.path ≡ before.path)
          × (k.ephemeral ≡ before.ephemeral)
          × (k.children ≡ before.children)
    unfolding set_payload
    rewritten_at p k h = elim (Bool-cases (str_eq path p)) [
      | inl here ↦ (
        n,
        ground (arith, at, str_eq_iff path p, here),
        ground (arith, lookup-put path p (set_payload now payload n) s.nodes, here, h),
        ground (arith, lookup-put path p (set_payload now payload n) s.nodes, here, h),
        ground (arith, lookup-put path p (set_payload now payload n) s.nodes, here, h),
      )
      | inr away ↦ (
        k,
        ground (arith, lookup-put path p (set_payload now payload n) s.nodes, away, h),
        refl,
        refl,
        refl,
      )
    ]

    rewritten-Listed :
        (q name : Text) → Listed (lookup q s.nodes) name → Listed (lookup q rewritten) name
    unfolding set_payload
    rewritten-Listed q name was =
        rw (lookup-put path q (set_payload now payload n) s.nodes)
          (elim (Bool-cases (str_eq path q)) [
            | inl here ↦ rw here (
                subst (λ o. Listed o name)
                  (ap (λ r. lookup r s.nodes) (sym ((str_eq_iff path q).0 here)) ∙ at) was)
            | inr away ↦ rw away was
          ])

    rewritten-IsTree : IsTree s.nodes → IsTree rewritten
    rewritten-IsTree tree = record {
      rooted = λ e.
          ground (arith, e, lookup-put path root (set_payload now payload n) s.nodes, tree.rooted);
      lasting_root =
          λ k h. let (b, was, _, kind, _) = rewritten_at root k h in kind ∙ tree.lasting_root b was;
      normal = λ p k h. let (b, was, _, _, _) = rewritten_at p k h in tree.normal p b was;
      named = λ p k h. let (b, was, same, _, _) = rewritten_at p k h in same ∙ tree.named p b was;
      listed = λ p k h ne.
          let (b, was, _, _, _) = rewritten_at p k h in
          rewritten-Listed (parent_path p) (base_name p) (tree.listed p b was ne);
      leaf = λ p k h e.
          let (b, was, _, kind, same) = rewritten_at p k h in
          same ∙ tree.leaf p b was (sym kind ∙ e);
    }

  pub set-IsTree : IsTree s.nodes → IsTree (set now node_path payload expected s).0.nodes
  unfolding set
  set-IsTree tree =
      Option_elim Keeps (lookup path s.nodes) _ _ (λ _. tree)
        (λ n at.
          if_elim Keeps (version_conflict expected n.version) (s, [], err version_mismatch) _
            (λ _. tree) (λ _. rewritten-IsTree n at tree))
    where
      Keeps : Store × Calls × Result StoreError Node → Type 0
      Keeps r = IsTree r.0.nodes

-- One call of a mutating method. A sequential node is made below the root.
pub data Step : Store → Store → Type 0 where
  create_step :
      (c : Creation) (node_path : Text) (s : Store)
      → (normalize_path node_path ≡ root → c.sequential ≡ false)
      → Step s (create c node_path s).0
  set_step :
      (now : ℕ) (node_path : Text) (payload : List ℕ) (expected : ℤ) (s : Store)
      → Step s (set now node_path payload expected s).0
  delete_step :
      (node_path : Text) (expected : ℤ) (s : Store) → Step s (delete_node node_path expected s).0
  expire_step : (session_id : Text) (s : Store) → Step s (delete_ephemerals session_id s).0
  callbacks_step : (callbacks : Callbacks) (s : Store) → Step s (set_watch_callbacks callbacks s)

pub data Reachable : Store → Type 0 where
  fresh : (now : ℕ) → Reachable (new_store now)
  after : (s t : Store) → Reachable s → Step s t → Reachable t

abbrev pub IsGood : Store → Type 0
IsGood s = IsTree s.nodes × IsFlat s.nodes

Step-IsGood : (s t : Store) → Step s t → IsGood s → IsGood t
unfolding set_watch_callbacks
Step-IsGood _ _ (create_step c node_path s named) (tree, flat) =
    (create-IsTree c node_path s tree named, create-IsFlat c node_path s flat)
Step-IsGood _ _ (set_step now node_path payload expected s) (tree, flat) = (
  set-IsTree now node_path payload expected s tree,
  set-IsFlat now node_path payload expected s flat,
)
Step-IsGood _ _ (delete_step node_path expected s) (tree, flat) =
    (delete_node-IsTree node_path expected s tree, delete_node-IsFlat node_path expected s flat)
Step-IsGood _ _ (expire_step session_id s) (tree, flat) =
    (delete_ephemerals-IsTree session_id s flat tree, delete_ephemerals-IsFlat session_id s flat)
Step-IsGood _ _ (callbacks_step callbacks s) good = good

-- In every store that the mutating methods lead to from an empty store, when no sequential node is
-- created under the name of the root, the nodes form a tree (normalised keys that are the nodes'
-- paths, every node listed by a parent that is there and not ephemeral, no children of ephemeral
-- nodes) and no path has two entries.
pub reachable-IsTree : (s : Store) → Reachable s → IsGood s
reachable-IsTree _ (fresh now) = (new_store-IsTree now, new_store-IsFlat now)
reachable-IsTree _ (after s t reached step) = Step-IsGood s t step (reachable-IsTree s reached)
