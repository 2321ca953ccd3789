-- ===== src/Store/TreeDelete.antt =====
-- internal/store/store.go, `Delete` on a tree.
use sky_lock.Common.{
  ◌≡◌, ◌≢◌, refl, sym, ap, subst, ◌∙◌, inl, inr, true, false, Option, none, some, Option-cases,
  Bool-cases, if_elim, List, [], ◌∷◌, Text, str_eq, str_eq_iff, str_eq_ne, length, ltb, Map, lookup,
  put, lookup-put, lookup-delete, arith, if◌then◌else◌, ℤ,
}
use sky_lock.Path.{root, normalize_path, parent_path, base_name}
use sky_lock.Path.Children.{parent_path-normalized, parent_base-injective}
use sky_lock.Store.Types.{
  Node, Store, StoreError, Calls, root_deletion, version_mismatch, not_empty,
}
use sky_lock.Store.Writes.{version_conflict, remove_name, drop_child, unlink, delete_node}
use sky_lock.Store.Tree.{has_name, Listed, IsTree, has_name-remove_name}

module _ (m : Map Node) (tree : IsTree m) (path : Text) (n : Node) (at : lookup path m ≡ some n)
    (empty : n.children ≡ []) (not_root : path ≢ root) where
  -- Its parent is there.
  above : Listed (lookup (parent_path path) m) (base_name path)
  above = tree.listed path n at not_root

  parent_at : (parent_node : Node) × (lookup (parent_path path) m ≡ some parent_node)
  parent_at = elim (Option-cases (lookup (parent_path path) m)) [
    | inl missing ↦ absurd (subst (λ o. Listed o (base_name path)) missing above)
    | inr found ↦ found
  ]

  abbrev kept_parent : Node
  kept_parent = drop_child (base_name path) parent_at.0

  lookup-unlink :
      (p : Text)
      → lookup p (unlink path m) ≡ (
          if str_eq path p
          then none
          else if str_eq (parent_path path) p
          then some kept_parent
          else lookup p m)
  unfolding unlink
  lookup-unlink p =
      let parent = parent_path path in
      let has_parent = (parent_path-normalized path (tree.normal path n at) not_root).1 in
      let child_gone = put parent kept_parent m in
      ground (
        arith,
        parent_at.1,
        str_eq_ne parent [] has_parent,
        lookup-delete path p child_gone,
        lookup-put parent p kept_parent m,
      )

  -- A node that is left was there, as it is or as the parent that loses a child.
  record WasThere (p : Text) (k : Node) : Type 0 where
    other : p ≢ path
    before : Node
    found : lookup p m ≡ some before
    same_path : k.path ≡ before.path
    same_kind : k.ephemeral ≡ before.ephemeral
    no_more : before.children ≡ [] → k.children ≡ []

  kept_no_more : parent_at.0.children ≡ [] → kept_parent.children ≡ []
  unfolding drop_child remove_name
  kept_no_more e = rw e

  kept_facts :
      (kept_parent.path ≡ parent_at.0.path) × (kept_parent.ephemeral ≡ parent_at.0.ephemeral)
  unfolding drop_child
  kept_facts = (refl, refl)

  was_there : (p : Text) (k : Node) → lookup p (unlink path m) ≡ some k → WasThere p k
  was_there p k h = elim (Bool-cases (str_eq (parent_path path) p)) [
    | inl here ↦
        let is_kept : kept_parent ≡ k = ground (arith, lookup-unlink p, h, here) in
        record {
          other = λ e. ground (arith, lookup-unlink p, str_eq_iff path p, e);
          before = parent_at.0;
          found =
              subst (λ q. lookup q m ≡ some parent_at.0) ((str_eq_iff (parent_path path) p).0 here)
                parent_at.1;
          same_path = subst (λ (j : Node). j.path ≡ parent_at.0.path) is_kept kept_facts.0;
          same_kind =
              subst (λ (j : Node). j.ephemeral ≡ parent_at.0.ephemeral) is_kept kept_facts.1;
          no_more = λ e. subst (λ (j : Node). j.children ≡ []) is_kept (kept_no_more e);
        }
    | inr away ↦ record {
      other = λ e. ground (arith, lookup-unlink p, str_eq_iff path p, e);
      before = k;
      found = ground (arith, lookup-unlink p, away);
      same_path = refl;
      same_kind = refl;
      no_more = λ e. e;
    }
  ]

  not_parent : (p : Text) → Listed (lookup (parent_path p) m) (base_name p) → path ≢ parent_path p
  unfolding has_name
  not_parent p was e =
      let here : Listed (some n) (base_name p) =
        subst (λ o. Listed o (base_name p)) (ap (λ q. lookup q m) (sym e) ∙ at) was in
      let none_left : has_name (base_name p) [] ≡ true =
        subst (λ cs. has_name (base_name p) cs ≡ true) empty here.1 in
      cc (none_left)

  keeps-Listed :
      (p : Text)
      → base_name path ≢ base_name p
      → parent_path path ≡ parent_path p
      → Listed (lookup (parent_path p) m) (base_name p)
      → Listed (some kept_parent) (base_name p)
  unfolding drop_child
  keeps-Listed p differ same was =
      let here : Listed (some parent_at.0) (base_name p) =
        subst (λ o. Listed o (base_name p)) (ap (λ q. lookup q m) (sym same) ∙ parent_at.1) was in
      (
        here.0,
        has_name-remove_name (base_name p) (base_name path) parent_at.0.children differ ∙ here.1,
      )

  unlink-Listed :
      (p : Text) (k : Node)
      → lookup p (unlink path m) ≡ some k
      → p ≢ root
      → Listed (lookup (parent_path p) (unlink path m)) (base_name p)
  unlink-Listed p k h ne =
      let w = was_there p k h in
      let was = tree.listed p w.before w.found ne in
      let parents = str_eq (parent_path path) (parent_path p) in
      rw (lookup-unlink (parent_path p), str_eq_ne path (parent_path p) (not_parent p was))
        (elim (Bool-cases parents) [
          | inl same ↦
              let e = (str_eq_iff (parent_path path) (parent_path p)).0 same in
              let differ : base_name path ≢ base_name p = λ b. w.other (
                sym (
                  parent_base-injective path p (tree.normal path n at)
                    (tree.normal p w.before w.found) not_root ne e b)) in
              rw same (keeps-Listed p differ e was)
          | inr apart ↦ rw apart was
        ])

  pub unlink-IsTree : IsTree (unlink path m)
  unlink-IsTree = record {
    rooted =
        λ e. ground (arith, e, lookup-unlink root, str_eq_iff path root, not_root, tree.rooted);
    lasting_root =
        λ k h. let w = was_there root k h in w.same_kind ∙ tree.lasting_root w.before w.found;
    normal = λ p k h. let w = was_there p k h in tree.normal p w.before w.found;
    named = λ p k h. let w = was_there p k h in w.same_path ∙ tree.named p w.before w.found;
    listed = unlink-Listed;
    leaf = λ p k h e.
        let w = was_there p k h in w.no_more (tree.leaf p w.before w.found (sym w.same_kind ∙ e));
  }

length-none : {A : Type 0} (xs : List A) → ltb 0 (length xs) ≡ false → xs ≡ []
length-none [] h = refl
length-none (x ∷ xs) h = ground arith

-- `Delete` keeps the tree, in every outcome.
pub delete_node-IsTree :
    (node_path : Text) (expected : ℤ) (s : Store)
    → IsTree s.nodes
    → IsTree (delete_node node_path expected s).0.nodes
unfolding delete_node
delete_node-IsTree node_path expected s tree =
    let path = normalize_path node_path in
    if_elim Keeps (str_eq path root) (s, [], some root_deletion) _ (λ _. tree)
      (λ below. elim (Option-cases (lookup path s.nodes)) [
        | inl missing ↦ rw missing tree
        | inr (n, at) ↦ rw at (
            if_elim Keeps (version_conflict expected n.version) (s, [], some version_mismatch) _
              (λ _. tree)
              (λ _.
                if_elim Keeps (ltb 0 (length n.children)) (s, [], some not_empty) _ (λ _. tree)
                  (λ no_children.
                    unlink-IsTree s.nodes tree path n at (length-none n.children no_children)
                      (away below))))
      ])
  where
    Keeps : Store × Calls × Option StoreError → Type 0
    Keeps r = IsTree r.0.nodes

    away : str_eq (normalize_path node_path) root ≡ false → normalize_path node_path ≢ root
    away below e = ground (arith, below, str_eq_iff (normalize_path node_path) root)
