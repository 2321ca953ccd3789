-- ===== src/Store/TreeGrow.antt =====
-- internal/store/store.go, `Create`: a node is put into the map and listed by its parent.
use sky_lock.Common.{
  ◌≡◌, ◌≢◌, sym, ap, subst, ◌∙◌, inl, inr, true, false, none, some, Bool-cases, [], Text, str_eq,
  str_eq_iff, str_eq_refl, str_eq_ne, Map, lookup, put, lookup-put, arith, if◌then◌else◌,
}
use sky_lock.Path.{root, normalize_path, parent_path, base_name}
use sky_lock.Store.Types.{Node}
use sky_lock.Store.Writes.{add_child}
use sky_lock.Store.Tree.{has_name, Listed, IsTree, has_name-add_child}

-- A free path whose parent can take it.
pub record CanHold (m : Map Node) (path : Text) (n parent_node : Node) : Type 0 where
  pub free : lookup path m ≡ none
  pub held : lookup (parent_path path) m ≡ some parent_node
  pub lasting : parent_node.ephemeral ≡ false
  pub normal : normalize_path path ≡ path
  pub not_root : path ≢ root
  pub own : n.path ≡ path
  pub empty : n.children ≡ []

-- The map with the node in it, and listed by its parent.
unfoldable pub extended : Map Node → Text → Node → Node → Map Node
extended m path n parent_node =
    put (parent_path path) (add_child (base_name path) parent_node) (put path n m)

module _ (m : Map Node) (path : Text) (n parent_node : Node)
    (can : CanHold m path n parent_node) where
  abbrev pub parent : Text
  parent = parent_path path

  abbrev pub grown : Map Node
  grown = extended m path n parent_node

  pub lookup-grown :
      (p : Text)
      → lookup p grown ≡ (
          if str_eq parent p
          then some (add_child (base_name path) parent_node)
          else if str_eq path p
          then some n
          else lookup p m)
  unfolding extended
  lookup-grown p = ground (
    arith,
    lookup-put parent p (add_child (base_name path) parent_node) (put path n m),
    lookup-put path p n m,
  )

  module _ (tree : IsTree m) where
    grown-rooted : lookup root grown ≢ none
    grown-rooted e = ground (arith, lookup-grown root, tree.rooted)

    grown-lasting_root : (k : Node) → lookup root grown ≡ some k → k.ephemeral ≡ false
    unfolding add_child
    grown-lasting_root k h =
        ground (arith, lookup-grown root, str_eq_iff path root, can, tree.lasting_root k)

    grown-normal : (p : Text) (k : Node) → lookup p grown ≡ some k → normalize_path p ≡ p
    grown-normal p k h = ground (
      arith,
      lookup-grown p,
      str_eq_iff parent p,
      str_eq_iff path p,
      can,
      tree.normal p k,
      tree.normal p parent_node,
    )

    grown-named : (p : Text) (k : Node) → lookup p grown ≡ some k → k.path ≡ p
    unfolding add_child
    grown-named p k h = ground (
      arith,
      lookup-grown p,
      str_eq_iff parent p,
      str_eq_iff path p,
      can,
      tree.named p k,
      tree.named p parent_node,
    )

    grown-leaf :
        (p : Text) (k : Node) → lookup p grown ≡ some k → k.ephemeral ≡ true → k.children ≡ []
    unfolding add_child
    grown-leaf p k h e =
        ground (arith, lookup-grown p, str_eq_iff parent p, str_eq_iff path p, can, tree.leaf p k)

    listed_at_end : (name : Text) → has_name name (add_child name parent_node).children ≡ true
    listed_at_end name = ground (arith, has_name-add_child name name parent_node, str_eq_refl name)

    -- What a node of the old map says where the node stands in the new one.
    at_parent :
        (p : Text)
        → Listed (lookup (parent_path p) m) (base_name p)
        → parent_path path ≡ parent_path p
        → Listed (some (add_child (base_name path) parent_node)) (base_name p)
    unfolding add_child
    at_parent p was e =
        let here =
          subst (λ o. Listed o (base_name p)) (ap (λ q. lookup q m) (sym e) ∙ can.held) was in
        (
          here.0,
          ground (arith, here, has_name-add_child (base_name p) (base_name path) parent_node),
        )

    not_at_new : (p : Text) → Listed (lookup (parent_path p) m) (base_name p) → path ≢ parent_path p
    not_at_new p was e =
        subst (λ o. Listed o (base_name p)) (ap (λ q. lookup q m) (sym e) ∙ can.free) was

    Listed-new : Listed (lookup (parent_path path) grown) (base_name path)
    unfolding add_child
    Listed-new =
        rw (lookup-grown (parent_path path))
          (rw (str_eq_refl (parent_path path)) (can.lasting, listed_at_end (base_name path)))

    was-Listed :
        (p : Text) (k : Node)
        → lookup p grown ≡ some k
        → p ≢ root
        → str_eq path p ≡ false
        → Listed (lookup (parent_path p) m) (base_name p)
    was-Listed p k h ne old = elim (Bool-cases (str_eq parent p)) [
      | inl above ↦ tree.listed p parent_node (ground (arith, can.held, str_eq_iff parent p)) ne
      | inr other ↦ tree.listed p k (ground (arith, lookup-grown p)) ne
    ]

    Listed-old :
        (p : Text)
        → Listed (lookup (parent_path p) m) (base_name p)
        → Listed (lookup (parent_path p) grown) (base_name p)
    Listed-old p was =
        rw (lookup-grown (parent_path p)) (elim (Bool-cases (str_eq parent (parent_path p))) [
          | inl here ↦ rw here (at_parent p was ((str_eq_iff parent (parent_path p)).0 here))
          | inr away ↦ rw (away, str_eq_ne path (parent_path p) (not_at_new p was)) was
        ])

    grown-Listed :
        (p : Text) (k : Node)
        → lookup p grown ≡ some k
        → p ≢ root
        → Listed (lookup (parent_path p) grown) (base_name p)
    grown-Listed p k h ne = elim (Bool-cases (str_eq path p)) [
      | inl new ↦
          subst (λ q. Listed (lookup (parent_path q) grown) (base_name q))
            ((str_eq_iff path p).0 new) Listed-new
      | inr old ↦ Listed-old p (was-Listed p k h ne old)
    ]

    pub grown-IsTree : IsTree grown
    grown-IsTree = record {
      rooted = grown-rooted;
      lasting_root = grown-lasting_root;
      normal = grown-normal;
      named = grown-named;
      listed = grown-Listed;
      leaf = grown-leaf;
    }
