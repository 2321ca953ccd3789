-- ===== src/Store/ListingCreate.antt =====
-- internal/store/store.go, `Create`: the names that one directory lists, and the counter.
use sky_lock.Common.{
  ℕ, ◌+◌, u64, if_elim, Option_elim, ◌≡◌, refl, sym, ap, ◌∙◌, ◌⊎◌, inl, inr, true, none, some, [],
  ◌++◌, Text, str_eq, str_eq_iff, Map, lookup, put, arith, if◌then◌else◌, Result, ok, err,
}
use sky_lock.Path.{normalize_path, parent_path, base_name}
use sky_lock.Sequence.{format_sequence}
use sky_lock.Store.Types.{
  StoreError, Node, Store, Calls, node_exists, node_not_found, ephemeral_parent,
}
use sky_lock.Store.Writes.{Creation, add_child, insert_node, place_node, create}
use sky_lock.Store.Tree.{has_name, has_name-add_child}
use sky_lock.Store.Listing.{lists, lists-put, Shrinks}

module _ (dir : Text) (parent : Text) where
  -- A new name is that of the path that is returned, and only its parent lists it.
  abbrev pub Grows : Text → Store → Store → Type 0
  Grows path s s' =
      (x : Text)
      → lists dir x s'.nodes ≡ true
      → (lists dir x s.nodes ≡ true) ⊎ (parent ≡ dir) × (x ≡ base_name path)

  abbrev Inserts : Text → Store → Store × Calls × Result StoreError Text → Type 0
  Inserts path s (s', calls, err e) =
      Shrinks dir s.nodes s'.nodes × (s'.seq_counter ≡ s.seq_counter)
  Inserts path s (s', calls, ok p) = (p ≡ path) × (s'.seq_counter ≡ s.seq_counter) × Grows path s s'

  linked_lists :
      (path x : Text) (n : Node) (m : Map Node)
      → n.children ≡ []
      → let nodes = put path n m in
        lists dir x (
            if str_eq parent [] then nodes else elim (lookup parent nodes) [
              | none ↦ nodes
              | some k ↦ put parent (add_child (base_name path) k) nodes
            ])
          ≡ true
        → (lists dir x m ≡ true) ⊎ (parent ≡ dir) × (x ≡ base_name path)
  unfolding has_name
  linked_lists path x n m leaf =
      let nodes = put path n m in
      let Says = λ (r : Map Node).
        lists dir x r ≡ true → (lists dir x m ≡ true) ⊎ (parent ≡ dir) × (x ≡ base_name path) in
      let own : lists dir x nodes ≡ true → lists dir x m ≡ true =
        λ h. ground (arith, h, lists-put dir x path n m, leaf) in
      if_elim Says (str_eq parent []) nodes _ (λ _ h. inl (own h))
        (λ _.
          Option_elim Says (lookup parent nodes) nodes _ (λ _ h. inl (own h))
            (λ k there h. ground (
              arith,
              h,
              own,
              there,
              lists-put dir x parent (add_child (base_name path) k) nodes,
              has_name-add_child x (base_name path) k,
              str_eq_iff parent dir,
              str_eq_iff (base_name path) x,
            )))

  insert_node-Inserts :
      (c : Creation) (path : Text) (s : Store) → Inserts path s (insert_node c parent path s)
  unfolding insert_node
  insert_node-Inserts c path s =
      Option_elim (Inserts path s) (lookup path s.nodes) _ (λ _. (s, [], err node_exists))
        (λ free. (refl, refl, λ x. linked_lists path x _ s.nodes refl))
        (λ there taken. ((λ x h. h), refl))

-- The counter and the path of a node, from whether it is sequential.
abbrev pub next_counter : Creation → Store → ℕ
next_counter c s = if c.sequential then u64 (s.seq_counter + 1) else s.seq_counter

abbrev pub target : Creation → Text → Store → Text
target c path s = if c.sequential then path ++ format_sequence (u64 (s.seq_counter + 1)) else path

module _ (dir : Text) where
  abbrev pub Adds : Creation → Text → Text → Store → Store × Calls × Result StoreError Text → Type 0
  Adds c parent path s (s', calls, err e) =
      Shrinks dir s.nodes s'.nodes
      × ((s'.seq_counter ≡ s.seq_counter) ⊎ (s'.seq_counter ≡ next_counter c s))
  Adds c parent path s (s', calls, ok p) =
      (p ≡ target c path s) × (s'.seq_counter ≡ next_counter c s) × Grows dir parent p s s'

  adds :
      (c : Creation) (parent path goal : Text) (s from : Store)
      (r : Store × Calls × Result StoreError Text)
      → from.nodes ≡ s.nodes
      → from.seq_counter ≡ next_counter c s
      → goal ≡ target c path s
      → Inserts dir parent goal from r
      → Adds c parent path s r
  adds c parent path goal s from (s', calls, err e) same counter at (shrinks, kept) =
      ((λ x h. ap (lists dir x) (sym same) ∙ shrinks x h), inr (kept ∙ counter))
  adds c parent path goal s from (s', calls, ok p) same counter at (e, kept, grows) =
      (e ∙ at, kept ∙ counter, λ x h. ground (arith, grows x h, ap (lists dir x) same, e))

  place_node-Adds :
      (c : Creation) (parent path : Text) (s : Store)
      → Adds c parent path s (place_node c parent path s)
  unfolding place_node
  place_node-Adds c parent path s =
      let seq = u64 (s.seq_counter + 1) in
      let from : Store = record s { seq_counter = seq } in
      let goal = path ++ format_sequence seq in
      if_elim (Adds c parent path s) c.sequential _ _
        (λ numbered.
          adds c parent path goal s from (insert_node c parent goal from) refl (rw numbered refl)
            (rw numbered refl) (insert_node-Inserts dir parent c goal from))
        (λ plain.
          adds c parent path path s s (insert_node c parent path s) refl (rw plain refl)
            (rw plain refl) (insert_node-Inserts dir parent c path s))

  pub create-Adds :
      (c : Creation) (node_path : Text) (s : Store)
      → let path = normalize_path node_path in
        Adds c (parent_path path) path s (create c node_path s)
  unfolding create
  create-Adds c node_path s =
      let path = normalize_path node_path in
      let parent = parent_path path in
      let Effect = Adds c parent path s in
      if_elim Effect (str_eq parent []) _ _ (λ _. place_node-Adds c parent path s)
        (λ _.
          Option_elim Effect (lookup parent s.nodes) (s, [], err node_not_found) _
            (λ _. ((λ x h. h), inl refl))
            (λ n there.
              if_elim Effect n.ephemeral (s, [], err ephemeral_parent) _
                (λ _. ((λ x h. h), inl refl)) (λ _. place_node-Adds c parent path s)))
