-- ===== src/Lock/Placing.antt =====
-- internal/lock/manager.go, `TryLock`: the lock node that is made and where it stands in the directory.
use mathlib.Core.List.{append_assoc}
use sky_lock.Common.{
  ℕ, str_eq, ◌+◌, ◌≤◌, ◌<◌, ◌^◌, u64, ◌≡◌, ◌≢◌, ap, sym, subst, ◌∙◌, true, false, none, some, inl,
  inr, Option-cases, [], ◌∷◌, ◌++◌, length, ◌==◌, if◌then◌else◌, Text, text, str_eq_ne, str_eq_refl,
  text_lt, lookup, ok, arith,
}
use sky_lock.Path.{slash, base_name}
use sky_lock.Path.Segments.{IsProper}
use sky_lock.Path.Children.{child_path}
use sky_lock.Sequence.{format_sequence}
use sky_lock.Sequence.Order.{format_sequence_order}
use sky_lock.Store.{Store, Node, Creation, create, place_node, add_child, start, created}
use sky_lock.Store.Tree.{has_name, Listed, IsTree, has_name-add_child}
use sky_lock.Store.TreeGrow.{extended, lookup-grown}
use sky_lock.Store.TreeCreate.{new_node, insert_node_free, can_hold}
use sky_lock.Lock.{lock_path, trim_prefix, check_lock_acquired}
use sky_lock.Lock.First.{none_before, front_of, check_lock_acquired_lem, text_lt_irreflexive}
use sky_lock.Lock.Tickets.{
  directory_path, prefix_proper, ticket, ticket_path, trim_prefix-append, front_of_children,
}

module _ (name : Text) (proper : IsProper name) (s : Store) (directory : Node)
    (there : lookup (lock_path name) s.nodes ≡ some directory)
    (lasting : directory.ephemeral ≡ false) where
  abbrev pub seq : ℕ
  seq = u64 (s.seq_counter + 1)

  abbrev pub path : Text
  path = lock_path name ++ slash ∷ ticket seq

  abbrev pub next : Store
  next = record s { seq_counter = seq }

  -- `Create` of the lock node, when its path is free.
  pub create_ticket :
      (c : Creation)
      → c.sequential ≡ true
      → lookup path s.nodes ≡ none
      → create c (lock_path name ++ text "/lock-") s ≡ (
        record next { nodes = extended s.nodes path (new_node c path seq) directory },
        start s.callbacks.on_create (created path (new_node c path seq)),
        ok path,
      )
  unfolding create place_node
  create_ticket c sequential free =
      let (normal, _, _, not_root) = directory_path name proper in
      let (normal', above', _, _) =
        child_path (lock_path name) (text "lock-") normal not_root prefix_proper in
      let (_, parent, _, _) = ticket_path name seq proper in
      let held = ap (λ q. lookup q s.nodes) parent ∙ there in
      let not_empty : lock_path name ≢ [] = λ e. ground (arith, e) in
      let placed =
        insert_node_free c path next directory held (λ e. not_empty (sym parent ∙ e)) free in
      ground (
        arith,
        normal',
        above',
        there,
        lasting,
        sequential,
        str_eq_ne (lock_path name) [] not_empty,
        append_assoc (lock_path name) (text "/lock-") (format_sequence seq),
        parent,
        placed,
      )

  -- Each name that the directory lists is that of an earlier lock node.
  abbrev pub Earlier : Type 0
  Earlier =
      (x : Text)
      → has_name x directory.children ≡ true
      → (i : ℕ) × (i ≤ s.seq_counter) × (x ≡ ticket i)

  module _ (earlier : Earlier) (small : s.seq_counter + 1 < 10 ^ 10) where
    before_ticket :
        (x : Text) → has_name x directory.children ≡ true → text_lt x (ticket seq) ≡ true
    before_ticket x h =
        let (i, le, e) = earlier x h in
        ap (λ y. text_lt y (ticket seq)) e
        ∙ format_sequence_order (text "lock-") i seq (omega (arith, le, small))
            (omega (arith, small))

    not_listed : has_name (ticket seq) directory.children ≡ false
    not_listed = ground (arith, before_ticket (ticket seq), text_lt_irreflexive (ticket seq))

    pub ticket_free : IsTree s.nodes → lookup path s.nodes ≡ none
    ticket_free tree = elim (Option-cases (lookup path s.nodes)) [
      | inl free ↦ free
      | inr (n, taken) ↦
          let (_, above, base, not_root) = ticket_path name seq proper in
          let listed : Listed (some directory) (base_name path) =
            subst (λ o. Listed o (base_name path)) (ap (λ q. lookup q s.nodes) above ∙ there)
              (tree.listed path n taken not_root) in
          absurd (ground (arith, listed.1, base, not_listed))
    ]

    front :
        none_before (ticket seq) (directory.children ++ ticket seq ∷ [])
        ≡ (length directory.children == 0)
    front = front_of_children (ticket seq) directory.children before_ticket

    directory_first :
        front_of (ticket seq) (some (add_child (ticket seq) directory))
        ≡ ok (length directory.children == 0)
    unfolding add_child
    directory_first = ground (
      arith,
      front,
      has_name-add_child (ticket seq) (ticket seq) directory,
      str_eq_refl (ticket seq),
    )

    -- The store once the lock node is there.
    abbrev pub queued : Creation → Store
    queued c = record next { nodes = extended s.nodes path (new_node c path seq) directory }

    pub in_front :
        (c : Creation)
        → IsTree s.nodes
        → check_lock_acquired (lock_path name) path (queued c) ≡ ok (length directory.children == 0)
    in_front c tree =
        let (normal', above, base, not_root') = ticket_path name seq proper in
        let (normal, _, _, not_root) = directory_path name proper in
        let held = ap (λ q. lookup q s.nodes) above ∙ there in
        let not_empty : lock_path name ≢ [] = λ e. ground (arith, e) in
        let can =
          can_hold c path next directory held (λ e. not_empty (sym above ∙ e)) (ticket_free tree)
            lasting normal' not_root' in
        let at : lookup (lock_path name) (queued c).nodes
            ≡ some (add_child (ticket seq) directory) =
          ground (
            arith,
            above,
            base,
            str_eq_refl (lock_path name),
            lookup-grown s.nodes path (new_node c path seq) directory can (lock_path name),
          ) in
        let trimmed : trim_prefix path (lock_path name ++ text "/") ≡ ticket seq =
          ap (λ p. trim_prefix p (lock_path name ++ text "/"))
            (sym (append_assoc (lock_path name) (text "/") (ticket seq)))
          ∙ trim_prefix-append (lock_path name ++ text "/") (ticket seq) in
        check_lock_acquired_lem (lock_path name) path (queued c)
        ∙ rw (trimmed, normal, at) directory_first

    pub lookup-queued :
        (c : Creation) (q : Text)
        → IsTree s.nodes
        → lookup q (queued c).nodes ≡ (
            if str_eq (lock_path name) q
            then some (record directory { children = directory.children ++ ticket seq ∷ [] })
            else if str_eq path q
            then some (new_node c path seq)
            else lookup q s.nodes)
    unfolding add_child
    lookup-queued c q tree =
        let (normal', above, base, not_root') = ticket_path name seq proper in
        let held = ap (λ q. lookup q s.nodes) above ∙ there in
        let not_empty : lock_path name ≢ [] = λ e. ground (arith, e) in
        let can =
          can_hold c path next directory held (λ e. not_empty (sym above ∙ e)) (ticket_free tree)
            lasting normal' not_root' in
        ground (arith, above, base, lookup-grown s.nodes path (new_node c path seq) directory can q)
