-- ===== src/Lock/Exclusion/Fairness.antt =====
-- internal/lock/manager.go: the lock nodes of one name and those that have held the lock.
use sky_lock.Common.{
  ℕ, ◌+◌, ◌≤◌, ◌<◌, ◌^◌, u64, ◌≡◌, ◌≢◌, sym, ap, subst, ◌∙◌, ◌⊎◌, inl, inr, true, false, ◌&&◌, ◌||◌,
  Option-cases, Bool-cases, ltb, List, ◌∷◌, ◌++◌, Text, text, str_eq, str_eq_iff, text_lt, lookup,
  ok, arith,
}
use sky_lock.Path.Segments.{IsProper}
use sky_lock.Sequence.Order.{format_sequence_order}
use sky_lock.Store.{Store}
use sky_lock.Store.Tree.{has_name}
use sky_lock.Store.Listing.{lists, Shrinks}
use sky_lock.Lock.{lock_path, trim_prefix, check_lock_acquired}
use sky_lock.Lock.First.{
  front_of, none_before, check_lock_acquired_lem, none_before-has_name, text_lt_irreflexive,
  text_lt_asymmetric,
}
use sky_lock.Lock.Tickets.{ticket, directory_path}

-- A later number's name does not come before an earlier one's.
ticket_order : (i j : ℕ) → i ≤ j → j < 10 ^ 10 → text_lt (ticket j) (ticket i) ≡ false
ticket_order i j le small = elim (Bool-cases (ltb i j)) [
  | inl less ↦
      text_lt_asymmetric (ticket i) (ticket j)
        (format_sequence_order (text "lock-") i j (ground (arith, less)) small)
  | inr same ↦
      let e : i ≡ j = ground (arith, same, le) in
      ap (λ k. text_lt (ticket j) (ticket k)) e ∙ text_lt_irreflexive (ticket j)
]

tickets_differ : (i j : ℕ) → i < j → j < 10 ^ 10 → ticket i ≢ ticket j
tickets_differ i j less small e =
    let before = format_sequence_order (text "lock-") i j less small in
    let never = ap (λ t. text_lt t (ticket j)) e ∙ text_lt_irreflexive (ticket j) in
    ground (arith, before, never)

module _ (name : Text) where
  abbrev pub dir : Text
  dir = lock_path name

  -- A name that was given to a lock node.
  abbrev pub Issued : Text → ℕ → Type 0
  Issued x counter = (i : ℕ) × (i ≤ counter) × (x ≡ ticket i)

  -- The directory lists lock nodes only, and a node that has held the lock has none before it as long
  -- as it is there.
  pub record IsFair (s : Store) (holders : List Text) : Type 0 where
    pub tickets : (x : Text) → lists dir x s.nodes ≡ true → Issued x s.seq_counter
    pub issued : (h : Text) → has_name h holders ≡ true → Issued h s.seq_counter
    pub first :
        (h x : Text)
        → has_name h holders ≡ true
        → lists dir h s.nodes ≡ true
        → lists dir x s.nodes ≡ true
        → text_lt x h ≡ false
    pub small : s.seq_counter < 10 ^ 10

  Issued-le : (x : Text) (c c' : ℕ) → c ≤ c' → Issued x c → Issued x c'
  Issued-le x c c' le (i, le', e) = (i, omega arith, e)

  -- Nodes go, or the next number's name comes.
  pub grow-IsFair :
      (s s' : Store) (hs : List Text)
      → s.seq_counter + 1 < 10 ^ 10
      → (s'.seq_counter ≡ s.seq_counter) ⊎ (s'.seq_counter ≡ u64 (s.seq_counter + 1))
      → ((x : Text)
          → lists dir x s'.nodes ≡ true
          → (lists dir x s.nodes ≡ true)
            ⊎ (x ≡ ticket (u64 (s.seq_counter + 1))) × (s'.seq_counter ≡ u64 (s.seq_counter + 1)))
      → IsFair s hs
      → IsFair s' hs
  grow-IsFair s s' hs room counter grows fair =
      let seq = u64 (s.seq_counter + 1) in
      let up : s.seq_counter ≤ s'.seq_counter = ground (arith, counter, room) in
      let next : seq ≡ s.seq_counter + 1 = omega (arith, room) in
      record {
        tickets = λ x h. elim (grows x h) [
          | inl was ↦ Issued-le x s.seq_counter s'.seq_counter up (fair.tickets x was)
          | inr (new, at) ↦ (seq, omega (arith, at), new)
        ];
        issued = λ h held. Issued-le h s.seq_counter s'.seq_counter up (fair.issued h held);
        first = λ h x held there here.
            let (i, le, e) = fair.issued h held in
            let was : lists dir h s.nodes ≡ true = elim (grows h there) [
              | inl was ↦ was
              | inr (new, _) ↦ absurd (
                  tickets_differ i seq (omega (arith, next)) (omega (arith, next, room))
                    (sym e ∙ new))
            ] in
            elim (grows x here) [
              | inl before ↦ fair.first h x held was before
              | inr (new, _) ↦
                  ap (λ y. text_lt y h) new
                  ∙ ap (text_lt (ticket seq)) e
                  ∙ ticket_order i seq (omega (arith, next)) (omega (arith, next, room))
            ];
        small = ground (arith, counter, room, fair.small);
      }

  pub shrink-IsFair :
      (s s' : Store) (hs : List Text)
      → Shrinks dir s.nodes s'.nodes
      → s'.seq_counter ≡ s.seq_counter
      → IsFair s hs
      → IsFair s' hs
  shrink-IsFair s s' hs shrinks same fair = record {
    tickets = λ x h.
        Issued-le x s.seq_counter s'.seq_counter (omega (arith, same))
          (fair.tickets x (shrinks x h));
    issued = λ h held.
        Issued-le h s.seq_counter s'.seq_counter (omega (arith, same)) (fair.issued h held);
    first = λ h x held there here. fair.first h x held (shrinks h there) (shrinks x here);
    small = omega (arith, same, fair.small);
  }

  -- The answer of checkLockAcquired that lets a caller hold the lock.
  front_lem :
      (s : Store) (path : Text)
      → IsProper name
      → check_lock_acquired dir path s ≡ ok true
      → let own = trim_prefix path (dir ++ text "/") in
        (lists dir own s.nodes ≡ true)
        × ((x : Text) → lists dir x s.nodes ≡ true → text_lt x own ≡ false)
  front_lem s path proper front =
      let own = trim_prefix path (dir ++ text "/") in
      let at : front_of own (lookup dir s.nodes) ≡ ok true =
        ap (λ p. front_of own (lookup p s.nodes)) (sym (directory_path name proper).0)
        ∙ sym (check_lock_acquired_lem dir path s)
        ∙ front in
      elim (Option-cases (lookup dir s.nodes)) [
        | inl missing ↦ absurd (ground (arith, at, missing))
        | inr (n, there) ↦
            let both : (has_name own n.children && none_before own n.children) ≡ true =
              ground (arith, at, there) in
            (
              ground (arith, both, there),
              λ x h.
                  none_before-has_name own x n.children (ground (arith, h, there))
                    (ground (arith, both)),
            )
      ]

  -- A node that is found at the front holds the lock.
  pub hold-IsFair :
      (s : Store) (hs : List Text) (path : Text)
      → IsProper name
      → check_lock_acquired dir path s ≡ ok true
      → IsFair s hs
      → IsFair s (trim_prefix path (dir ++ text "/") ∷ hs)
  unfolding has_name
  hold-IsFair s hs path proper front fair =
      let own = trim_prefix path (dir ++ text "/") in
      let (listed, before) = front_lem s path proper front in
      let which : (h : Text)
          → (str_eq own h || has_name h hs) ≡ true
          → (own ≡ h) ⊎ (has_name h hs ≡ true) =
        λ h e. ground (arith, e, str_eq_iff own h) in
      record {
        tickets = fair.tickets;
        issued = λ h held. elim (which h held) [
          | inl new ↦ subst (λ y. Issued y s.seq_counter) new (fair.tickets own listed)
          | inr old ↦ fair.issued h old
        ];
        first = λ h x held there here. elim (which h held) [
          | inl new ↦ subst (λ y. text_lt x y ≡ false) new (before x here)
          | inr old ↦ fair.first h x old there here
        ];
        small = fair.small;
      }
