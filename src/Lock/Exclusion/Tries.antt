-- ===== src/Lock/Exclusion/Tries.antt =====
-- internal/lock/manager.go, `TryLock`: what a call does to the names that a lock directory lists.
use mathlib.Core.List.{append_assoc}
use sky_lock.Common.{
  ℕ, ◌+◌, u64, ◌≡◌, ◌≢◌, refl, ap, sym, ◌∙◌, ◌⊎◌, true, false, inl, inr, if_elim, [], ◌∷◌, ◌++◌,
  Text, text, Result, ok, err, arith,
}
use sky_lock.Path.{slash, normalize_path, parent_path, base_name}
use sky_lock.Path.Segments.{IsProper}
use sky_lock.Path.Children.{child_path}
use sky_lock.Sequence.{format_sequence}
use sky_lock.Store.{Store, StoreError, Calls, exists, Creation, create}
use sky_lock.Store.Listing.{lists, Shrinks}
use sky_lock.Store.ListingCreate.{Adds, create-Adds, next_counter}
use sky_lock.Lock.{
  Lock, World, Attempt, Manager, store_error, Outcome, held, failed, lock_path, contend,
  ensure_directory, try_lock, check_lock_acquired, sequence_of,
}
use sky_lock.Lock.Tickets.{ticket, directory_path, prefix_proper, ticket_path}
use sky_lock.Lock.Exclusion.Effects.{Calm, still, contend-Contends}

module _ (dir : Text) where
  -- What TryLock does: it may add the next sequence number's name to its own directory.
  abbrev pub Tries : Attempt → Store → World × Calls × Outcome → Type 0
  Tries a s (w', calls, o) =
      let seq = u64 (s.seq_counter + 1) in
      ((w'.store.seq_counter ≡ s.seq_counter) ⊎ (w'.store.seq_counter ≡ seq))
      × ((x : Text)
          → lists dir x w'.store.nodes ≡ true
          → (lists dir x s.nodes ≡ true)
            ⊎ (lock_path a.name ≡ dir) × (x ≡ ticket seq) × (w'.store.seq_counter ≡ seq))
      × ((l : Lock) → o ≡ held l → check_lock_acquired (lock_path a.name) l.path w'.store ≡ ok true)

  -- A node that is made elsewhere.
  pub Adds-away :
      (c : Creation) (parent path : Text) (s : Store) (r : Store × Calls × Result StoreError Text)
      → Adds dir c parent path s r
      → parent ≢ dir
      → Shrinks dir s.nodes r.0.nodes
        × ((r.0.seq_counter ≡ s.seq_counter) ⊎ (r.0.seq_counter ≡ next_counter c s))
  Adds-away c parent path s (s', calls, ok p) (_, counter, grows) away =
      ((λ x h. ground (arith, grows x h, away)), inr counter)
  Adds-away c parent path s (s', calls, err e) adds away = adds

  module _ (a : Attempt) (proper : IsProper a.name) (other : text "/locks" ≢ dir) (s : Store) where
    abbrev own_dir : Text
    own_dir = lock_path a.name

    -- The lock directory may be made.
    ensure-Calm : Calm dir s (ensure_directory a.now own_dir s).0
    unfolding ensure_directory
    ensure-Calm =
        let c : Creation = record {
          now = a.now;
          payload = [];
          ephemeral = false;
          session_id = [];
          sequential = false;
        } in
        let (normal, parent, _, _) = directory_path a.name proper in
        let above : parent_path (normalize_path own_dir) ≡ text "/locks" =
          ap parent_path normal ∙ parent in
        if_elim (λ (r : Store × Calls). Calm dir s r.0) (exists own_dir s) (s, []) _
          (λ _. still dir s)
          (λ _.
            let (shrinks, counter) =
              Adds-away c _ _ s (create c own_dir s) (create-Adds dir c own_dir s)
                (λ e. other (sym above ∙ e)) in
            (shrinks, ground (arith, counter)))

    abbrev seq : ℕ
    seq = u64 (s.seq_counter + 1)

    -- What `Create` of the lock node does.
    abbrev Issues : Store × Calls × Result StoreError Text → Type 0
    Issues (s', calls, err e) =
        Shrinks dir s.nodes s'.nodes × ((s'.seq_counter ≡ s.seq_counter) ⊎ (s'.seq_counter ≡ seq))
    Issues (s', calls, ok p) =
        (s'.seq_counter ≡ seq)
        × ((x : Text)
            → lists dir x s'.nodes ≡ true
            → (lists dir x s.nodes ≡ true) ⊎ (own_dir ≡ dir) × (x ≡ ticket seq))

    Adds-Issues :
        (c : Creation) (parent path : Text) (r : Store × Calls × Result StoreError Text)
        → c.sequential ≡ true
        → parent ≡ own_dir
        → base_name (path ++ format_sequence seq) ≡ ticket seq
        → Adds dir c parent path s r
        → Issues r
    Adds-Issues c parent path (s', calls, err e) sequential above base (shrinks, counter) =
        (shrinks, ground (arith, counter, sequential))
    Adds-Issues c parent path (s', calls, ok p) sequential above base (at, counter, grows) =
        let at' : p ≡ path ++ format_sequence seq = at ∙ rw sequential refl in
        let named : base_name p ≡ ticket seq = ap base_name at' ∙ base in
        (ground (arith, counter, sequential), λ x h. ground (arith, grows x h, named, above))

    create-Issues :
        (c : Creation) → c.sequential ≡ true → Issues (create c (own_dir ++ text "/lock-") s)
    create-Issues c sequential =
        let (normal, _, _, not_root) = directory_path a.name proper in
        let (normal', above, _, _) =
          child_path own_dir (text "lock-") normal not_root prefix_proper in
        let (_, _, base, _) = ticket_path a.name seq proper in
        let path = normalize_path (own_dir ++ text "/lock-") in
        let same : path ++ format_sequence seq ≡ own_dir ++ slash ∷ ticket seq =
          ap (λ q. q ++ format_sequence seq) normal'
          ∙ append_assoc own_dir (text "/lock-") (format_sequence seq) in
        Adds-Issues c (parent_path path) path (create c (own_dir ++ text "/lock-") s) sequential
          (ap parent_path normal' ∙ above) (ap base_name same ∙ base)
          (create-Adds dir c (own_dir ++ text "/lock-") s)

  -- The rest of TryLock, after the directory is there as `mid` has it.
  module _ (a : Attempt) (proper : IsProper a.name) (other : text "/locks" ≢ dir) (m : Manager)
      (s mid : Store) (calm : Calm dir s mid) where
    abbrev finish : Calls → Store × Calls × Result StoreError Text → World × Calls × Outcome
    finish before (s', calls, made) = elim made [
      | err e ↦ (record { manager = m; store = s' }, before ++ calls, failed (store_error e))
      | ok node_path ↦
          let lock : Lock = record {
            name = a.name;
            owner = a.owner;
            session_id = a.session_id;
            path = node_path;
            sequence = sequence_of (lock_path a.name) node_path;
            acquired = 0;
          } in
          let (w', calls', outcome) =
            contend a.now a.timeout lock (record { manager = m; store = s' }) in
          (w', before ++ calls ++ calls', outcome)
    ]

    finish-Tries :
        (before : Calls) (r : Store × Calls × Result StoreError Text)
        → Issues a proper other mid r
        → Tries a s (finish before r)
    finish-Tries before (s', calls, err e) (shrinks, counter) = (
      ground (arith, counter, calm.1),
      λ x h. inl (calm.0 x (shrinks x h)),
      λ l h. absurd (ground (arith, h)),
    )
    finish-Tries before (s', calls, ok p) (counter, grows) =
        let lock : Lock = record {
          name = a.name;
          owner = a.owner;
          session_id = a.session_id;
          path = p;
          sequence = sequence_of (lock_path a.name) p;
          acquired = 0;
        } in
        let (settled, front) =
          contend-Contends dir a.now lock (record { manager = m; store = s' }) a.timeout in
        (
          ground (arith, counter, calm.1, settled.1),
          λ x h. ground (arith, grows x (settled.0 x h), calm.0 x, calm.1, counter, settled.1),
          front,
        )

  pub try_lock-Tries :
      (a : Attempt) (w : World)
      → IsProper a.name
      → text "/locks" ≢ dir
      → Tries a w.store (try_lock a w)
  unfolding try_lock
  try_lock-Tries a w proper other =
      let node : Creation = record {
        now = a.now;
        payload = a.owner;
        ephemeral = true;
        session_id = a.session_id;
        sequential = true;
      } in
      let (mid, before) = ensure_directory a.now (lock_path a.name) w.store in
      finish-Tries a proper other w.manager w.store mid (ensure-Calm a proper other w.store) before
        (create node (lock_path a.name ++ text "/lock-") mid)
        (create-Issues a proper other mid node refl)
