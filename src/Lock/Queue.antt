-- ===== src/Lock/Queue.antt =====
-- internal/lock/manager.go, `TryLock`: who gets a lock at once and who waits.
use sky_lock.Common.{
  ℕ, Option, put, str_eq, ◌+◌, ◌<◌, ◌^◌, u64, ◌≡◌, refl, ap, ◌∙◌, true, false, some, [], ◌∷◌, ◌++◌,
  length, ◌==◌, if◌then◌else◌, Text, lookup, arith, pos,
}
use sky_lock.Path.{slash}
use sky_lock.Path.Segments.{IsProper}
use sky_lock.Store.{Store, Node, exists, Creation}
use sky_lock.Store.Tree.{IsTree}
use sky_lock.Store.TreeCreate.{new_node}
use sky_lock.Lock.{
  lock_path, Manager, hold, sequence_of, ensure_directory, contend, try_lock, held, waits, Lock,
  Attempt,
}
use sky_lock.Lock.Tickets.{directory_path, ticket}
use sky_lock.Lock.Placing.{Earlier, queued, create_ticket, ticket_free, in_front, lookup-queued}

module _ (name : Text) (proper : IsProper name) (s : Store) (directory : Node)
    (there : lookup (lock_path name) s.nodes ≡ some directory)
    (lasting : directory.ephemeral ≡ false)
    (earlier : Earlier name proper s directory there lasting)
    (small : s.seq_counter + 1 < 10 ^ 10) where
  abbrev seq : ℕ
  seq = u64 (s.seq_counter + 1)

  abbrev path : Text
  path = lock_path name ++ slash ∷ ticket seq

  abbrev placed : Creation → Store
  placed = queued name proper s directory there lasting earlier small

  -- The lock that a caller asks for.
  abbrev pub asked : Text → Text → ℕ → Lock
  asked owner session_id acquired = record {
    name = name;
    owner = owner;
    session_id = session_id;
    path = path;
    sequence = sequence_of (lock_path name) path;
    acquired = acquired;
  }

  -- The manager once the lock is held.
  abbrev pub holding : Text → Text → ℕ → Manager → Manager
  holding owner session_id now m = record m {
    locks = put path (asked owner session_id now) m.locks;
  }

  contend_lem :
      (c : Creation) (owner session_id : Text) (now t : ℕ) (m : Manager)
      → IsTree s.nodes
      → contend now (pos t) (asked owner session_id 0) (record { manager = m; store = placed c })
        ≡ (if length directory.children == 0
            then (
              record { manager = holding owner session_id now m; store = placed c },
              [],
              held (asked owner session_id now),
            )
            else (record { manager = m; store = placed c }, [], waits (asked owner session_id 0)))
  unfolding contend hold
  contend_lem c owner session_id now t m tree =
      ground (arith, in_front name proper s directory there lasting earlier small c tree)

  -- The node that the call makes.
  abbrev pub own_node : Text → Text → ℕ → Node
  own_node owner session_id now = record {
    path = path;
    payload = owner;
    version = 1;
    ephemeral = true;
    session_id = session_id;
    sequential = true;
    sequence = seq;
    children = [];
    create_time = now;
    modify_time = now;
  }

  -- What is at a path once the lock node is there and its name ends the list of the directory.
  abbrev pub after_queued : Text → Text → ℕ → Text → Option Node
  after_queued owner session_id now q =
      if str_eq (lock_path name) q
      then some (record directory { children = directory.children ++ ticket seq ∷ [] })
      else if str_eq path q
      then some (own_node owner session_id now)
      else lookup q s.nodes

  -- A call of TryLock for a name that is one path segment, with a timeout that is not negative,
  -- over a tree in which the lock directory of the name is there, is not ephemeral and lists only
  -- the nodes of earlier calls, while fewer than 10^10 sequence numbers are used. When the
  -- directory lists no node, the caller holds the lock at once, and the manager keeps it under its
  -- path; otherwise the caller waits and the manager is as it was. In both cases the store then
  -- has an ephemeral node of the caller's session with the next sequence number, the directory
  -- lists it after the others, and what is at the other paths stays.
  pub try_lock_lem :
      (owner session_id : Text) (now t : ℕ) (m : Manager)
      → IsTree s.nodes
      → let (w, _, outcome) =
          try_lock
            (record {
              name = name;
              owner = owner;
              session_id = session_id;
              timeout = pos t;
              now = now;
            })
            (record { manager = m; store = s }) in
        (outcome ≡ (
          if length directory.children == 0
          then held (asked owner session_id now)
          else waits (asked owner session_id 0)))
        × (w.manager
            ≡ (if length directory.children == 0 then holding owner session_id now m else m))
        × ((q : Text) → lookup q w.store.nodes ≡ after_queued owner session_id now q)
  unfolding try_lock ensure_directory exists new_node
  try_lock_lem owner session_id now t m tree =
      let c : Creation = record {
        now = now;
        payload = owner;
        ephemeral = true;
        session_id = session_id;
        sequential = true;
      } in
      let attempt : Attempt = record {
        name = name;
        owner = owner;
        session_id = session_id;
        timeout = pos t;
        now = now;
      } in
      let (normal, _, _, _) = directory_path name proper in
      let made =
        create_ticket name proper s directory there lasting c refl
          (ticket_free name proper s directory there lasting earlier small tree) in
      let gone_on = contend_lem c owner session_id now t m tree in
      let stored : (try_lock attempt (record { manager = m; store = s })).0.store ≡ placed c =
        ground (arith, normal, there, made, gone_on) in
      (
        ground (arith, normal, there, made, gone_on),
        ground (arith, normal, there, made, gone_on),
        λ q.
            ap (λ (st : Store). lookup q st.nodes) stored
            ∙ lookup-queued name proper s directory there lasting earlier small c q tree,
      )
