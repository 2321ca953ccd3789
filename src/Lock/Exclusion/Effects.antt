-- ===== src/Lock/Exclusion/Effects.antt =====
-- internal/lock/manager.go: what the calls do to the names that a lock directory lists.
use sky_lock.Common.{
  ℕ, ◌≡◌, refl, ap, sym, ◌∙◌, Bool, true, false, none, some, Option, if_elim, [], ◌∷◌, Text, str_eq,
  Result, ok, err, arith, pos, negsuc, ℤ, List,
}
use sky_lock.Store.{
  Store, StoreError, Calls, set, delete_node, sort_by_length, ephemeral_paths, unlink_all,
  delete_ephemerals,
}
use sky_lock.Store.Listing.{Shrinks, delete_node-Shrinks, set-Shrinks, delete_ephemerals-Shrinks}
use sky_lock.Lock.{
  LockError, Lock, World, Manager, store_error, lock_timeout, Outcome, held, failed, waits,
  lock_path, give_up, hold, contend, check_lock_acquired,
}
use sky_lock.Lock.Waiting.{wake, time_out, unlock}

seq_counter-delete_node :
    (path : Text) (expected : ℤ) (s : Store)
    → (delete_node path expected s).0.seq_counter ≡ s.seq_counter
unfolding delete_node
seq_counter-delete_node path expected s = ground arith

seq_counter-unlink_all :
    (paths : List Text) (s : Store) → (unlink_all paths s).0.seq_counter ≡ s.seq_counter
unfolding unlink_all
seq_counter-unlink_all [] s = refl
seq_counter-unlink_all (p ∷ rest) s = seq_counter-unlink_all rest _

module _ (dir : Text) where
  -- No name is added, and no sequence number is taken.
  abbrev pub Calm : Store → Store → Type 0
  Calm s s' = Shrinks dir s.nodes s'.nodes × (s'.seq_counter ≡ s.seq_counter)

  pub delete_node-Calm :
      (path : Text) (expected : ℤ) (s : Store) → Calm s (delete_node path expected s).0
  delete_node-Calm path expected s =
      (delete_node-Shrinks dir path expected s, seq_counter-delete_node path expected s)

  pub set-Calm :
      (now : ℕ) (path : Text) (payload : List ℕ) (expected : ℤ) (s : Store)
      → Calm s (set now path payload expected s).0
  unfolding set
  set-Calm now path payload expected s = (set-Shrinks dir now path payload expected s, ground arith)

  pub delete_ephemerals-Calm :
      (session_id : Text) (s : Store) → Calm s (delete_ephemerals session_id s).0
  unfolding delete_ephemerals
  delete_ephemerals-Calm session_id s = (
    delete_ephemerals-Shrinks dir session_id s,
    seq_counter-unlink_all (sort_by_length (ephemeral_paths session_id s.nodes)) s,
  )

  pub time_out-Calm :
      (channel : ℕ) (lock : Lock) (w : World) → Calm w.store (time_out channel lock w).0.store
  unfolding time_out
  time_out-Calm channel lock w = delete_node-Calm lock.path (negsuc 0) w.store

  pub unlock-Calm : (lock : Option Lock) (w : World) → Calm w.store (unlock lock w).0.store
  unfolding unlock
  unlock-Calm none w = ((λ x h. h), refl)
  unlock-Calm (some lock) w =
      if_elim (λ (r : World × Calls × Option LockError). Calm w.store r.0.store)
        (str_eq lock.path []) _ _ (λ _. ((λ x h. h), refl))
        (λ _. delete_node-Calm lock.path (negsuc 0) w.store)

  -- The lock is held only when its node is at the front of the directory `own`, as the store is then.
  abbrev pub Contends : Text → Store → World × Calls × Outcome → Type 0
  Contends own s (w', calls, o) =
      Calm s w'.store
      × ((l : Lock) → o ≡ held l → check_lock_acquired own l.path w'.store ≡ ok true)

  give_up-Contends :
      (own : Text) (lock : Lock) (e : LockError) (w : World)
      → Contends own w.store (give_up lock e w)
  give_up-Contends own lock e w =
      (delete_node-Calm lock.path (negsuc 0) w.store, λ l h. absurd (ground (arith, h)))

  pub still : (s : Store) → Calm s s
  still s = ((λ x h. h), refl)

  module _ (now : ℕ) (lock : Lock) (w : World) where
    abbrev own : Text
    own = lock_path lock.name

    abbrev held_lock : Lock
    held_lock = record lock { acquired = now }

    taken-Contends :
        (m : Manager)
        → check_lock_acquired own lock.path w.store ≡ ok true
        → Contends own w.store (record w { manager = m }, [], held held_lock)
    taken-Contends m front = (
      still w.store,
      λ l h. ap (λ o. check_lock_acquired own (path_of o) w.store) (sym h) ∙ front,
    )
      where
        path_of : Outcome → Text
        path_of (held l) = l.path
        path_of (failed e) = []
        path_of (waits l) = []

    waits-Contends : (m : Manager) → Contends own w.store (record w { manager = m }, [], waits lock)
    waits-Contends m = (still w.store, λ l h. absurd (ground (arith, h)))

    contend_at :
        (answer : Result StoreError Bool) (timeout : ℤ) (m : Manager)
        → check_lock_acquired own lock.path w.store ≡ answer
        → Contends own w.store (elim answer [
          | err e ↦ give_up lock (store_error e) w
          | ok true ↦ (record w { manager = m }, [], held held_lock)
          | ok false ↦ elim timeout [
            | negsuc _ ↦ give_up lock lock_timeout w
            | pos _ ↦ (w, [], waits lock)
          ]
        ])
    contend_at (err e) timeout m e' = give_up-Contends own lock (store_error e) w
    contend_at (ok true) timeout m e' = taken-Contends m e'
    contend_at (ok false) (negsuc k) m e' = give_up-Contends own lock lock_timeout w
    contend_at (ok false) (pos k) m e' = waits-Contends w.manager

    pub contend-Contends : (timeout : ℤ) → Contends own w.store (contend now timeout lock w)
    unfolding contend hold
    contend-Contends timeout =
        contend_at (check_lock_acquired own lock.path w.store) timeout (hold now lock w.manager).0
          refl

    wake_at :
        (answer : Result StoreError Bool) (m m' m'' : Manager)
        → check_lock_acquired own lock.path w.store ≡ answer
        → Contends own w.store (elim answer [
          | err e ↦
              let (w', calls, outcome) = give_up lock (store_error e) w in
              (record w' { manager = m }, calls, outcome)
          | ok true ↦ (record w { manager = m' }, [], held held_lock)
          | ok false ↦ (record w { manager = m'' }, [], waits lock)
        ])
    wake_at (err e) m m' m'' e' =
        (delete_node-Calm lock.path (negsuc 0) w.store, λ l h. absurd (ground (arith, h)))
    wake_at (ok true) m m' m'' e' = taken-Contends m' e'
    wake_at (ok false) m m' m'' e' = waits-Contends m''

    pub wake-Contends : (channel : ℕ) → Contends own w.store (wake now channel lock w)
    unfolding wake hold
    wake-Contends channel = wake_at (check_lock_acquired own lock.path w.store) _ _ _ refl
