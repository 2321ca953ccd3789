-- ===== src/Wiring/Release.antt =====
-- cmd/skylock/main.go with internal/lock/manager.go and internal/session/manager.go: what the end of a
-- lock or of a session sets off.
use sky_lock.Common.{
  ℕ, ◌+◌, lookup-delete, str_eq_refl, ◌≡◌, refl, ap, ◌∙◌, true, false, Option, none, some, [], ◌∷◌,
  Text, str_eq, IsFlat, Option_elim, if_elim, lookup, negsuc, ℤ, arith, if◌then◌else◌, ltb, length,
}
use sky_lock.Path.{root, normalize_path}
use sky_lock.Store.{
  lock_manager, watch_manager, Notice, Callbacks, Store, StoreError, Calls, start, delete_node,
  root_deletion, version_conflict, version_mismatch, not_empty,
}
use sky_lock.Store.Contents.{at}
use sky_lock.Store.Expiry.{owns, delete_ephemerals_lem}
use sky_lock.Session
use sky_lock.Session.Expiration.{heartbeat_skips_callback}
use sky_lock.Lock
use sky_lock.Lock.Waiting.{unlock}
use sky_lock.Wiring.{
  System, main_callbacks, deliver, deliver_all, clean_up_session, clean_up_sessions,
  heartbeat_session, close_session,
}

-- The calls go to the watch manager.
ToWatches : Calls → Type 0
ToWatches [] = Unit
ToWatches ((watch_manager, notice) ∷ rest) = ToWatches rest
ToWatches ((lock_manager, notice) ∷ rest) = ⊥

deliver_watch :
    (id : Text) (notice : Notice) (y : System)
    → (deliver id (watch_manager, notice) y).locks ≡ y.locks
unfolding deliver
deliver_watch id (Notice.created path n) y = refl
deliver_watch id (Notice.updated path n) y = refl
deliver_watch id (Notice.deleted path) y = refl

deliver_all-ToWatches :
    (ids : ℕ → Text) (k : ℕ) (calls : Calls) (y : System)
    → ToWatches calls
    → (deliver_all ids k calls y).locks ≡ y.locks
unfolding ToWatches deliver_all
deliver_all-ToWatches ids k [] y to = refl
deliver_all-ToWatches ids k ((watch_manager, notice) ∷ rest) y to =
    deliver_all-ToWatches ids (1 + k) rest (deliver (ids k) (watch_manager, notice) y) to
    ∙ deliver_watch (ids k) notice y
deliver_all-ToWatches ids k ((lock_manager, notice) ∷ rest) y to = absurd to

delete_node-ToWatches :
    (path : Text) (expected : ℤ) (s : Store)
    → s.callbacks.on_delete ≡ some watch_manager
    → ToWatches (delete_node path expected s).1
unfolding delete_node ToWatches
delete_node-ToWatches node_path expected s wired =
    let path = normalize_path node_path in
    if_elim To (str_eq path root) (s, [], some root_deletion) _ (λ _. tt)
      (λ _.
        Option_elim To (lookup path s.nodes) _ _ (λ _. tt)
          (λ n _.
            if_elim To (version_conflict expected n.version) (s, [], some version_mismatch) _
              (λ _. tt)
              (λ _.
                if_elim To (ltb 0 (length n.children)) (s, [], some not_empty) _ (λ _. tt)
                  (λ _. rw (wired, start) tt))))
  where
    To : Store × Calls × Option StoreError → Type 0
    To r = ToWatches r.1

-- What `Unlock` calls goes to the watch manager, and it leaves the waiters as they are.
Quiet : System → Lock.World × Calls × Option Lock.LockError → Type 0
Quiet y r = ToWatches r.1 × (r.0.manager.waiters ≡ y.locks.waiters)

unlock-Quiet :
    (lock : Option Lock.Lock) (y : System)
    → y.store.callbacks ≡ main_callbacks
    → Quiet y (unlock lock (record { manager = y.locks; store = y.store }))
unfolding unlock Quiet ToWatches
unlock-Quiet none y wired = (tt, refl)
unlock-Quiet (some lock) y wired =
    let to =
      delete_node-ToWatches lock.path (negsuc 0) y.store
        (ap (λ (c : Callbacks). c.on_delete) wired) in
    if_elim (Quiet y) (str_eq lock.path [])
      (record { manager = y.locks; store = y.store }, [], some Lock.lock_not_held) _
      (λ _. (tt, refl)) (λ _. (to, refl))

-- Unlock, with the callbacks that main registers, wakes nobody: when all the callbacks that it
-- starts have run, every waiter of every lock is as it was, whether the lock node could be deleted
-- or not.
pub unlock_wakes_nobody :
    (ids : ℕ → Text) (lock : Option Lock.Lock) (y : System)
    → y.store.callbacks ≡ main_callbacks
    → (let (w, calls, _) = unlock lock (record { manager = y.locks; store = y.store }) in
        (deliver_all ids 0 calls (record y { locks = w.manager; store = w.store })).locks.waiters
        ≡ y.locks.waiters)
unfolding Quiet
unlock_wakes_nobody ids lock y wired =
    let (w, calls, _) = unlock lock (record { manager = y.locks; store = y.store }) in
    let (to, same) = unlock-Quiet lock y wired in
    ap (λ (m : Lock.Manager). m.waiters)
      (deliver_all-ToWatches ids 0 calls (record y { locks = w.manager; store = w.store }) to)
    ∙ same

-- Closing a session that is there under its own identifier, with the callback set as main sets it
-- and a store without two entries for a path, takes away the session and every ephemeral node of
-- it, and what is held at every other path of the store stays.
pub close_session_lem :
    (id q : Text) (s : Session.Session) (y : System)
    → Session.get id y.sessions ≡ some s
    → s.id ≡ id
    → y.sessions.on_expire ≡ true
    → IsFlat y.store.nodes
    → (let (y', _, answer) = close_session id y in
        (answer ≡ true)
        × (Session.get id y'.sessions ≡ none)
        × (at q y'.store.nodes
            ≡ (if owns id (at q y.store.nodes) then none else at q y.store.nodes)))
unfolding close_session clean_up_sessions clean_up_session Session.get Session.close
close_session_lem id q s y there own set flat = ground (
  arith,
  there,
  own,
  set,
  delete_ephemerals_lem id q y.store flat,
  lookup-delete id id y.sessions.sessions,
  str_eq_refl id,
)

-- A session that has expired and then sends a heartbeat is gone and its ephemeral nodes stay: the
-- heartbeat, and a Close after it, leave the store as it is.
pub heartbeat_leaves_ephemerals :
    (now : ℕ) (id : Text) (s : Session.Session) (y : System)
    → Session.get id y.sessions ≡ some s
    → Session.is_expired now s ≡ true
    → (let (y', answer) = heartbeat_session now id y in
        let (y'', calls, closed) = close_session id y' in
        (answer ≡ false)
        × (Session.get id y'.sessions ≡ none)
        × (y'.store ≡ y.store)
        × (closed ≡ false)
        × (y''.store ≡ y.store))
unfolding heartbeat_session close_session clean_up_sessions
heartbeat_leaves_ephemerals now id s y there expired =
    ground (arith, heartbeat_skips_callback now id s y.sessions there expired)
