-- ===== src/Wiring.antt =====
-- cmd/skylock/main.go: how `main` puts the managers and the store together.
pub mod Release
use sky_lock.Common.{ℕ, ◌+◌, ℤ, Bool, Option, none, some, List, [], ◌∷◌, ◌++◌, Text, Result}
use sky_lock.Store.{
  Listener, lock_manager, watch_manager, Notice, created, updated, deleted, Callbacks, Store, Calls,
  new_store, set_watch_callbacks, delete_ephemerals,
}
use sky_lock.Session
use sky_lock.Watch
use sky_lock.Lock
use sky_lock.Lock.Waiting

pub record System : Type 0 where
  pub sessions : Session.Manager
  pub store : Store
  pub watches : Watch.Manager
  pub locks : Lock.Manager

-- The callbacks that lock.NewManager registers.
abbrev pub lock_callbacks : Callbacks
lock_callbacks = record { on_create = none; on_update = none; on_delete = some lock_manager }

-- The callbacks that `main` registers.
abbrev pub main_callbacks : Callbacks
main_callbacks = record {
  on_create = some watch_manager;
  on_update = some watch_manager;
  on_delete = some watch_manager;
}

-- The components, in the order in which `main` makes and wires them.
unfoldable pub boot : ℤ → ℤ → ℕ → System
boot default_ttl max_ttl now =
    let data_store = set_watch_callbacks lock_callbacks (new_store now) in
    record {
      sessions = Session.set_on_expire (Session.new_manager default_ttl max_ttl);
      store = set_watch_callbacks main_callbacks data_store;
      watches = Watch.new_manager;
      locks = Lock.new_manager;
    }

-- A callback that runs, with the identifier that a new event gets.
unfoldable pub deliver : Text → Listener × Notice → System → System
deliver id (watch_manager, created path n) y = record y {
  watches = Watch.trigger_create id path n.payload n.version y.watches;
}
deliver id (watch_manager, updated path n) y = record y {
  watches = Watch.trigger_data_change id path n.payload n.version y.watches;
}
deliver id (watch_manager, deleted path) y = record y {
  watches = Watch.trigger_delete id path y.watches;
}
deliver id (lock_manager, deleted path) y = record y { locks = Lock.on_node_deleted path y.locks }
deliver id (lock_manager, notice) y = y

unfoldable pub deliver_all : (ℕ → Text) → ℕ → Calls → System → System
unfolding deliver
deliver_all ids k [] y = y
deliver_all ids k (call ∷ calls) y = deliver_all ids (1 + k) calls (deliver (ids k) call y)

-- The callback for a session that has ended.
unfoldable pub clean_up_session : Session.Session → System → System × Calls
clean_up_session s y =
    let (store, calls, _) = delete_ephemerals s.id y.store in (record y { store = store }, calls)

unfoldable pub clean_up_sessions : List Session.Session → System → System × Calls
unfolding clean_up_session
clean_up_sessions [] y = (y, [])
clean_up_sessions (s ∷ rest) y =
    let (y', calls) = clean_up_session s y in
    let (y'', calls') = clean_up_sessions rest y' in (y'', calls ++ calls')

-- `Heartbeat`, `Close` and `checkExpirations` of the session manager, with the callback of `main`.
unfoldable pub heartbeat_session : ℕ → Text → System → System × Bool
heartbeat_session now id y =
    let (m, answer) = Session.heartbeat now id y.sessions in (record y { sessions = m }, answer)

unfoldable pub close_session : Text → System → System × Calls × Bool
unfolding clean_up_sessions
close_session id y =
    let (m, ended, answer) = Session.close id y.sessions in
    let (y', calls) = clean_up_sessions ended (record y { sessions = m }) in (y', calls, answer)

unfoldable pub expire_sessions : ℕ → System → System × Calls
unfolding clean_up_sessions
expire_sessions now y =
    let (m, ended) = Session.check_expirations now y.sessions in
    clean_up_sessions ended (record y { sessions = m })
