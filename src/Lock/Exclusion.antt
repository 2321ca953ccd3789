-- ===== src/Lock/Exclusion.antt =====
-- internal/lock/manager.go: what can happen to the lock of one name, one event at a time. Other calls of
-- the manager and of the store come between the calls for the lock, in any order.
pub mod Effects
pub mod Tries
pub mod Fairness
pub mod Safety
use sky_lock.Common.{
  ℕ, ◌+◌, ◌^◌, ◌<◌, ◌≡◌, ◌≢◌, Bool, Option, List, [], ◌∷◌, ◌++◌, Text, text, ℤ, Result,
}
use sky_lock.Path.{normalize_path, parent_path}
use sky_lock.Path.Segments.{IsProper}
use sky_lock.Store.{Store, Calls, Creation, create, set, delete_node, delete_ephemerals, new_store}
use sky_lock.Lock.{
  Lock, Manager, new_manager, World, Attempt, Outcome, held, failed, waits, trim_prefix, lock_path,
  try_lock,
}
use sky_lock.Lock.Waiting.{wake, time_out, unlock}

-- The lock manager and its store, and the names of the nodes with which the lock was acquired.
pub record Site : Type 0 where
  pub world : World
  pub holders : List Text

-- The name that a lock node has in its directory.
abbrev pub node_name : Text → Lock → Text
node_name name lock = trim_prefix lock.path (lock_path name ++ text "/")

abbrev pub add_holder : Text → Outcome → List Text → List Text
add_holder name (held lock) hs = node_name name lock ∷ hs
add_holder name (failed e) hs = hs
add_holder name (waits lock) hs = hs

-- After a call that may acquire the lock, and after one that may not.
abbrev pub after : Text → World × Calls × Outcome → Site → Site
after name (w, calls, outcome) y = record { world = w; holders = add_holder name outcome y.holders }

abbrev pub with_store : Store → Site → Site
with_store s y = record y { world = record (y.world) { store = s } }

-- The sequence numbers stay below 10^10, and no node is created in the lock directory but by TryLock.
pub data Step (name : Text) (y : Site) : Site → Type 0 where
  try_step :
      (a : Attempt)
      → a.name ≡ name
      → y.world.store.seq_counter + 1 < 10 ^ 10
      → Step name y (after name (try_lock a y.world) y)
  other_try_step :
      (a : Attempt)
      → IsProper a.name
      → a.name ≢ name
      → y.world.store.seq_counter + 1 < 10 ^ 10
      → Step name y (record y { world = (try_lock a y.world).0 })
  wake_step :
      (now channel : ℕ) (lock : Lock)
      → lock.name ≡ name
      → Step name y (after name (wake now channel lock y.world) y)
  time_out_step :
      (channel : ℕ) (lock : Lock)
      → Step name y (record y { world = (time_out channel lock y.world).0 })
  unlock_step : (lock : Option Lock) → Step name y (record y { world = (unlock lock y.world).0 })
  manager_step : (m : Manager) → Step name y (record y { world = record (y.world) { manager = m } })
  create_step :
      (c : Creation) (node_path : Text)
      → parent_path (normalize_path node_path) ≢ lock_path name
      → y.world.store.seq_counter + 1 < 10 ^ 10
      → Step name y (with_store (create c node_path y.world.store).0 y)
  set_step :
      (now : ℕ) (node_path : Text) (payload : List ℕ) (expected : ℤ)
      → Step name y (with_store (set now node_path payload expected y.world.store).0 y)
  delete_step :
      (node_path : Text) (expected : ℤ)
      → Step name y (with_store (delete_node node_path expected y.world.store).0 y)
  expire_step :
      (session_id : Text)
      → Step name y (with_store (delete_ephemerals session_id y.world.store).0 y)

abbrev pub new_site : ℕ → Site
new_site now = record {
  world = record { manager = new_manager; store = new_store now };
  holders = [];
}

pub data Reachable (name : Text) (start : Site) : Site → Type 0 where
  here : Reachable name start start
  next : {y z : Site} → Reachable name start y → Step name y z → Reachable name start z
