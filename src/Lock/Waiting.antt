-- ===== src/Lock/Waiting.antt =====
-- internal/lock/manager.go: `waitForLock`, `Unlock` and the methods that only read.
use sky_lock.Common.{
  ℕ, Bool, true, false, Option, none, some, List, [], ◌∷◌, ◌++◌, ltb, ◌==◌, if◌then◌else◌, length,
  Text, text, str_eq, lookup, put, delete, Result, ok, err, negsuc,
}
use sky_lock.Store.{StoreError, Store, Calls, delete_node, get, get_children, sort_texts}
use sky_lock.Lock.{
  LockError, lock_not_held, lock_timeout, store_error, Lock, Waiter, Manager, World, Outcome, held,
  waits, waiters_of, lock_path, check_lock_acquired, hold, give_up,
}

-- The waiter is added, with the channel that `make` gives.
unfoldable pub start_waiting : ℕ → Lock → Manager → Manager
unfolding waiters_of
start_waiting channel lock m =
    let waiter : Waiter = record { channel = channel; signalled = false } in
    record m { waiters = put lock.name (waiters_of lock.name m ++ waiter ∷ []) m.waiters }

-- The deferred loop that cuts the waiter out.
unfoldable pub cut_waiter : ℕ → List Waiter → List Waiter
cut_waiter channel [] = []
cut_waiter channel (w ∷ ws) =
    let rest = cut_waiter channel ws in if w.channel == channel then ws else w ∷ rest

unfoldable pub stop_waiting : ℕ → Lock → Manager → Manager
unfolding waiters_of cut_waiter
stop_waiting channel lock m =
    let left = cut_waiter channel (waiters_of lock.name m) in
    elim (lookup lock.name m.waiters) [
      | none ↦ m
      | some ws ↦ record m { waiters = put lock.name left m.waiters }
    ]

-- A signal is taken out of a channel.
unfoldable pub take_signal : ℕ → List Waiter → List Waiter
take_signal channel [] = []
take_signal channel (w ∷ ws) =
    let rest = take_signal channel ws in
    if w.channel == channel then record w { signalled = false } ∷ ws else w ∷ rest

unfoldable pub is_signalled : ℕ → List Waiter → Bool
is_signalled channel [] = false
is_signalled channel (w ∷ ws) =
    let rest = is_signalled channel ws in if w.channel == channel then w.signalled else rest

-- `case <-waiter`: the lock may be held now; if not, the wait goes on.
unfoldable pub wake : ℕ → ℕ → Lock → World → World × Calls × Outcome
unfolding take_signal check_lock_acquired hold stop_waiting waiters_of
wake now channel lock w =
    let taken : Manager = record w.manager {
      waiters =
          put lock.name (take_signal channel (waiters_of lock.name w.manager)) w.manager.waiters;
    } in
    let (m, held_lock) = hold now lock taken in
    elim (check_lock_acquired (lock_path lock.name) lock.path w.store) [
      | err e ↦
          let (w', calls, outcome) = give_up lock (store_error e) w in
          (record w' { manager = stop_waiting channel lock taken }, calls, outcome)
      | ok true ↦ (record w { manager = stop_waiting channel lock m }, [], held held_lock)
      | ok false ↦ (record w { manager = taken }, [], waits lock)
    ]

-- `case <-timer`
unfoldable pub time_out : ℕ → Lock → World → World × Calls × Outcome
unfolding stop_waiting
time_out channel lock w =
    let (w', calls, outcome) = give_up lock lock_timeout w in
    (record w' { manager = stop_waiting channel lock w'.manager }, calls, outcome)

-- `None` is the success of a method that returns only an error; a nil lock has no path.
unfoldable pub unlock : Option Lock → World → World × Calls × Option LockError
unlock none w = (w, [], some lock_not_held)
unlock (some lock) w =
    let m : Manager = record w.manager { locks = delete lock.path w.manager.locks } in
    let (s, calls, e) = delete_node lock.path (negsuc 0) w.store in
    let failure : Option LockError = elim e [ none ↦ none | some e ↦ some (store_error e) ] in
    if str_eq lock.path []
    then (w, [], some lock_not_held)
    else (record { manager = m; store = s }, calls, failure)

unfoldable pub is_locked : Text → Store → Bool
is_locked name s = elim (get_children (lock_path name) s) [
  | err _ ↦ false
  | ok children ↦ ltb 0 (length children)
]

unfoldable pub get_lock_holder : Text → Store → Result StoreError Text
get_lock_holder name s = elim (get_children (lock_path name) s) [
  | err e ↦ err e
  | ok children ↦ holder (sort_texts children)
]
  where
    holder : List Text → Result StoreError Text
    holder [] = ok []
    holder (child ∷ rest) = elim (get (lock_path name ++ text "/" ++ child) s) [
      | err e ↦ err e
      | ok node ↦ ok node.payload
    ]

unfoldable pub get_queue_length : Text → Store → ℕ
get_queue_length name s = elim (get_children (lock_path name) s) [
  | err _ ↦ 0
  | ok children ↦ length children
]
