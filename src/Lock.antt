-- ===== src/Lock.antt =====
-- internal/lock/manager.go: the lock manager over the store.
pub mod First
pub mod Tickets
pub mod Placing
pub mod Queue
pub mod Missing
pub mod Waiting
pub mod Wake
pub mod Exclusion
use sky_lock.Common.{
  ℕ, ◌+◌, Bool, true, false, not, ◌&&◌, Option, none, some, List, [], ◌∷◌, ◌++◌, ltb, ◌==◌,
  if◌then◌else◌, length, drop, Text, text, str_eq, Map, lookup, put, delete, Result, ok, err, ℤ,
  pos, negsuc,
}
use sky_lock.Path.{has_prefix, split}
use sky_lock.Sequence.{parse_sequence}
use sky_lock.Store.{
  StoreError, Store, Calls, Creation, create, delete_node, get, get_children, exists, sort_texts,
}

-- The errors of the package, and those that the store returns.
pub data LockError : Type 0 where
  lock_not_held lock_timeout lock_exists : LockError
  store_error : StoreError → LockError

pub record Lock : Type 0 where
  pub name : Text
  pub owner : Text
  pub session_id : Text
  pub path : Text
  pub sequence : ℕ
  pub acquired : ℕ

-- A channel with room for one signal, by its number, and whether the signal is in it.
pub record Waiter : Type 0 where
  pub channel : ℕ
  pub signalled : Bool

pub record Manager : Type 0 where
  pub locks : Map Lock
  pub waiters : Map (List Waiter)

unfoldable pub new_manager : Manager
new_manager = record { locks = []; waiters = [] }

-- m.waiters[name], which is nil for a name without waiters.
unfoldable pub waiters_of : Text → Manager → List Waiter
waiters_of name m = elim (lookup name m.waiters) [ none ↦ [] | some ws ↦ ws ]

-- The `select` that does not block.
abbrev pub signal : List Waiter → List Waiter
signal [] = []
signal (w ∷ ws) = record w { signalled = true } ∷ ws

abbrev pub third : List Text → Option Text
third (a ∷ b ∷ c ∷ rest) = some c
third parts = none

unfoldable pub on_node_deleted : Text → Manager → Manager
unfolding waiters_of
on_node_deleted path m =
    if has_prefix path (text "/locks/")
    then elim (third (split b'/' path)) [
      | none ↦ m
      | some name ↦ elim (lookup name m.waiters) [
        | none ↦ m
        | some ws ↦ record m { waiters = put name (signal ws) m.waiters }
      ]
    ]
    else m

abbrev pub lock_path : Text → Text
lock_path name = text "/locks/" ++ name

-- strings.TrimPrefix
unfoldable pub trim_prefix : Text → Text → Text
trim_prefix s prefix = if has_prefix s prefix then drop (length prefix) s else s

-- `Extract our sequence number from the path`
abbrev pub second_of_two : List Text → Option Text
second_of_two (a ∷ b ∷ []) = some b
second_of_two parts = none

unfoldable pub sequence_of : Text → Text → ℕ
unfolding trim_prefix
sequence_of lock_path node_path =
    elim (second_of_two (split b'-' (trim_prefix node_path (lock_path ++ text "/")))) [
      | none ↦ 0
      | some digits ↦ parse_sequence 0 digits
    ]

abbrev pub first_is : Text → List Text → Bool
first_is name [] = false
first_is name (child ∷ rest) = str_eq child name

unfoldable pub check_lock_acquired : Text → Text → Store → Result StoreError Bool
unfolding trim_prefix
check_lock_acquired lock_path our_path s = elim (get_children lock_path s) [
  | err e ↦ err e
  | ok children ↦ ok (first_is (trim_prefix our_path (lock_path ++ text "/")) (sort_texts children))
]

-- The arguments of `TryLock`, with the clock.
pub record Attempt : Type 0 where
  pub name : Text
  pub owner : Text
  pub session_id : Text
  pub timeout : ℤ
  pub now : ℕ

-- How `TryLock` ends or, in `waits`, goes on in `waitForLock`.
pub data Outcome : Type 0 where
  held : Lock → Outcome
  failed : LockError → Outcome
  waits : Lock → Outcome

pub record World : Type 0 where
  pub manager : Manager
  pub store : Store

-- `Acquired` is set and the lock is kept under its path.
unfoldable pub hold : ℕ → Lock → Manager → Manager × Lock
hold now lock m =
    let held_lock : Lock = record lock { acquired = now } in
    (record m { locks = put lock.path held_lock m.locks }, held_lock)

-- `m.store.Delete(nodePath, -1)`, whose error is ignored.
abbrev pub give_up : Lock → LockError → World → World × Calls × Outcome
give_up lock e w =
    let (s, calls, _) = delete_node lock.path (negsuc 0) w.store in
    (record w { store = s }, calls, failed e)

-- `TryLock` once the lock node is there, up to the call of `waitForLock`.
unfoldable pub contend : ℕ → ℤ → Lock → World → World × Calls × Outcome
unfolding check_lock_acquired hold
contend now timeout lock w =
    let (m, held_lock) = hold now lock w.manager in
    elim (check_lock_acquired (lock_path lock.name) lock.path w.store) [
      | err e ↦ give_up lock (store_error e) w
      | ok true ↦ (record w { manager = m }, [], held held_lock)
      | ok false ↦ elim timeout [
        | negsuc _ ↦ give_up lock lock_timeout w
        | pos _ ↦ (w, [], waits lock)
      ]
    ]

-- `Ensure lock directory exists`; the result of `Create` is ignored.
unfoldable pub ensure_directory : ℕ → Text → Store → Store × Calls
ensure_directory now path s =
    let directory : Creation = record {
      now = now;
      payload = [];
      ephemeral = false;
      session_id = [];
      sequential = false;
    } in
    let (s', calls, _) = create directory path s in if exists path s then (s, []) else (s', calls)

unfoldable pub try_lock : Attempt → World → World × Calls × Outcome
unfolding ensure_directory contend sequence_of
try_lock a w =
    let path = lock_path a.name in
    let node : Creation = record {
      now = a.now;
      payload = a.owner;
      ephemeral = true;
      session_id = a.session_id;
      sequential = true;
    } in
    let (s, calls) = ensure_directory a.now path w.store in
    let (s', calls', made) = create node (path ++ text "/lock-") s in
    elim made [
      | err e ↦ (record w { store = s' }, calls ++ calls', failed (store_error e))
      | ok node_path ↦
          let lock : Lock = record {
            name = a.name;
            owner = a.owner;
            session_id = a.session_id;
            path = node_path;
            sequence = sequence_of path node_path;
            acquired = 0;
          } in
          let (w', calls'', outcome) = contend a.now a.timeout lock (record w { store = s' }) in
          (w', calls ++ calls' ++ calls'', outcome)
    ]

-- `Lock` waits as long as it takes.
unfoldable pub lock_forever : ℕ → Text → Text → Text → World → World × Calls × Outcome
unfolding try_lock
lock_forever now name owner session_id =
    try_lock
      (record { name = name; owner = owner; session_id = session_id; timeout = pos 0; now = now })

-- `LockWithID`: the identifier, which is made up where it is missing, is not used.
unfoldable pub lock_with_id : ℕ → Text → Text → Text → Text → World → World × Calls × Outcome
unfolding lock_forever
lock_with_id now name owner session_id lock_id = lock_forever now name owner session_id
