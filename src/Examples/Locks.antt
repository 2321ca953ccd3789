-- ===== src/Examples/Locks.antt =====
-- internal/lock, internal/api and cmd/skylock: locks, requests and the components together.
use sky_lock.Common.{
  ℕ, ◌+◌, ◌≤◌, ◌<◌, ◌^◌, ◌≡◌, refl, true, false, none, some, [], ◌∷◌, ◌++◌, Text, text, arith, pos,
  lookup, put, str_eq, if◌then◌else◌,
}
use sky_lock.Path.{
  normalize_path, parent_path, base_name, resolve, push_segment, split, join, dir_part, has_slash,
}
use sky_lock.Path.Segments.{IsProper}
use sky_lock.Store.{Store, Node, Creation, new_store, create, node_not_found, set_watch_callbacks}
use sky_lock.Store.Tree.{has_name, new_store-IsTree}
use sky_lock.Store.Reach.{fresh, after, create_step, IsGood, reachable-IsTree}
use sky_lock.Store.Contents.{at}
use sky_lock.Store.Expiry.{owns}
use sky_lock.Session
use sky_lock.Lock
use sky_lock.Lock.First.{front_of, check_lock_acquired_lem}
use sky_lock.Lock.Tickets.{ticket}
use sky_lock.Lock.Queue.{asked, after_queued, try_lock_lem}
use sky_lock.Lock.Waiting.{wake}
use sky_lock.Lock.Wake.{woken, left_of, answer_of, wake_lem}
use sky_lock.Lock.Missing.{try_lock_missing}
use sky_lock.Lock.Waiting.{unlock}
use sky_lock.Wiring.{System, boot, deliver_all, heartbeat_session, close_session}
use sky_lock.Api.{delete_node}
use sky_lock.Api.Locks.{release_lock}
use sky_lock.Api.Release.{release_any_node}
use sky_lock.Api.Version.{delete_ignores_version}
use sky_lock.Wiring.Release.{unlock_wakes_nobody, close_session_lem, heartbeat_leaves_ephemerals}
use sky_lock.Examples.Services.{mine, one_session}

abbrev directory : Creation
directory = record { now = 7; payload = []; ephemeral = false; session_id = []; sequential = false }

abbrev empty : Store
empty = new_store 5

-- "/locks", and then the directory of the lock "x".
abbrev with_locks : Store
with_locks = (create directory (text "/locks") empty).0

abbrev ready : Store
ready = (create directory (text "/locks/x") with_locks).0

ready-IsGood : IsGood ready
ready-IsGood = reachable-IsTree ready (
    after with_locks ready
      (after empty with_locks (fresh 5) (create_step directory (text "/locks") empty (λ _. refl)))
      (create_step directory (text "/locks/x") with_locks (λ _. refl)))

x_proper : IsProper (text "x")
unfolding has_slash
x_proper = record {
  whole = refl;
  not_empty = λ e. ground (arith, e);
  not_dot = λ e. ground (arith, e);
  not_dot_dot = λ e. ground (arith, e);
}

abbrev x_node : Node
x_node = record {
  path = text "/locks/x";
  payload = [];
  version = 1;
  ephemeral = false;
  session_id = [];
  sequential = false;
  sequence = 0;
  children = [];
  create_time = 7;
  modify_time = 7;
}

x_there : lookup (Lock.lock_path (text "x")) ready.nodes ≡ some x_node
unfolding create new_store lookup put normalize_path parent_path base_name resolve push_segment
    split join dir_part has_slash str_eq
x_there = refl

ready_counter : ready.seq_counter ≡ 0
unfolding create new_store lookup put normalize_path parent_path base_name resolve push_segment
    split join dir_part has_slash str_eq
ready_counter = refl

none_listed : (x : Text) → has_name x [] ≡ true → ⊥
unfolding has_name
none_listed x h = ground (arith, h)

check_lock_acquired_lem_example :
    Lock.check_lock_acquired (text "/locks/x") (text "/locks/x/lock-1") ready
    ≡ front_of
        (Lock.trim_prefix (text "/locks/x/lock-1") (text "/locks/x/"))
        (lookup (normalize_path (text "/locks/x")) ready.nodes)
check_lock_acquired_lem_example =
    check_lock_acquired_lem (text "/locks/x") (text "/locks/x/lock-1") ready

abbrev attempt : Lock.Attempt
attempt = record {
  name = text "x";
  owner = text "me";
  session_id = text "s";
  timeout = pos 0;
  now = 20;
}

none_earlier :
    (x : Text)
    → has_name x x_node.children ≡ true
    → (i : ℕ) × (i ≤ ready.seq_counter) × (x ≡ ticket i)
none_earlier x h = absurd (none_listed x h)

few : ready.seq_counter + 1 < 10 ^ 10
few = omega (arith, ready_counter)

abbrev got : Lock.Lock
got = asked (text "x") x_proper ready x_node x_there refl none_earlier few (text "me") (text "s") 20

try_lock_lem_example :
    let (w, _, outcome) =
      Lock.try_lock attempt (record { manager = Lock.new_manager; store = ready }) in
    (outcome ≡ Lock.held got)
    × (w.manager ≡ record Lock.new_manager { locks = put got.path got Lock.new_manager.locks })
    × ((q : Text)
        → lookup q w.store.nodes
          ≡ after_queued
              (text "x")
              x_proper
              ready
              x_node
              x_there
              refl
              none_earlier
              few
              (text "me")
              (text "s")
              20
              q)
try_lock_lem_example =
    try_lock_lem (text "x") x_proper ready x_node x_there refl none_earlier few (text "me")
      (text "s") 20 0 Lock.new_manager ready-IsGood.0

locks_missing : lookup (text "/locks") empty.nodes ≡ none
unfolding new_store lookup str_eq
locks_missing = refl

try_lock_missing_example :
    Lock.try_lock attempt (record { manager = Lock.new_manager; store = empty }) ≡ (
      record { manager = Lock.new_manager; store = empty },
      [],
      Lock.failed (Lock.store_error node_not_found),
    )
try_lock_missing_example =
    try_lock_missing attempt (record { manager = Lock.new_manager; store = empty }) x_proper
      (new_store-IsTree 5) locks_missing

abbrev system : System
system = boot (pos 30) (pos 60) 5

abbrev held_lock : Lock.Lock
held_lock = record {
  name = text "x";
  owner = text "me";
  session_id = text "s";
  path = text "/locks/x/lock-0000000001";
  sequence = 1;
  acquired = 20;
}

unlock_wakes_nobody_example :
    let (w, calls, _) =
      unlock (some held_lock) (record { manager = system.locks; store = system.store }) in
    (deliver_all
      (λ _. text "e")
      0
      calls
      (record system { locks = w.manager; store = w.store })).locks.waiters
    ≡ system.locks.waiters
unfolding boot set_watch_callbacks
unlock_wakes_nobody_example = unlock_wakes_nobody (λ _. text "e") (some held_lock) system refl

abbrev busy : System
busy = record system { sessions = one_session; store = ready }

close_session_lem_example :
    let (y', _, answer) = close_session (text "s") busy in
    (answer ≡ true)
    × (Session.get (text "s") y'.sessions ≡ none)
    × (at (text "/locks/x") y'.store.nodes ≡ (
        if owns (text "s") (at (text "/locks/x") ready.nodes)
        then none
        else at (text "/locks/x") ready.nodes))
unfolding Session.get lookup str_eq
close_session_lem_example =
    close_session_lem (text "s") (text "/locks/x") mine busy refl refl refl ready-IsGood.1

heartbeat_leaves_ephemerals_example :
    let (y', answer) = heartbeat_session 100 (text "s") busy in
    let (y'', calls, closed) = close_session (text "s") y' in
    (answer ≡ false)
    × (Session.get (text "s") y'.sessions ≡ none)
    × (y'.store ≡ ready)
    × (closed ≡ false)
    × (y''.store ≡ ready)
unfolding Session.get Session.is_expired Session.longer Session.since lookup str_eq
heartbeat_leaves_ephemerals_example = heartbeat_leaves_ephemerals 100 (text "s") mine busy refl refl

delete_ignores_version_example :
    delete_node (text "locks/x") (text "17") busy ≡ delete_node (text "locks/x") [] busy
delete_ignores_version_example =
    delete_ignores_version (text "locks/x") (text "17") busy
      (omega arith, omega arith, (omega arith, omega arith, tt)) (omega arith)

x_normal : normalize_path (text "/locks/x") ≡ text "/locks/x"
unfolding normalize_path resolve push_segment split join str_eq
x_normal = refl

x_at : lookup (normalize_path (text "/locks/x")) ready.nodes ≡ some x_node
x_at = rw x_normal x_there

release_any_node_example :
    let (y', _, response) = release_lock (text "other") (some (text "/locks/x")) busy in
    (response.status ≡ 204) × (lookup (normalize_path (text "/locks/x")) y'.store.nodes ≡ none)
release_any_node_example =
    release_any_node (text "other") (text "/locks/x") x_node busy x_at
      (rw x_normal (λ e. ground (arith, e))) (λ e. ground (arith, e)) refl

-- A signalled waiter of the lock "x".
abbrev waiting_world : Lock.World
waiting_world = record {
  manager = record {
    locks = [];
    waiters =
        (
          text "x",
          record { channel = 3; signalled = true } ∷ record { channel = 4; signalled = true } ∷ [],
        )
        ∷ [];
  };
  store = ready;
}

wake_lem_example :
    let answer = answer_of held_lock waiting_world in
    let (w', _, outcome) = wake 30 4 held_lock waiting_world in
    (outcome ≡ woken 30 held_lock answer)
    × (Lock.waiters_of (text "x") w'.manager
        ≡ record { channel = 3; signalled = true } ∷ left_of 4 answer ++ [])
unfolding Lock.waiters_of lookup str_eq
wake_lem_example =
    wake_lem 30 4 true (record { channel = 3; signalled = true } ∷ []) [] held_lock waiting_world
      refl ((λ e. omega (arith, e)), tt)
