-- ===== src/Api/Locks.antt =====
-- internal/api/server.go: the handlers of locks. A request that has to wait has no response yet.
use sky_lock.Common.{
  ℕ, zero, suc, ◌*◌, u64, not, Option, none, some, [], Text, text, str_eq, if◌then◌else◌, ok, err,
  ℤ, pos, negsuc,
}
use sky_lock.Store
use sky_lock.Lock
use sky_lock.Lock.Waiting.{unlock, get_lock_holder, get_queue_length}
use sky_lock.Wiring.{System}
use sky_lock.Api.{
  bits, signed, Response, respond, respond_error, message, no_body, lock_body, lock_info_body,
}

-- err.Error()
unfoldable pub lock_message : Lock.LockError → Text
unfolding message
lock_message Lock.lock_not_held = text "lock not held"
lock_message Lock.lock_timeout = text "lock acquisition timed out"
lock_message Lock.lock_exists = text "lock already exists"
lock_message (Lock.store_error e) = message e

pub record AcquireRequest : Type 0 where
  pub owner : Text
  pub session_id : Text
  pub timeout_ms : ℤ

-- `time.Duration(req.Timeout) * time.Millisecond`, and thirty seconds for 0.
unfoldable pub lock_wait : ℤ → ℤ
unfolding bits signed
lock_wait n =
    let nanoseconds = signed (u64 (bits n * 1000000)) in
    elim nanoseconds [
      | pos zero ↦ pos 30000000000
      | pos (suc k) ↦ pos (suc k)
      | negsuc k ↦ negsuc k
    ]

pub data Answer : Type 0 where
  responded : Response → Answer
  waiting : Lock.Lock → Answer

unfoldable pub acquire_answer : Lock.Outcome → Answer
unfolding lock_message
acquire_answer (Lock.held lock) = responded (respond 200 (lock_body lock))
acquire_answer (Lock.failed Lock.lock_timeout) =
    responded (respond_error 408 (text "lock acquisition timed out"))
acquire_answer (Lock.failed e) = responded (respond_error 500 (lock_message e))
acquire_answer (Lock.waits lock) = waiting lock

unfoldable pub acquire_lock :
    ℕ → Text → Option AcquireRequest → System → System × Store.Calls × Answer
unfolding lock_wait acquire_answer
acquire_lock now name none y = (y, [], responded (respond_error 400 (text "invalid request body")))
acquire_lock now name (some req) y =
    let attempt : Lock.Attempt = record {
      name = name;
      owner = req.owner;
      session_id = req.session_id;
      timeout = lock_wait req.timeout_ms;
      now = now;
    } in
    let (w, calls, outcome) =
      Lock.try_lock attempt (record { manager = y.locks; store = y.store }) in
    if str_eq req.session_id []
    then (y, [], responded (respond_error 400 (text "session_id required")))
    else (record y { locks = w.manager; store = w.store }, calls, acquire_answer outcome)

-- The request has the lock node's path.
unfoldable pub release_lock : Text → Option Text → System → System × Store.Calls × Response
unfolding lock_message
release_lock name none y = (y, [], respond_error 400 (text "invalid request body"))
release_lock name (some lock_id) y =
    let lock : Lock.Lock = record {
      name = name;
      owner = [];
      session_id = [];
      path = lock_id;
      sequence = 0;
      acquired = 0;
    } in
    let (w, calls, e) = unlock (some lock) (record { manager = y.locks; store = y.store }) in
    let response : Response = elim e [
      | none ↦ respond 204 no_body
      | some Lock.lock_not_held ↦ respond_error 404 (text "lock not held")
      | some e ↦ respond_error 500 (lock_message e)
    ] in
    (record y { locks = w.manager; store = w.store }, calls, response)

unfoldable pub get_lock_info : Text → System → Response
get_lock_info name y = elim (get_lock_holder name y.store) [
  | err e ↦ respond_error 500 (message e)
  | ok holder ↦
      respond 200
        (lock_info_body name (not (str_eq holder [])) holder (get_queue_length name y.store))
]
