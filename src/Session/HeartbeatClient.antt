-- ===== src/Session/HeartbeatClient.antt =====
-- internal/session/manager.go, `HeartbeatClient`: its ticker and the function that it calls, whose errors
-- are only logged.
use sky_lock.Common.{ℕ, ◌==◌, Bool, true, false, List, [], ◌∷◌, Text, if◌then◌else◌}

-- time.NewTicker panics for an interval that is not positive, and closing a closed channel panics.
pub data Running : Type 0 where
  not_started running stopped crashed : Running

pub record HeartbeatClient : Type 0 where
  pub session_id : Text
  pub interval : ℕ
  pub state : Running

unfoldable pub new_heartbeat_client : Text → ℕ → HeartbeatClient
new_heartbeat_client session_id interval = record {
  session_id = session_id;
  interval = interval;
  state = not_started;
}

-- A client that has been stopped finds its channel closed.
unfoldable pub start : HeartbeatClient → HeartbeatClient
start h = elim h.state [
  | stopped ↦ record h { state = if h.interval == 0 then crashed else stopped }
  | _ ↦ record h { state = if h.interval == 0 then crashed else running }
]

unfoldable pub stop : HeartbeatClient → HeartbeatClient
stop h = elim h.state [
  | stopped ↦ record h { state = crashed }
  | crashed ↦ h
  | _ ↦ record h { state = stopped }
]

abbrev is_running : Running → Bool
is_running running = true
is_running _ = false

-- `S` is the state that the function changes, at the time of a tick.
module _ {ℓ} {S : Type ℓ} (heartbeat : ℕ → Text → S → S) where
  unfoldable pub tick : HeartbeatClient → ℕ → S → S
  tick h now s = if is_running h.state then heartbeat now h.session_id s else s

  -- The ticks of `run`, at the given times.
  unfoldable pub run : HeartbeatClient → List ℕ → S → S
  unfolding tick
  run h [] s = s
  run h (now ∷ times) s = run h times (tick h now s)
