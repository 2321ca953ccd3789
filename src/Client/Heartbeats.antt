-- ===== src/Client/Heartbeats.antt =====
-- pkg/client/client.go, `Connect` and its heartbeats, with the session manager of the server.
use sky_lock.Common.{
  ℕ, ◌+◌, ◌*◌, ◌≤◌, ◌<◌, ◌≡◌, ◌↔◌, refl, ◌∙◌, Bool, true, ◌&&◌, some, List, [], ◌∷◌, Text, lookup,
  put, lookup-put, str_eq_refl, arith, pos,
}
use sky_lock.Session
use sky_lock.Session.{heartbeat, is_expired, longer, since}
use sky_lock.Session.HeartbeatClient.{HeartbeatClient, running, tick, run}
use sky_lock.Client.{Client, crashed, heartbeat_interval, start_heartbeat}

-- The heartbeats of a session arrive at the given times; whether all are answered with success.
unfoldable pub arrive : Text → List ℕ → Session.Manager → Session.Manager × Bool
arrive id [] m = (m, true)
arrive id (now ∷ times) m =
    let (m', answer) = heartbeat now id m in
    let (m'', answers) = arrive id times m' in (m'', answer && answers)

-- Each comes at most three intervals after the one before it, so that two of three may get lost.
abbrev pub InTime : ℕ → ℕ → List ℕ → Type 0
InTime interval last [] = Unit
InTime interval last (now ∷ times) = (now ≤ last + 3 * interval) × InTime interval now times

abbrev pub last_of : ℕ → List ℕ → ℕ
last_of last [] = last
last_of last (now ∷ times) = last_of now times

-- The interval is at most a third of the TTL.
interval_lem : (ttl : ℕ) → 3 * heartbeat_interval ttl ≤ ttl
unfolding heartbeat_interval
interval_lem ttl = omega arith

heartbeat_in_time :
    (now : ℕ) (id : Text) (ttl : ℕ) (s : Session.Session) (m : Session.Manager)
    → lookup id m.sessions ≡ some s
    → s.ttl ≡ pos ttl
    → now ≤ s.last_heartbeat + 3 * heartbeat_interval ttl
    → heartbeat now id m
      ≡ (record m { sessions = put id (record s { last_heartbeat = now }) m.sessions }, true)
unfolding heartbeat is_expired longer since
heartbeat_in_time now id ttl s m there lives soon =
    ground (arith, there, lives, interval_lem ttl, soon)

-- A client whose heartbeats arrive, each at most three of its heartbeat intervals after the one
-- before it, keeps its session: every heartbeat is answered with success, and the session is still
-- there with the time of the last one.
pub heartbeats_keep_session :
    (times : List ℕ) (id : Text) (ttl : ℕ) (s : Session.Session) (m : Session.Manager)
    → lookup id m.sessions ≡ some s
    → s.ttl ≡ pos ttl
    → InTime (heartbeat_interval ttl) s.last_heartbeat times
    → let (m', answers) = arrive id times m in
      (answers ≡ true)
      × (lookup id m'.sessions
          ≡ some (record s { last_heartbeat = last_of s.last_heartbeat times }))
unfolding arrive
heartbeats_keep_session [] id ttl s m there lives soon = (refl, there)
heartbeats_keep_session (now ∷ times) id ttl s m there lives (first, rest) =
    let s' : Session.Session = record s { last_heartbeat = now } in
    let m' : Session.Manager = record m { sessions = put id s' m.sessions } in
    let step = heartbeat_in_time now id ttl s m there lives first in
    let there' : lookup id m'.sessions ≡ some s' =
      lookup-put id id s' m.sessions ∙ rw (str_eq_refl id) refl in
    let ih = heartbeats_keep_session times id ttl s' m' there' lives rest in rw (step, arrive) ih

-- The ticks of a HeartbeatClient that runs are such heartbeats.
pub run-arrive :
    (h : HeartbeatClient) (times : List ℕ) (m : Session.Manager)
    → h.state ≡ running
    → run (λ now id m. (heartbeat now id m).0) h times m ≡ (arrive h.session_id times m).0
unfolding run tick arrive
run-arrive h [] m is_on = refl
run-arrive h (now ∷ times) m is_on =
    rw (is_on, run) (run-arrive h times (heartbeat now h.session_id m).0 is_on)

-- A TTL below three seconds leaves no interval.
pub short_ttl_crashes :
    (ttl : ℕ) (c : Client)
    → ((start_heartbeat (heartbeat_interval ttl) c).heartbeat ≡ crashed) ↔ (ttl < 3000000000)
unfolding start_heartbeat heartbeat_interval
short_ttl_crashes ttl c = (λ e. ground (arith, e), λ less. ground (arith, less))
