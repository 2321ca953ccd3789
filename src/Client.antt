-- ===== src/Client.antt =====
-- pkg/client/client.go. What json and net/http do is a parameter: `exchange` sends a request to a server
-- and reads the whole answer, and each `decode` reads the fields of one answer.
pub mod Heartbeats
use sky_lock.Common.{
  ℕ, ◌+◌, ◌-◌, ◌*◌, ◌/◌, ◌==◌, ltb, leb, Bool, true, false, ◌&&◌, Option, none, some, List, [], ◌∷◌,
  ◌++◌, Text, text, str_eq, if◌then◌else◌, Result, ok, err, ℤ, pos, negsuc,
}
use sky_lock.Sequence.{itoa}

pub data Json : Type 0 where
  json_string : Text → Json
  json_number : ℤ → Json
  json_boolean : Bool → Json

pub record Request : Type 0 where
  pub method : Text
  pub path : Text
  pub body : Option (List (Text × Json))

-- time.NewTicker panics when its interval is not positive, which ends the process.
pub data Heartbeat : Type 0 where
  not_started stopped crashed : Heartbeat
  beating : ℕ → Heartbeat

pub record Client : Type 0 where
  pub base_url : Text
  pub session_id : Text
  pub heartbeat : Heartbeat

unfoldable pub new_client : List Text → Client
new_client [] = record {
  base_url = text "http://localhost:8080";
  session_id = [];
  heartbeat = not_started;
}
new_client (server ∷ rest) = record { base_url = server; session_id = []; heartbeat = not_started }

unfoldable pub session_request : Text → Request
session_request client_id = record {
  method = text "POST";
  path = text "/v1/session";
  body =
      some (
        (text "client_id", json_string client_id)
        ∷ (text "ttl_seconds", json_number (pos 30))
        ∷ []);
}

unfoldable pub close_request : Text → Request
close_request session_id = record {
  method = text "DELETE";
  path = text "/v1/session/" ++ session_id;
  body = none;
}

-- What the goroutine of `startHeartbeat` sends at each tick.
unfoldable pub heartbeat_request : Client → Request
heartbeat_request c = record {
  method = text "POST";
  path = text "/v1/session/" ++ c.session_id ++ text "/heartbeat";
  body = none;
}

-- `time.Duration(result.TTL/3) * time.Second`, for a TTL that is a number of nanoseconds.
unfoldable pub heartbeat_interval : ℕ → ℕ
heartbeat_interval ttl = ttl / 3 / 1000000000 * 1000000000

unfoldable pub start_heartbeat : ℕ → Client → Client
start_heartbeat interval c = record c {
  heartbeat = if interval == 0 then crashed else beating interval;
}

-- Closing a channel that is closed panics.
unfoldable pub stop_heartbeat : Heartbeat → Heartbeat
stop_heartbeat not_started = not_started
stop_heartbeat stopped = crashed
stop_heartbeat crashed = crashed
stop_heartbeat (beating interval) = stopped

unfoldable pub node_request : Text → Text → Option (List (Text × Json)) → Request
node_request method path body = record {
  method = method;
  path = text "/v1/nodes/" ++ path;
  body = body;
}

unfoldable pub lock_request : Text → Text → Text → ℤ → Request
lock_request name owner session_id timeout_ms = record {
  method = text "POST";
  path = text "/v1/locks/" ++ name;
  body = some (
      (text "owner", json_string owner)
      ∷ (text "session_id", json_string session_id)
      ∷ (text "timeout_ms", json_number timeout_ms)
      ∷ []);
}

unfoldable pub unlock_request : Text → Text → Request
unlock_request name lock_id = record {
  method = text "DELETE";
  path = text "/v1/locks/" ++ name;
  body = some ((text "lock_id", json_string lock_id) ∷ []);
}

-- The milliseconds of a timeout, with 30 seconds for less than one.
unfoldable pub timeout_ms : ℤ → ℤ
timeout_ms (pos n) = if n / 1000000 == 0 then pos 30000 else pos (n / 1000000)
timeout_ms (negsuc n) = if (n + 1) / 1000000 == 0 then pos 30000 else negsuc ((n + 1) / 1000000 - 1)

pub record Lock : Type 0 where
  pub name : Text
  pub lock_id : Text
  pub owner : Text

module _ (exchange : Text → Request → Result Text (ℕ × Text)) where
  -- The body of an answer, or an error for a status from 400 on.
  unfoldable pub do_request : Text → Request → Result Text Text
  do_request base_url req = elim (exchange base_url req) [
    | err e ↦ err e
    | ok (status, body) ↦
        if leb 400 status then err (text "HTTP " ++ itoa status ++ text ": " ++ body) else ok body
  ]

  -- A request whose answer is read.
  unfoldable pub fetch {ℓ} :
      {A : Type ℓ} → (Text → Result Text A) → Request → Client → Result Text A
  unfolding do_request
  fetch decode req c = elim (do_request c.base_url req) [ err e ↦ err e | ok body ↦ decode body ]

  -- A request whose answer is not read, by its error.
  unfoldable pub post : Request → Client → Option Text
  unfolding do_request
  post req c = elim (do_request c.base_url req) [ err e ↦ some e | ok body ↦ none ]

  -- The session's identifier and its TTL in nanoseconds are read.
  unfoldable pub connect : (Text → Result Text (Text × ℕ)) → Text → Client → Client × Option Text
  unfolding fetch session_request start_heartbeat heartbeat_interval
  connect decode client_id c = elim (fetch decode (session_request client_id) c) [
    | err e ↦ (c, some e)
    | ok (session_id, ttl) ↦
        (start_heartbeat (heartbeat_interval ttl) (record c { session_id = session_id }), none)
  ]

  -- The requests that are sent; their answers are not read. A panic comes before them.
  unfoldable pub close : Client → Client × List Request
  unfolding stop_heartbeat close_request
  close c =
      let after = stop_heartbeat c.heartbeat in
      let requests = if str_eq c.session_id [] then [] else close_request c.session_id ∷ [] in
      (record c { heartbeat = after }, elim after [ crashed ↦ [] | _ ↦ requests ])

  unfoldable pub unlock : Lock → Client → Option Text
  unfolding post unlock_request
  unlock lock c = post (unlock_request lock.name lock.lock_id) c

  unfoldable pub try_lock : (Text → Result Text Lock) → Text → ℤ → Client → Result Text Lock
  unfolding fetch lock_request timeout_ms
  try_lock decode name timeout c =
      if str_eq c.session_id []
      then err (text "not connected")
      else fetch decode (lock_request name (text "sdk-client") c.session_id (timeout_ms timeout)) c

  unfoldable pub lock : (Text → Result Text Lock) → Text → Client → Result Text Lock
  unfolding try_lock
  lock decode name c = try_lock decode name (pos 0) c

  unfoldable pub create : (Text → Result Text Text) → Text → Text → Bool → Client → Result Text Text
  unfolding fetch node_request
  create decode path payload ephemeral c =
      let req = node_request (text "PUT") path (
        some (
          (text "data", json_string payload)
          ∷ (text "ephemeral", json_boolean ephemeral)
          ∷ (text "session_id", json_string c.session_id)
          ∷ [])) in
      if ephemeral && str_eq c.session_id [] then err (text "not connected") else fetch decode req c

  unfoldable pub get : (Text → Result Text (Text × ℕ)) → Text → Client → Result Text (Text × ℕ)
  unfolding fetch node_request
  get decode path c = fetch decode (node_request (text "GET") path none) c

  unfoldable pub set : (Text → Result Text ℕ) → Text → Text → ℤ → Client → Result Text ℕ
  unfolding fetch node_request
  set decode path payload version c =
      fetch decode
        (node_request (text "POST") path
          (some ((text "data", json_string payload) ∷ (text "version", json_number version) ∷ [])))
        c

  unfoldable pub delete : Text → Client → Option Text
  unfolding post node_request
  delete path c = post (node_request (text "DELETE") path none) c

  unfoldable pub get_children :
      (Text → Result Text (List Text)) → Text → Client → Result Text (List Text)
  unfolding fetch
  get_children decode path c =
      fetch decode
        (record { method = text "GET"; path = text "/v1/children/" ++ path; body = none }) c

  unfoldable pub get_leader : (Text → Result Text Text) → Client → Result Text Text
  unfolding fetch
  get_leader decode c =
      fetch decode (record { method = text "GET"; path = text "/v1/cluster/leader"; body = none }) c
