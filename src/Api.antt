-- ===== src/Api.antt =====
-- internal/api/server.go: the handlers of sessions and nodes, as functions from a decoded request to a
-- response and the next state. `none` is a body that the JSON decoder refuses; what the router and the
-- encoder do is theirs. The `*` of a route and a query value come in as strings.
pub mod Version
pub mod Locks
pub mod Cluster
pub mod Release
use sky_lock.Common.{
  ℕ, ◌+◌, ◌-◌, ◌*◌, ◌^◌, u64, Bool, true, false, ◌&&◌, Option, none, some, List, [], ◌∷◌, ◌++◌, ltb,
  if◌then◌else◌, Text, text, str_eq, Result, ok, err, ℤ, pos, negsuc,
}
use sky_lock.Path.{slash}
use sky_lock.Store
use sky_lock.Session
use sky_lock.Lock
use sky_lock.Lock.{trim_prefix}
use sky_lock.Wiring.{System, heartbeat_session, close_session}

-- An int64 and its 64 bits.
unfoldable pub bits : ℤ → ℕ
bits (pos n) = u64 n
bits (negsuc n) = u64 (2 ^ 64 - 1 - n)

unfoldable pub signed : ℕ → ℤ
signed n = if ltb n (2 ^ 63) then pos n else negsuc (2 ^ 64 - 1 - n)

-- What a response says in its JSON.
pub data Body : Type 0 where
  no_body : Body
  error_body : Text → Body
  status_body : Text → Body
  session_body : Text → ℤ → Body
  node_body : Store.Node → Body
  path_body : Text → Body
  version_body : Text → ℕ → Body
  children_body : Text → List Text → Body
  lock_body : Lock.Lock → Body
  lock_info_body : Text → Bool → Text → ℕ → Body
  leader_body : Text → Bool → Body
  cluster_body : Text → Bool → ℕ → ℕ → ℕ → Body

pub record Response : Type 0 where
  pub status : ℕ
  pub body : Body

abbrev pub respond : ℕ → Body → Response
respond status body = record { status = status; body = body }

abbrev pub respond_error : ℕ → Text → Response
respond_error status message = record { status = status; body = error_body message }

-- err.Error()
unfoldable pub message : Store.StoreError → Text
message Store.node_exists = text "node already exists"
message Store.node_not_found = text "node not found"
message Store.version_mismatch = text "version mismatch"
message Store.not_empty = text "node has children"
message Store.invalid_path = text "invalid path"
message Store.ephemeral_parent = text "cannot create child under ephemeral node"
message Store.root_deletion = text "cannot delete root"

unfoldable pub request_path : Text → Text
request_path star = slash ∷ trim_prefix star (text "/")

pub record SessionRequest : Type 0 where
  pub client_id : Text
  pub ttl_seconds : ℤ

-- `time.Duration(req.TTL) * time.Second` wraps around.
unfoldable pub seconds : ℤ → ℤ
unfolding bits signed
seconds n = signed (u64 (bits n * 1000000000))

unfoldable pub create_session : Text → ℕ → Option SessionRequest → System → System × Response
unfolding seconds
create_session id now none y = (y, respond_error 400 (text "invalid request body"))
create_session id now (some req) y =
    let (m, s) = Session.create id now req.client_id (seconds req.ttl_seconds) y.sessions in
    if str_eq req.client_id []
    then (y, respond_error 400 (text "client_id required"))
    else (record y { sessions = m }, respond 201 (session_body s.id s.ttl))

unfoldable pub heartbeat : ℕ → Text → System → System × Response
heartbeat now id y =
    let (y', answer) = heartbeat_session now id y in
    if answer
    then (y', respond 200 (status_body (text "ok")))
    else (y', respond_error 404 (text "session not found or expired"))

unfoldable pub end_session : Text → System → System × Store.Calls × Response
end_session id y =
    let (y', calls, answer) = close_session id y in
    if answer
    then (y', calls, respond 204 no_body)
    else (y', calls, respond_error 404 (text "session not found"))

unfoldable pub get_node : Text → System → Response
get_node star y = elim (Store.get (request_path star) y.store) [
  | ok n ↦ respond 200 (node_body n)
  | err Store.node_not_found ↦ respond_error 404 (text "node not found")
  | err e ↦ respond_error 500 (message e)
]

pub record NodeRequest : Type 0 where
  pub payload : Text
  pub ephemeral : Bool
  pub sequential : Bool
  pub session_id : Text

-- The statuses of a `Create` that fails.
unfoldable pub create_failure : Store.StoreError → Response
create_failure Store.node_exists = respond_error 409 (text "node already exists")
create_failure Store.node_not_found = respond_error 404 (text "parent node not found")
create_failure e = respond_error 500 (message e)

unfoldable pub create_node :
    ℕ → Text → Option NodeRequest → System → System × Store.Calls × Response
unfolding create_failure request_path
create_node now star none y = (y, [], respond_error 400 (text "invalid request body"))
create_node now star (some req) y =
    let creation : Store.Creation = record {
      now = now;
      payload = req.payload;
      ephemeral = req.ephemeral;
      session_id = req.session_id;
      sequential = req.sequential;
    } in
    let (s, calls, made) = Store.create creation (request_path star) y.store in
    if req.ephemeral && str_eq req.session_id []
    then (y, [], respond_error 400 (text "session_id required for ephemeral nodes"))
    else elim made [
      | err e ↦ (record y { store = s }, calls, create_failure e)
      | ok path ↦
          let (m, _) = Session.register_ephemeral req.session_id path y.sessions in
          let registered = if req.ephemeral then m else y.sessions in
          (record y { store = s; sessions = registered }, calls, respond 201 (path_body path))
    ]

pub record SetRequest : Type 0 where
  pub payload : Text
  pub version : ℤ

unfoldable pub set_failure : Store.StoreError → Response
set_failure Store.node_not_found = respond_error 404 (text "node not found")
set_failure Store.version_mismatch = respond_error 409 (text "version mismatch")
set_failure e = respond_error 500 (message e)

-- A body without a version decodes to the version -1.
unfoldable pub set_node : ℕ → Text → Option SetRequest → System → System × Store.Calls × Response
unfolding set_failure request_path
set_node now star none y = (y, [], respond_error 400 (text "invalid request body"))
set_node now star (some req) y =
    let (s, calls, result) = Store.set now (request_path star) req.payload req.version y.store in
    let response : Response = elim result [
      | ok n ↦ respond 200 (version_body n.path n.version)
      | err e ↦ set_failure e
    ] in
    (record y { store = s }, calls, response)

-- The loop of `deleteNode` over the characters of the query value, on the bits of the int64.
unfoldable pub read_version : ℕ → Text → ℕ
read_version version [] = version
read_version version (c ∷ cs) = read_version (u64 (version * 10 + u64 (c + 2 ^ 64 - b'0'))) cs

unfoldable pub parse_version : Text → ℤ
unfolding read_version signed bits
parse_version s = if str_eq s [] then negsuc 0 else signed (read_version (bits (negsuc 0)) s)

unfoldable pub delete_failure : Store.StoreError → Response
delete_failure Store.node_not_found = respond_error 404 (text "node not found")
delete_failure Store.version_mismatch = respond_error 409 (text "version mismatch")
delete_failure Store.not_empty = respond_error 400 (text "node has children")
delete_failure e = respond_error 500 (message e)

unfoldable pub delete_node : Text → Text → System → System × Store.Calls × Response
unfolding parse_version delete_failure request_path
delete_node star version y =
    let (s, calls, result) =
      Store.delete_node (request_path star) (parse_version version) y.store in
    let response : Response = elim result [
      | none ↦ respond 204 no_body
      | some e ↦ delete_failure e
    ] in
    (record y { store = s }, calls, response)

unfoldable pub get_children : Text → System → Response
unfolding request_path
get_children star y = elim (Store.get_children (request_path star) y.store) [
  | ok children ↦ respond 200 (children_body (request_path star) children)
  | err Store.node_not_found ↦ respond_error 404 (text "node not found")
  | err e ↦ respond_error 500 (message e)
]
