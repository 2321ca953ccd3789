-- ===== src/Session.antt =====
-- internal/session/manager.go: the manager of the client sessions.
pub mod Ttl
pub mod Expiration
pub mod Keys
pub mod HeartbeatClient
use sky_lock.Common.{
  ℕ, ◌+◌, ◌-◌, Bool, true, false, Option, none, some, List, [], ◌∷◌, ◌++◌, ltb, leb, if◌then◌else◌,
  length, Text, str_eq, Map, lookup, put, delete, ℤ, pos, negsuc,
}

-- A time.Duration is a signed count of nanoseconds.
pub record Session : Type 0 where
  pub id : Text
  pub client_id : Text
  pub created_at : ℕ
  pub last_heartbeat : ℕ
  pub ttl : ℤ
  pub ephemeral_keys : List Text

-- Whether the callback `onExpire` is set is kept; what it does is the client's.
pub record Manager : Type 0 where
  pub sessions : Map Session
  pub default_ttl : ℤ
  pub max_ttl : ℤ
  pub on_expire : Bool

-- a > b, of two durations.
unfoldable pub longer : ℤ → ℤ → Bool
longer (pos a) (pos b) = ltb b a
longer (pos a) (negsuc b) = true
longer (negsuc a) (pos b) = false
longer (negsuc a) (negsuc b) = ltb a b

-- time.Since(s.LastHeartbeat): the monotonic clock does not run backwards.
unfoldable pub since : ℕ → ℕ → ℤ
since now then_ = pos (now - then_)

unfoldable pub is_expired : ℕ → Session → Bool
unfolding longer since
is_expired now s = longer (since now s.last_heartbeat) s.ttl

unfoldable pub new_manager : ℤ → ℤ → Manager
new_manager default_ttl max_ttl = record {
  sessions = [];
  default_ttl = default_ttl;
  max_ttl = max_ttl;
  on_expire = false;
}

unfoldable pub set_on_expire : Manager → Manager
set_on_expire m = record m { on_expire = true }

-- `Validate TTL`
unfoldable pub valid_ttl : Manager → ℤ → ℤ
unfolding longer
valid_ttl m ttl =
    let asked = if longer ttl (pos 0) then ttl else m.default_ttl in
    if longer asked m.max_ttl then m.max_ttl else asked

-- `Create`, with the identifier that uuid.New gives and the clock.
unfoldable pub create : Text → ℕ → Text → ℤ → Manager → Manager × Session
unfolding valid_ttl
create id now client_id ttl m =
    let session : Session = record {
      id = id;
      client_id = client_id;
      created_at = now;
      last_heartbeat = now;
      ttl = valid_ttl m ttl;
      ephemeral_keys = [];
    } in
    (record m { sessions = put id session m.sessions }, session)

unfoldable pub get : Text → Manager → Option Session
get session_id m = lookup session_id m.sessions

unfoldable pub heartbeat : ℕ → Text → Manager → Manager × Bool
unfolding is_expired
heartbeat now session_id m = elim (lookup session_id m.sessions) [
  | none ↦ (m, false)
  | some session ↦
      let refreshed : Session = record session { last_heartbeat = now } in
      if is_expired now session
      then (record m { sessions = delete session_id m.sessions }, false)
      else (record m { sessions = put session_id refreshed m.sessions }, true)
]

-- The sessions that the callback is called with come second.
unfoldable pub close : Text → Manager → Manager × List Session × Bool
close session_id m = elim (lookup session_id m.sessions) [
  | none ↦ (m, [], false)
  | some session ↦ (
    record m { sessions = delete session_id m.sessions },
    if m.on_expire then session ∷ [] else [],
    true,
  )
]

unfoldable pub register_ephemeral : Text → Text → Manager → Manager × Bool
register_ephemeral session_id key m = elim (lookup session_id m.sessions) [
  | none ↦ (m, false)
  | some session ↦
      let registered : Session = record session {
        ephemeral_keys = session.ephemeral_keys ++ key ∷ [];
      } in
      (record m { sessions = put session_id registered m.sessions }, true)
]

-- The loop of `UnregisterEphemeral`: the keys without the first that is equal, if there is one.
unfoldable pub cut_key : Text → List Text → Option (List Text)
cut_key key [] = none
cut_key key (k ∷ rest) =
    let cut : Option (List Text) = elim (cut_key key rest) [
      | none ↦ none
      | some ks ↦ some (k ∷ ks)
    ] in
    if str_eq k key then some rest else cut

unfoldable pub unregister_ephemeral : Text → Text → Manager → Manager × Bool
unfolding cut_key
unregister_ephemeral session_id key m = elim (lookup session_id m.sessions) [
  | none ↦ (m, false)
  | some session ↦ elim (cut_key key session.ephemeral_keys) [
    | none ↦ (m, false)
    | some keys ↦
        let cut : Session = record session { ephemeral_keys = keys } in
        (record m { sessions = put session_id cut m.sessions }, true)
  ]
]

-- The loop of `checkExpirations`: the sessions that stay, and the calls of the callback.
unfoldable pub sweep : ℕ → Bool → Map Session → Map Session × List Session
unfolding is_expired
sweep now on_expire [] = ([], [])
sweep now on_expire ((id, session) ∷ rest) =
    let (kept, calls) = sweep now on_expire rest in
    if is_expired now session
    then (kept, if on_expire then session ∷ calls else calls)
    else ((id, session) ∷ kept, calls)

unfoldable pub check_expirations : ℕ → Manager → Manager × List Session
unfolding sweep
check_expirations now m =
    let (kept, calls) = sweep now m.on_expire m.sessions in (record m { sessions = kept }, calls)

unfoldable pub count : Manager → ℕ
count m = length m.sessions

unfoldable pub values : Map Session → List Session
values [] = []
values ((id, session) ∷ rest) = session ∷ values rest

unfoldable pub all : Manager → List Session
unfolding values
all m = values m.sessions
