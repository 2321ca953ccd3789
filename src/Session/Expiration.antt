-- ===== src/Session/Expiration.antt =====
-- internal/session/manager.go: heartbeats, closing and the expiry of sessions.
use sky_lock.Common.{
  ℕ, ◌≡◌, Bool, true, false, not, Option, none, some, inl, inr, Option-cases, List, [], ◌∷◌, Text,
  str_eq, str_eq_iff, str_eq_refl, Map, IsFlat, lookup, lookup-put, lookup-delete, arith,
  if◌then◌else◌,
}
use sky_lock.Session.{Session, Manager, is_expired, heartbeat, close, sweep, check_expirations, get}

-- The session is there and has not expired.
abbrev pub alive : ℕ → Option Session → Bool
alive now none = false
alive now (some s) = not (is_expired now s)

-- The session with a new heartbeat, if it is there.
abbrev pub refresh : ℕ → Option Session → Option Session
refresh now none = none
refresh now (some s) = some (record s { last_heartbeat = now })

-- Heartbeat answers whether the session is there and has not expired; then its last heartbeat is
-- the present, otherwise the session is gone. Every other session stays as it was.
pub heartbeat_lem :
    (now : ℕ) (id other : Text) (m : Manager)
    → (let (m', answer) = heartbeat now id m in
        (answer ≡ alive now (get id m))
        × (get other m' ≡ (
            if str_eq id other
            then if answer then refresh now (get id m) else none
            else get other m)))
unfolding heartbeat get
heartbeat_lem now id other m = (
  ground arith,
  elim (Option-cases (lookup id m.sessions)) [
    | inl missing ↦ ground (arith, missing, str_eq_iff id other)
    | inr (s, there) ↦
        let refreshed : Session = record s { last_heartbeat = now } in
        ground (
          arith,
          there,
          lookup-delete id other m.sessions,
          lookup-put id other refreshed m.sessions,
        )
  ],
)

-- The expired sessions, in the order of the map.
unfoldable pub expired_in : ℕ → Map Session → List Session
expired_in now [] = []
expired_in now ((id, s) ∷ rest) =
    let found = expired_in now rest in if is_expired now s then s ∷ found else found

sweep_lem :
    (now : ℕ) (on_expire : Bool) (id : Text) (m : Map Session)
    → IsFlat m
    → (lookup id (sweep now on_expire m).0
        ≡ (if alive now (lookup id m) then lookup id m else none))
      × ((sweep now on_expire m).1 ≡ (if on_expire then expired_in now m else []))
unfolding sweep expired_in lookup IsFlat
sweep_lem now on_expire id [] flat = ground arith
sweep_lem now on_expire id ((i, s) ∷ m) (fresh, flat) =
    ground (arith, sweep_lem now on_expire id m flat, fresh, str_eq_iff i id)

-- On a map without two entries for a session, checkExpirations keeps the sessions that have not
-- expired as they are, takes the others away, and calls the callback, if there is one, once with
-- each session that it takes away.
pub check_expirations_lem :
    (now : ℕ) (id : Text) (m : Manager)
    → IsFlat m.sessions
    → (let (m', calls) = check_expirations now m in
        (get id m' ≡ (if alive now (get id m) then get id m else none))
        × (calls ≡ (if m.on_expire then expired_in now m.sessions else [])))
unfolding check_expirations get
check_expirations_lem now id m flat = sweep_lem now m.on_expire id m.sessions flat

-- A session that has expired and whose owner sends a heartbeat before the next round of
-- `checkExpirations` is taken away without a call of the callback, now or by a later `Close`.
pub heartbeat_skips_callback :
    (now : ℕ) (id : Text) (s : Session) (m : Manager)
    → get id m ≡ some s
    → is_expired now s ≡ true
    → (let (m', answer) = heartbeat now id m in
        (answer ≡ false) × (get id m' ≡ none) × (close id m' ≡ (m', [], false)))
unfolding heartbeat get close
heartbeat_skips_callback now id s m there expired =
    ground (arith, there, expired, lookup-delete id id m.sessions, str_eq_refl id)

abbrev pub present : Option Session → Bool
present none = false
present (some s) = true

-- The calls of a callback, if it is set, for a session, if it is there.
abbrev pub notified : Bool → Option Session → List Session
notified on_expire none = []
notified on_expire (some s) = if on_expire then s ∷ [] else []

-- `Close` answers whether the session is there; it then takes it away and calls the callback, if there
-- is one, with it. Every other session stays as it was.
pub close_lem :
    (id other : Text) (m : Manager)
    → (let (m', calls, answer) = close id m in
        (get other m' ≡ (if str_eq id other then none else get other m))
        × (answer ≡ present (get id m))
        × (calls ≡ notified m.on_expire (get id m)))
unfolding close get
close_lem id other m = elim (Option-cases (lookup id m.sessions)) [
  | inl missing ↦ ground (arith, missing, str_eq_iff id other)
  | inr (s, there) ↦ ground (arith, there, lookup-delete id other m.sessions)
]
