-- ===== src/Examples/Clients.antt =====
-- pkg/client, cmd/skylockctl and cmd/skylock: a client, a command and the flags.
use sky_lock.Common.{
  ℕ, ◌≡◌, ◌↔◌, ◌<◌, refl, true, some, [], ◌∷◌, Text, text, str_eq, lookup, arith, pos, Result, ok,
}
use sky_lock.Session
use sky_lock.Session.{new_manager}
use sky_lock.Client.{Request, new_client, start_heartbeat, heartbeat_interval, crashed}
use sky_lock.Client.Heartbeats.{arrive, heartbeats_keep_session, short_ttl_crashes}
use sky_lock.Cli.{main, dispatch}
use sky_lock.Cli.Exit.{Exits, main_lem}
use sky_lock.Startup.{split_peers}
use sky_lock.Startup.Peers.{has_comma, split_peers-join_peers}

-- A session with a TTL of nine seconds.
abbrev session : Session.Session
session = record {
  id = text "s";
  client_id = text "c";
  ttl = pos 9000000000;
  last_heartbeat = 5;
  created_at = 5;
  ephemeral_keys = [];
}

abbrev sessions : Session.Manager
sessions = record (new_manager (pos 9000000000) (pos 9000000000)) {
  sessions = (text "s", session) ∷ [];
}

heartbeats_keep_session_example :
    let (m', answers) = arrive (text "s") (3000000005 ∷ 9000000005 ∷ []) sessions in
    (answers ≡ true)
    × (lookup (text "s") m'.sessions ≡ some (record session { last_heartbeat = 9000000005 }))
unfolding heartbeat_interval lookup str_eq new_manager
heartbeats_keep_session_example =
    heartbeats_keep_session (3000000005 ∷ 9000000005 ∷ []) (text "s") 9000000000 session sessions
      refl refl (omega arith, (omega arith, tt))

short_ttl_crashes_example :
    ((start_heartbeat (heartbeat_interval 2000000000) (new_client [])).heartbeat ≡ crashed)
    ↔ (2000000000 < 3000000000)
short_ttl_crashes_example = short_ttl_crashes 2000000000 (new_client [])

-- A server that answers every request.
abbrev exchange : Text → Request → Result Text (ℕ × Text)
exchange url req = ok (200, text "{}")

main_lem_example :
    Exits exchange
      (text "usage")
      (text "http://localhost:8080")
      (dispatch (text "usage") (text "leader" ∷ []))
      (main exchange (text "usage") (text "http://localhost:8080") (text "leader" ∷ []))
main_lem_example =
    main_lem exchange (text "usage") (text "http://localhost:8080") (text "leader" ∷ [])

split_peers-join_peers_example : split_peers (text "a:1,b:2") ≡ text "a:1" ∷ text "b:2" ∷ []
unfolding has_comma
split_peers-join_peers_example =
    split_peers-join_peers (text "a:1" ∷ text "b:2" ∷ [])
      (((λ e. ground (arith, e)), refl), (((λ e. ground (arith, e)), refl), tt))
