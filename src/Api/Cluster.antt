-- ===== src/Api/Cluster.antt =====
-- internal/api/server.go: the handlers that report on the node and its cluster.
use sky_lock.Common.{text}
use sky_lock.Raft.Node.{Node, get_leader_id, is_leader}
use sky_lock.Store
use sky_lock.Session
use sky_lock.Watch
use sky_lock.Wiring.{System}
use sky_lock.Api.{Response, respond, status_body, leader_body, cluster_body}

unfoldable pub get_leader : Node → Response
get_leader n = respond 200 (leader_body (get_leader_id n) (is_leader n))

unfoldable pub get_status : Node → System → Response
get_status n y = respond 200 (
    cluster_body (get_leader_id n) (is_leader n) (Session.count y.sessions) (Store.count y.store)
      (Watch.get_total_watch_count y.watches))

unfoldable pub health_check : Response
health_check = respond 200 (status_body (text "healthy"))
