-- ===== src/Examples/Wire.antt =====
-- internal/transport and internal/raft: a call over a connection, and a follower that waits.
use sky_lock.Common.{◌≢◌, arith, refl, [], ◌∷◌, Text, text, Result, ok, err}
use sky_lock.Raft.State.{candidate, leader, new_state}
use sky_lock.Raft.Loop.{start, run_follower, on_append, here}
use sky_lock.Raft.Loop.Stuck.{heartbeat_ends_elections}
use sky_lock.Raft.Log.{command}
use sky_lock.Raft.Node.{Env, Node, new_node, reset_election_timer}
use sky_lock.Raft.Entries
use sky_lock.Raft.Entries.{handle_append_entries}
use sky_lock.Raft.Vote
use sky_lock.Raft.Election.{run_candidate, answered}
use sky_lock.Transport.{VoteRequest, VoteResponse, new_transport}
use sky_lock.Transport.Codec.{ask_peers, run_candidate-request_vote}

abbrev env : Env
env = record { now = 1000; rand = 7 }

abbrev peer : Node
peer =
    new_node (text "b") (text "a" ∷ [])
      (record { election_timeout_min = 150; election_timeout_max = 300; heartbeat_interval = 50 })

abbrev request : Entries.AppendEntriesRequest
request = record {
  term = 1;
  leader_id = text "a";
  prev_log_index = 0;
  prev_log_term = 0;
  entries = record { index = 1; term = 1; kind = command; payload = 7 ∷ [] } ∷ [];
  leader_commit = 0;
}

-- A dial that gives the target's name as the connection.
abbrev dial : Text → Result Text Text
dial target = ok target

-- A library that refuses every message.
abbrev refuse : Text → VoteRequest → Result Text VoteResponse
refuse conn m = err (text "grpc: error while marshaling")

abbrev ask : Vote.VoteRequest
ask = record { term = 1; candidate_id = text "b"; last_log_index = 0; last_log_term = 0 }

run_candidate-request_vote_example :
    let rs = ask_peers dial refuse env ask peer.peers new_transport in
    (run_candidate env rs (answered env) peer).state.role ≢ leader
unfolding new_node
run_candidate-request_vote_example =
    run_candidate-request_vote dial refuse (λ conn m. (_, refl)) env env ask peer.peers
      new_transport peer (λ e. ground (arith, e))

heartbeat_ends_elections_example :
    (on_append env request (run_follower (start env peer))).node.state.role ≢ candidate
unfolding start reset_election_timer new_node new_state
heartbeat_ends_elections_example =
    heartbeat_ends_elections env request (start env peer)
      (on_append env request (run_follower (start env peer))) refl (omega arith) here
