-- ===== src/Raft/State.antt =====
-- internal/raft/state.go. Every method holds the state's mutex, so each is one function on the
-- record. Time is a number that the caller passes in where the code calls `time.Now`.
use sky_lock.Common.{ℕ, ◌+◌, none, some, List, [], ◌∷◌, Text, Map, lookup, put, u64}
use sky_lock.Raft.Log.{Log, new_log, last_index}

pub data NodeState : Type 0 where
  follower candidate leader : NodeState

pub record State : Type 0 where
  pub current_term : ℕ
  pub voted_for : Text
  pub log : Log
  pub role : NodeState
  pub leader_id : Text
  pub commit_index : ℕ
  pub last_applied : ℕ
  pub next_index : Map ℕ
  pub match_index : Map ℕ
  pub last_heartbeat : ℕ

unfoldable pub new_state : State
unfolding new_log
new_state = record {
  current_term = 0;
  voted_for = [];
  log = new_log;
  role = follower;
  leader_id = [];
  commit_index = 0;
  last_applied = 0;
  next_index = [];
  match_index = [];
  last_heartbeat = 0;
}

unfoldable pub set_current_term : ℕ → State → State
set_current_term term s = record s { current_term = term; voted_for = [] }

unfoldable pub increment_term : State → State × ℕ
increment_term s =
    let term = u64 (s.current_term + 1) in (record s { current_term = term; voted_for = [] }, term)

unfoldable pub set_voted_for : Text → State → State
set_voted_for node_id s = record s { voted_for = node_id }

unfoldable pub set_state : NodeState → State → State
set_state role s = record s { role = role }

unfoldable pub set_leader_id : Text → State → State
set_leader_id id s = record s { leader_id = id }

unfoldable pub set_commit_index : ℕ → State → State
set_commit_index index s = record s { commit_index = index }

unfoldable pub set_last_applied : ℕ → State → State
set_last_applied index s = record s { last_applied = index }

unfoldable pub update_heartbeat : ℕ → State → State
update_heartbeat now s = record s { last_heartbeat = now }

unfoldable pub become_follower : ℕ → ℕ → Text → State → State
become_follower now term leader_id s = record s {
  role = follower;
  current_term = term;
  leader_id = leader_id;
  voted_for = [];
  last_heartbeat = now;
}

unfoldable pub become_candidate : State → State × ℕ
become_candidate s =
    let term = u64 (s.current_term + 1) in
    (record s { role = candidate; current_term = term; leader_id = [] }, term)

-- The loop of `BecomeLeader` over the peers.
unfoldable pub reset_peers : ℕ → List Text → State → State
reset_peers last [] s = s
reset_peers last (peer ∷ peers) s = reset_peers last peers (record s {
  next_index = put peer (last + 1) s.next_index;
  match_index = put peer 0 s.match_index;
})

unfoldable pub become_leader : Text → List Text → State → State
unfolding reset_peers
become_leader node_id peers s =
    reset_peers (last_index s.log) peers (record s { role = leader; leader_id = node_id })

-- m[peer], which is 0 where the key is missing.
unfoldable pub index_of : Text → Map ℕ → ℕ
index_of peer m = elim (lookup peer m) [ none ↦ 0 | some index ↦ index ]
