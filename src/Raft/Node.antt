-- ===== src/Raft/Node.antt =====
-- internal/raft/node.go: the node and its small methods. What the code reads from outside comes in
-- as an argument: the clock, and the number that `rand.Int63n` draws (`rand` below stands for the
-- source's raw draw, reduced as `Int63n` does). `Int63n` panics unless its argument is positive, so
-- the configuration is taken to have `election_timeout_min < election_timeout_max`.
use sky_lock.Common.{
  ℕ, ◌+◌, ◌-◌, ◌%◌, Bool, true, false, Option, Result, ok, err, none, some, List, Text,
}
use sky_lock.Raft.Log.{LogEntry, command, append}
use sky_lock.Raft.State.{NodeState, candidate, leader, State, new_state, set_state}

pub record RaftConfig : Type 0 where
  pub election_timeout_min : ℕ
  pub election_timeout_max : ℕ
  pub heartbeat_interval : ℕ

-- One reading of the clock and of the random source.
pub record Env : Type 0 where
  pub now : ℕ
  pub rand : ℕ

-- A timer is the time at which it fires. `commit_signal` tells whether `commitCh` holds a token.
pub record Node : Type 0 where
  pub id : Text
  pub peers : List Text
  pub state : State
  pub config : RaftConfig
  pub election_timer : Option ℕ
  pub commit_signal : Bool

unfoldable pub new_node : Text → List Text → RaftConfig → Node
new_node id peers config = record {
  id = id;
  peers = peers;
  state = new_state;
  config = config;
  election_timer = none;
  commit_signal = false;
}

unfoldable pub reset_election_timer : Env → Node → Node
reset_election_timer env n =
    let min = n.config.election_timeout_min in
    let max = n.config.election_timeout_max in
    record n { election_timer = some (env.now + (min + env.rand % (max - min))) }

-- The branch of `runFollower` that the election timer takes.
unfoldable pub follower_timeout : Node → Node
unfolding set_state
follower_timeout n = record n { state = set_state candidate n.state }

pub data RaftError : Type 0 where
  not_leader leader_unknown timeout : RaftError

abbrev is_leader_role : NodeState → Bool
is_leader_role leader = true
is_leader_role _ = false

unfoldable pub is_leader : Node → Bool
is_leader n = is_leader_role n.state.role

unfoldable pub get_leader_id : Node → Text
get_leader_id n = n.state.leader_id

-- `Propose` after its test of the role.
unfoldable pub append_command : List ℕ → Node → Node × Result RaftError ℕ
append_command payload n =
    let entry : LogEntry = record {
      index = 0;
      term = n.state.current_term;
      kind = command;
      payload = payload;
    } in
    let (log, index) = append entry n.state.log in
    (record n { state = record (n.state) { log = log } }, ok index)

unfoldable pub propose : List ℕ → Node → Node × Result RaftError ℕ
unfolding append_command is_leader
propose payload n = elim (is_leader n) [
  | true ↦ append_command payload n
  | false ↦ (n, err not_leader)
]
