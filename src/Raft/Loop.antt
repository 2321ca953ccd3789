-- ===== src/Raft/Loop.antt =====
-- internal/raft/node.go, `run` and `runFollower`: the loop of a follower, which waits on the channel of the
-- timer that it finds, while the handlers run in goroutines of their own.
pub mod Stuck
use sky_lock.Common.{ℕ, suc, ◌+◌, ◌≤◌, ◌≡◌, Option, none, some, ltb, if◌then◌else◌, Text, List}
use sky_lock.Raft.State.{follower}
use sky_lock.Raft.Node.{Env, Node, reset_election_timer, follower_timeout}
use sky_lock.Raft.Vote.{VoteRequest, VoteResponse, handle_request_vote}
use sky_lock.Raft.Entries.{AppendEntriesRequest, AppendEntriesResponse, handle_append_entries}
use sky_lock.Raft.Heartbeat.{on_append_response}
use sky_lock.Raft.Election.{on_vote_response}
use sky_lock.Raft.Log.{LogEntry}

-- `resetElectionTimer` stops the timer and makes a new one: of the timers made, numbered from 0, only the
-- last can fire. `waits` is the timer whose channel the `select` of `runFollower` has taken.
pub record Runner : Type 0 where
  pub node : Node
  pub timer : ℕ
  pub waits : Option ℕ

-- `Start`, before the loop runs.
unfoldable pub start : Env → Node → Runner
start env n = record { node = reset_election_timer env n; timer = 0; waits = none }

-- `run` calls `runFollower`, which comes to its `select`.
unfoldable pub run_follower : Runner → Runner
run_follower r = record r { waits = some r.timer }

-- The `select` takes the timer's branch and returns to `run`.
unfoldable pub time_out : Runner → Runner
time_out r = record r { node = follower_timeout r.node; waits = none }

unfoldable pub on_append : Env → AppendEntriesRequest → Runner → Runner
on_append env req r = record r {
  node = (handle_append_entries env req r.node).0;
  timer = if ltb req.term r.node.state.current_term then r.timer else suc r.timer;
}

unfoldable pub on_vote : Env → VoteRequest → Runner → Runner
on_vote env req r =
    let (n, resp) = handle_request_vote env req r.node in
    record r { node = n; timer = if resp.vote_granted then suc r.timer else r.timer }

-- What happens to a node that is not stopped, as long as it is a follower: requests, and answers to requests
-- that it sent before. A timer that has been made anew
-- does not fire.
pub data Step (r : Runner) : Runner → Type 0 where
  enter_step : r.waits ≡ none → r.node.state.role ≡ follower → Step r (run_follower r)
  timeout_step : r.waits ≡ some r.timer → Step r (time_out r)
  append_step : (env : Env) (req : AppendEntriesRequest) → Step r (on_append env req r)
  vote_step : (env : Env) (req : VoteRequest) → Step r (on_vote env req r)
  late_vote_step :
      (env : Env) (term votes : ℕ) (resp : Option VoteResponse)
      → Step r (record r { node = (on_vote_response env term resp (r.node, votes)).0 })
  late_append_step :
      (env : Env) (term : ℕ) (peer : Text) (entries : List LogEntry)
      (resp : Option AppendEntriesResponse)
      → Step r (record r { node = on_append_response env term peer entries resp r.node })

pub data Reachable (start : Runner) : Runner → Type 0 where
  here : Reachable start start
  next : {r s : Runner} → Reachable start r → Step r s → Reachable start s
