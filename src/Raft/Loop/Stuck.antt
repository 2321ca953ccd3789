-- ===== src/Raft/Loop/Stuck.antt =====
-- internal/raft/node.go: a follower that waits while its election timer is made anew.
use sky_lock.Common.{ℕ, ◌≤◌, ◌<◌, ◌≡◌, ◌≢◌, refl, Option, none, some, List, [], ◌∷◌, Text, arith}
use sky_lock.Raft.State.{
  follower, candidate, State, set_voted_for, become_follower, set_commit_index,
}
use sky_lock.Raft.Node.{Env, Node, reset_election_timer}
use sky_lock.Raft.Log.{LogEntry}
use sky_lock.Raft.Election.{on_vote_response}
use sky_lock.Raft.Heartbeat.{on_append_response, record_success, record_refusal}
use sky_lock.Raft.Vote.{VoteRequest, VoteResponse, handle_request_vote, decide_vote}
use sky_lock.Raft.Entries.{
  AppendEntriesRequest, AppendEntriesResponse, handle_append_entries, accept_entries,
  recognize_leader, advance_commit, store_entries, store_from,
}
use sky_lock.Raft.Loop.{
  Runner, run_follower, on_append, on_vote, Step, enter_step, timeout_step, append_step, vote_step,
  late_vote_step, late_append_step, Reachable, here, next,
}

-- The follower waits on a timer that has been stopped.
pub record IsStuck (r : Runner) : Type 0 where
  pub timer : ℕ
  pub waits : r.waits ≡ some timer
  pub stopped : timer < r.timer
  pub role : r.node.state.role ≡ follower

role-store_from :
    (prev : ℕ) (entries : List LogEntry) (s : State) → (store_from prev entries s).role ≡ s.role
unfolding store_from
role-store_from prev [] s = refl
role-store_from prev (entry ∷ rest) s = refl

role-append :
    (env : Env) (req : AppendEntriesRequest) (n : Node)
    → n.state.role ≡ follower
    → (handle_append_entries env req n).0.state.role ≡ follower
unfolding handle_append_entries accept_entries recognize_leader advance_commit store_entries
    reset_election_timer become_follower set_commit_index
role-append env req n h =
    let s = become_follower env.now req.term req.leader_id n.state in
    let kept = role-store_from req.prev_log_index req.entries s in ground (arith, kept, h)

role-vote :
    (env : Env) (req : VoteRequest) (n : Node)
    → n.state.role ≡ follower
    → (handle_request_vote env req n).0.state.role ≡ follower
unfolding handle_request_vote decide_vote reset_election_timer set_voted_for become_follower
role-vote env req n h = ground (arith, h)

role-vote_response :
    (env : Env) (term votes : ℕ) (resp : Option VoteResponse) (n : Node)
    → n.state.role ≡ follower
    → (on_vote_response env term resp (n, votes)).0.state.role ≡ follower
unfolding on_vote_response become_follower
role-vote_response env term votes none n h = h
role-vote_response env term votes (some resp) n h = ground (arith, h)

role-append_response :
    (env : Env) (term : ℕ) (peer : Text) (entries : List LogEntry)
    (resp : Option AppendEntriesResponse) (n : Node)
    → n.state.role ≡ follower
    → (on_append_response env term peer entries resp n).state.role ≡ follower
unfolding on_append_response become_follower record_success record_refusal
role-append_response env term peer entries none n h = h
role-append_response env term peer [] (some resp) n h = ground (arith, h)
role-append_response env term peer (entry ∷ rest) (some resp) n h = ground (arith, h)

Step-IsStuck : (r s : Runner) → Step r s → IsStuck r → IsStuck s
unfolding on_append on_vote
Step-IsStuck r s (enter_step free role) stuck = absurd (ground (arith, free, stuck.waits))
Step-IsStuck r s (timeout_step fires) stuck =
    absurd (ground (arith, fires, stuck.waits, stuck.stopped))
Step-IsStuck r s (append_step env req) stuck = record {
  timer = stuck.timer;
  waits = stuck.waits;
  stopped = ground (arith, stuck.stopped);
  role = role-append env req r.node stuck.role;
}
Step-IsStuck r s (vote_step env req) stuck = record {
  timer = stuck.timer;
  waits = stuck.waits;
  stopped = ground (arith, stuck.stopped);
  role = role-vote env req r.node stuck.role;
}
Step-IsStuck r s (late_vote_step env term votes resp) stuck = record {
  timer = stuck.timer;
  waits = stuck.waits;
  stopped = stuck.stopped;
  role = role-vote_response env term votes resp r.node stuck.role;
}
Step-IsStuck r s (late_append_step env term peer entries resp) stuck = record {
  timer = stuck.timer;
  waits = stuck.waits;
  stopped = stuck.stopped;
  role = role-append_response env term peer entries resp r.node stuck.role;
}

Reachable-IsStuck : (r s : Runner) → Reachable r s → IsStuck r → IsStuck s
Reachable-IsStuck r _ here stuck = stuck
Reachable-IsStuck r s (next {r = mid} reached step) stuck =
    Step-IsStuck mid s step (Reachable-IsStuck r mid reached stuck)

-- A follower that handles an append request of its own or a later term while runFollower waits
-- never becomes a candidate again, whatever requests and answers it handles then: it waits on the
-- timer that the request has stopped.
pub heartbeat_ends_elections :
    (env : Env) (req : AppendEntriesRequest) (r s : Runner)
    → r.node.state.role ≡ follower
    → r.node.state.current_term ≤ req.term
    → Reachable (on_append env req (run_follower r)) s
    → s.node.state.role ≢ candidate
unfolding on_append run_follower
heartbeat_ends_elections env req r s role current reached is_candidate =
    let stuck : IsStuck (on_append env req (run_follower r)) = record {
      timer = r.timer;
      waits = refl;
      stopped = ground (arith, current);
      role = role-append env req r.node role;
    } in
    let end = Reachable-IsStuck (on_append env req (run_follower r)) s reached stuck in
    ground (arith, end.role, is_candidate)
