-- ===== src/Raft/Vote.antt =====
-- internal/raft/node.go, `HandleRequestVote`. The handler holds the node's mutex throughout.
pub mod Safety
use sky_lock.Common.{
  ℕ, Bool, true, false, ◌&&◌, ◌||◌, [], ltb, leb, ◌==◌, if◌then◌else◌, Text, str_eq,
}
use sky_lock.Raft.Log.{last_index, last_term}
use sky_lock.Raft.State.{State, become_follower, set_voted_for}
use sky_lock.Raft.Node.{Env, Node, reset_election_timer}

pub record VoteRequest : Type 0 where
  pub term : ℕ
  pub candidate_id : Text
  pub last_log_index : ℕ
  pub last_log_term : ℕ

pub record VoteResponse : Type 0 where
  pub term : ℕ
  pub vote_granted : Bool

-- The test that the candidate's log is at least as up to date as the voter's.
unfoldable pub up_to_date : VoteRequest → State → Bool
up_to_date req s =
    ltb (last_term s.log) req.last_log_term
    || req.last_log_term == last_term s.log && leb (last_index s.log) req.last_log_index

unfoldable pub can_vote : VoteRequest → State → Bool
can_vote req s = str_eq s.voted_for [] || str_eq s.voted_for req.candidate_id

-- The rest of the handler, after the terms have been compared.
unfoldable pub decide_vote : Env → VoteRequest → ℕ → Node → Node × VoteResponse
decide_vote env req term n =
    if can_vote req n.state && up_to_date req n.state
    then (
      reset_election_timer env (record n { state = set_voted_for req.candidate_id n.state }),
      record { term = term; vote_granted = true },
    )
    else (n, record { term = term; vote_granted = false })

unfoldable pub handle_request_vote : Env → VoteRequest → Node → Node × VoteResponse
unfolding decide_vote
handle_request_vote env req n =
    let current = n.state.current_term in
    if ltb req.term current
    then (n, record { term = current; vote_granted = false })
    else if ltb current req.term
    then decide_vote env req req.term
        (record n { state = become_follower env.now req.term [] n.state })
    else decide_vote env req current n
