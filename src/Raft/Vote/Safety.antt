-- ===== src/Raft/Vote/Safety.antt =====
-- internal/raft/node.go, `HandleRequestVote`: what a granted vote says.
use sky_lock.Common.{◌<◌, ◌≡◌, ◌⊎◌, Bool, true, [], arith, str_eq_iff}
use sky_lock.Raft.State.{State, become_follower, set_voted_for}
use sky_lock.Raft.Node.{Env, Node, reset_election_timer}
use sky_lock.Raft.Vote.{VoteRequest, VoteResponse, up_to_date, can_vote, handle_request_vote}

-- What a granted vote says of the voter before (`s`) and after (`s'`).
pub record Granted (req : VoteRequest) (s s' : State) (resp : VoteResponse) : Type 0 where
  pub same_term : resp.term ≡ req.term
  pub current : s'.current_term ≡ req.term
  pub voted : s'.voted_for ≡ req.candidate_id
  pub log_fresh : up_to_date req s ≡ true
  pub free :
      (s.current_term < req.term)
      ⊎ (s.current_term ≡ req.term) × ((s.voted_for ≡ []) ⊎ (s.voted_for ≡ req.candidate_id))

-- A granted vote means that the answer and the voter are in the request's term, that the voter's
-- vote is the candidate's, that the candidate's log was at least as up to date as the voter's, and
-- that the voter came from an earlier term or had given no vote, or this one, in the term.
pub handle_request_vote-Granted :
    (env : Env) (req : VoteRequest) (n : Node)
    → (handle_request_vote env req n).1.vote_granted ≡ true
    → Granted req n.state (handle_request_vote env req n).0.state (handle_request_vote env req n).1
unfolding handle_request_vote reset_election_timer set_voted_for can_vote become_follower up_to_date
handle_request_vote-Granted env req n h =
    ground (arith, str_eq_iff n.state.voted_for [], str_eq_iff n.state.voted_for req.candidate_id)

abbrev pub grants : Env → VoteRequest → Node → Bool
grants env req n = (handle_request_vote env req n).1.vote_granted
