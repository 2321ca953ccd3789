-- ===== src/Raft/Election/StaleAnswer.antt =====
-- internal/raft/node.go: an answer to a vote request that comes when the node is in a later term.
use sky_lock.Common.{ℕ, ◌<◌, ◌≡◌, ◌≢◌, true, some, [], arith, str_eq_refl}
use sky_lock.Raft.State.{become_follower, set_voted_for}
use sky_lock.Raft.Node.{Env, Node, reset_election_timer}
use sky_lock.Raft.Vote.{VoteRequest, VoteResponse, up_to_date, can_vote, handle_request_vote}
use sky_lock.Raft.Vote.Safety.{grants}
use sky_lock.Raft.Election.{on_vote_response}

-- A node that handles an answer to its vote request, of a term later than the request's and
-- earlier than the node's own, goes back to an earlier term and then grants, in the term that it
-- was in, the vote of any candidate other than the one that it had voted for, if the candidate's
-- log is up to date.
pub late_answer_frees_vote :
    (env env' : Env) (term votes : ℕ) (resp : VoteResponse) (req : VoteRequest) (n : Node)
    → term < resp.term
    → resp.term < n.state.current_term
    → n.state.voted_for ≢ req.candidate_id
    → req.term ≡ n.state.current_term
    → up_to_date req n.state ≡ true
    → let n' = (on_vote_response env term (some resp) (n, votes)).0 in
      (n'.state.current_term < n.state.current_term) × (grants env' req n' ≡ true)
unfolding on_vote_response handle_request_vote reset_election_timer set_voted_for can_vote
    become_follower up_to_date
late_answer_frees_vote env env' term votes resp req n later behind other same fresh =
    ground (arith, str_eq_refl [])
