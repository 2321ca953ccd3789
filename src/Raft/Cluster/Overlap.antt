-- ===== src/Raft/Cluster/Overlap.antt =====
-- internal/raft/node.go, `runCandidate` and `HandleRequestVote`: a request that is handled between
-- `BecomeCandidate` and `SetVotedFor`, since `runCandidate` does not hold the node's mutex.
use sky_lock.Common.{
  ◌≡◌, ◌⊎◌, true, some, [], ◌∷◌, Text, str_eq_iff, str_eq_refl, arith, ◌<◌, ◌+◌, ◌^◌,
}
use sky_lock.Raft.State.{become_candidate, become_follower, set_voted_for}
use sky_lock.Raft.Node.{Env, reset_election_timer}
use sky_lock.Raft.Vote.{VoteRequest, handle_request_vote, can_vote, up_to_date}
use sky_lock.Raft.Election.{open_election, vote_for_self}
use sky_lock.Raft.Cluster.{Cluster, open_candidacy, vote, begin}
use sky_lock.Raft.Cluster.Weights.{has_voted}

-- A vote request of the new term that a node handles after BecomeCandidate and before SetVotedFor,
-- from a candidate whose log is at least as up to date and where the last vote of the node is none
-- or the same candidate's: the vote is granted, and the node then counts its own vote in the same
-- term, which replaces the other.
pub request_while_opening :
    (env env' : Env) (v : Text) (req : VoteRequest) (c : Cluster)
    → (c.node v).state.current_term + 1 < 2 ^ 64
    → req.term ≡ (c.node v).state.current_term + 1
    → (c.node v).state.voted_for ≡ [] ⊎ (c.node v).state.voted_for ≡ req.candidate_id
    → up_to_date req (c.node v).state ≡ true
    → let n = c.node v in
      let d = begin env' v req.term (vote env v req (open_candidacy v c)) in
      (has_voted v req.candidate_id req.term d.ballots ≡ true)
      × (has_voted v n.id req.term d.ballots ≡ true)
      × ((d.node v).state.current_term ≡ req.term)
      × ((d.node v).state.voted_for ≡ n.id)
      × (d.running v
          ≡ some (record { term = req.term; votes = 1; pending = n.peers; grantors = v ∷ [] }))
unfolding begin vote open_candidacy open_election become_candidate handle_request_vote can_vote
    up_to_date vote_for_self set_voted_for reset_election_timer become_follower
request_while_opening env env' v req c small same free fresh =
    let n = c.node v in
    let self = str_eq_refl v in
    let named = str_eq_refl req.candidate_id in
    let own = str_eq_refl n.id in
    let none_voted = str_eq_iff n.state.voted_for [] in
    let same_voted = str_eq_iff n.state.voted_for req.candidate_id in
    (
      ground (arith, small, same, free, fresh, self, named, none_voted, same_voted),
      ground (arith, small, same, free, fresh, self, own, none_voted, same_voted),
      ground (arith, small, same, free, fresh, self, none_voted, same_voted),
      ground (arith, small, same, free, fresh, self, none_voted, same_voted),
      ground (arith, small, same, free, fresh, self, none_voted, same_voted),
    )
