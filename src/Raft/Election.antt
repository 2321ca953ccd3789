-- ===== src/Raft/Election.antt =====
-- internal/raft/node.go, `runCandidate`. The goroutines that ask the peers are serialised by
-- `voteMu`, so an election is a beginning, the responses in the order in which they are handled, and
-- an end. A response that comes after the end is one more `on_vote_response`, whose votes are lost.
pub mod Majority
pub mod StaleWin
pub mod StaleAnswer
use sky_lock.Common.{
  ℕ, suc, ◌+◌, ◌/◌, Bool, true, false, Option, none, some, List, [], ◌∷◌, ltb, leb, if◌then◌else◌,
  length,
}
use sky_lock.Raft.Log.{last_index, last_term}
use sky_lock.Raft.State.{
  follower, State, set_state, set_voted_for, become_candidate, become_follower, become_leader,
}
use sky_lock.Raft.Node.{Env, Node, reset_election_timer}
use sky_lock.Raft.Vote.{VoteRequest, VoteResponse}

unfoldable pub votes_needed : Node → ℕ
votes_needed n = (length n.peers + 1) / 2 + 1

-- The first calls of `runCandidate`, which does not hold the node's mutex: a handler may run between
-- the two. `open_election` is `BecomeCandidate`.
unfoldable pub open_election : Node → Node × ℕ
unfolding become_candidate
open_election n = let (s, term) = become_candidate n.state in (record n { state = s }, term)

-- `SetVotedFor` and the new timer.
unfoldable pub vote_for_self : Env → Node → Node
unfolding set_voted_for reset_election_timer
vote_for_self env n = reset_election_timer env (record n { state = set_voted_for n.id n.state })

-- Both, with nothing between them.
unfoldable pub begin_election : Env → Node → Node × ℕ
unfolding open_election vote_for_self
begin_election env n = let (n', term) = open_election n in (vote_for_self env n', term)

-- The request that each goroutine builds. It reads the log when it runs.
unfoldable pub vote_request : ℕ → Node → VoteRequest
vote_request term n = record {
  term = term;
  candidate_id = n.id;
  last_log_index = last_index n.state.log;
  last_log_term = last_term n.state.log;
}

-- What a goroutine does with its answer, `none` for an error of the transport.
unfoldable pub on_vote_response : Env → ℕ → Option VoteResponse → Node × ℕ → Node × ℕ
on_vote_response env term none (n, votes) = (n, votes)
on_vote_response env term (some resp) (n, votes) =
    if ltb term resp.term
    then (record n { state = become_follower env.now resp.term [] n.state }, votes)
    else if resp.vote_granted
    then (n, votes + 1)
    else (n, votes)

-- Each answer comes with the clock at which it is handled.
unfoldable pub collect_votes : ℕ → List (Env × Option VoteResponse) → Node × ℕ → Node × ℕ
collect_votes term [] r = r
collect_votes term ((env, resp) ∷ rest) r =
    collect_votes term rest (on_vote_response env term resp r)

unfoldable pub conclude_election : Env → Node × ℕ → Node
unfolding votes_needed
conclude_election env (n, votes) =
    if leb (votes_needed n) votes
    then record n { state = become_leader n.id n.peers n.state }
    else reset_election_timer env (record n { state = set_state follower n.state })

-- How the `select` after the requests ends: `stopCh` or the election timer fires, or all have answered.
pub data Ending : Type 0 where
  interrupted : Ending
  answered : Env → Ending

unfoldable pub end_election : Ending → Node × ℕ → Node
unfolding conclude_election
end_election interrupted (n, votes) = n
end_election (answered env) r = conclude_election env r

-- `runCandidate`, with the candidate's own vote.
unfoldable pub run_candidate : Env → List (Env × Option VoteResponse) → Ending → Node → Node
unfolding begin_election end_election
run_candidate env responses ending n =
    let (n', term) = begin_election env n in
    end_election ending (collect_votes term responses (n', 1))
