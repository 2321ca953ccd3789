-- ===== src/Raft/Entries/DoubleVote.antt =====
-- internal/raft/node.go: `HandleAppendEntries` and the vote of the current term.
use sky_lock.Common.{◌≤◌, ◌≡◌, ◌≢◌, true, [], arith, str_eq_refl}
use sky_lock.Raft.State.{become_follower, set_voted_for}
use sky_lock.Raft.Node.{Env, Node, reset_election_timer}
use sky_lock.Raft.Vote.{VoteRequest, up_to_date, can_vote, handle_request_vote}
use sky_lock.Raft.Vote.Safety.{grants}
use sky_lock.Raft.Entries.{
  AppendEntriesRequest, store_entries, advance_commit, handle_append_entries,
}

-- A request of the current term erases the vote, whether it is accepted or fails the consistency test.
pub voted_for-handle_append_entries :
    (env : Env) (req : AppendEntriesRequest) (n : Node)
    → n.state.current_term ≤ req.term
    → let n' = (handle_append_entries env req n).0 in
      (n'.state.voted_for ≡ []) × (n'.state.current_term ≡ req.term)
unfolding handle_append_entries reset_election_timer store_entries advance_commit become_follower
voted_for-handle_append_entries env req n h = ground arith

-- A node that handles an append request of its own term then grants, in the same term, the vote of
-- any candidate other than the one that it had voted for, if the candidate's log is up to date.
pub second_vote_in_term :
    (env env' : Env) (req : AppendEntriesRequest) (vote : VoteRequest) (n : Node)
    → n.state.voted_for ≢ vote.candidate_id
    → req.term ≡ n.state.current_term
    → vote.term ≡ n.state.current_term
    → up_to_date vote (handle_append_entries env req n).0.state ≡ true
    → grants env' vote (handle_append_entries env req n).0 ≡ true
unfolding handle_request_vote reset_election_timer set_voted_for can_vote become_follower
second_vote_in_term env env' req vote n other same same' fresh =
    let (cleared, term) = voted_for-handle_append_entries env req n (omega arith) in
    ground (arith, cleared, term, str_eq_refl [])
