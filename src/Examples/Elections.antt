-- ===== src/Examples/Elections.antt =====
-- internal/raft: votes and elections in a cluster of three.
use sky_lock.Common.{
  ◌<◌, ◌≡◌, ◌↔◌, refl, inl, inr, true, false, Option, some, [], ◌∷◌, Text, text, arith,
}
use sky_lock.Raft.Log.{last_index, last_term}
use sky_lock.Raft.State.{leader, become_candidate, new_state, become_follower}
use sky_lock.Raft.Node.{Env, Node, new_node, reset_election_timer}
use sky_lock.Raft.Vote.{VoteRequest, VoteResponse, up_to_date}
use sky_lock.Raft.Vote.Safety.{grants}
use sky_lock.Raft.Entries.{
  AppendEntriesRequest, handle_append_entries, inconsistent, advance_commit, store_entries,
}
use sky_lock.Raft.Entries.DoubleVote.{second_vote_in_term}
use sky_lock.Raft.Election.{
  begin_election, open_election, vote_for_self, on_vote_response, run_candidate, answered,
}
use sky_lock.Raft.Election.StaleAnswer.{late_answer_frees_vote}
use sky_lock.Raft.Election.Majority.{run_candidate-leader_iff}
use sky_lock.Raft.Election.StaleWin.{run_candidate_stale_win}

abbrev env : Env
env = record { now = 1000; rand = 7 }

abbrev fresh : Node
fresh =
    new_node (text "a") (text "b" ∷ text "c" ∷ [])
      (record { election_timeout_min = 150; election_timeout_max = 300; heartbeat_interval = 50 })

abbrev ask : Text → VoteRequest
ask candidate_id = record {
  term = 3;
  candidate_id = candidate_id;
  last_log_index = 0;
  last_log_term = 0;
}

-- It has voted for "b" in term 3.
abbrev voter : Node
voter = record (new_node (text "a") (text "b" ∷ text "c" ∷ []) fresh.config) {
  state = record new_state { current_term = 3; voted_for = text "b" };
}

abbrev heartbeat : AppendEntriesRequest
heartbeat = record {
  term = 3;
  leader_id = text "b";
  prev_log_index = 0;
  prev_log_term = 0;
  entries = [];
  leader_commit = 0;
}

second_vote_in_term_example :
    grants env (ask (text "c")) (handle_append_entries env heartbeat voter).0 ≡ true
unfolding handle_append_entries up_to_date reset_election_timer new_node new_state become_follower
    last_index last_term inconsistent advance_commit store_entries
second_vote_in_term_example =
    second_vote_in_term env env heartbeat (ask (text "c")) voter (λ e. ground (arith, e)) refl refl
      refl

abbrev yes : Env × Option VoteResponse
yes = (env, some (record { term = 1; vote_granted = true }))

abbrev later : Env × Option VoteResponse
later = (env, some (record { term = 4; vote_granted = false }))

run_candidate-leader_iff_example :
    ((run_candidate env (yes ∷ later ∷ []) (answered env) fresh).state.role ≡ leader) ↔ (3 < 4)
unfolding begin_election open_election vote_for_self new_node become_candidate new_state
run_candidate-leader_iff_example = run_candidate-leader_iff env env (yes ∷ later ∷ []) fresh

run_candidate_stale_win_example :
    let s = (run_candidate env (yes ∷ later ∷ []) (answered env) fresh).state in
    (s.role ≡ leader) × (1 < s.current_term)
unfolding begin_election open_election vote_for_self new_node become_candidate new_state
run_candidate_stale_win_example =
    run_candidate_stale_win env env (yes ∷ later ∷ []) fresh (inr (inl (omega arith))) (omega arith)

late_answer_frees_vote_example :
    let n' =
      (on_vote_response env 1 (some (record { term = 2; vote_granted = false })) (voter, 1)).0 in
    (n'.state.current_term < 3) × (grants env (ask (text "c")) n' ≡ true)
unfolding up_to_date new_node new_state last_index last_term
late_answer_frees_vote_example =
    late_answer_frees_vote env env 1 1 (record { term = 2; vote_granted = false }) (ask (text "c"))
      voter (omega arith) (omega arith) (λ e. ground (arith, e)) refl refl
