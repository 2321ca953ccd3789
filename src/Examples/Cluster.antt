-- ===== src/Examples/Cluster.antt =====
-- internal/raft: a cluster of three, with short logs.
use sky_lock.Common.{
  ℕ, zero, suc, ◌*◌, ◌<◌, ◌≤◌, ◌%◌, ◌≡◌, ◌≢◌, ◌⊎◌, refl, true, false, none, some, List, [], ◌∷◌,
  Text, text, arith, str_eq, lookup, take,
}
use sky_lock.Raft.Log.{LogEntry, command, last_index, term_at}
use sky_lock.Raft.State.{State, NodeState, follower, leader, index_of}
use sky_lock.Raft.Node.{RaftConfig, Env, Node}
use sky_lock.Raft.Entries.{AppendEntriesRequest, handle_append_entries, inconsistent}
use sky_lock.Raft.Entries.CommitIndex.{
  IsSound, IsWellFormed, handle_append_entries-IsSound, short_request_breaks_commit,
}
use sky_lock.Raft.Heartbeat.{append_request, on_append_response}
use sky_lock.Raft.Heartbeat.CatchUp.{UpToDate, heartbeat_replicates}
use sky_lock.Raft.Heartbeat.Exchange.{Match, HasTerms}
use sky_lock.Raft.Heartbeat.Retry.{catch_up, catch_up_terminates}
use sky_lock.Raft.Commit.{update_commit_index, new_commit_index, match_indexes, exchange_sort}
use sky_lock.Raft.Commit.Quorum.{holders, update_commit_index_lem, even_cluster_half_commits}
use sky_lock.Raft.Commit.Sorting.{count_ge}
use sky_lock.Raft.Apply.{apply_round}
use sky_lock.Raft.Apply.Prefix.{apply_round_lem}

abbrev config : RaftConfig
config = record { election_timeout_min = 150; election_timeout_max = 300; heartbeat_interval = 50 }

abbrev env : Env
env = record { now = 1000; rand = 7 }

abbrev entry : ℕ → ℕ → LogEntry
entry index term = record { index = index; term = term; kind = command; payload = 1 ∷ [] }

abbrev state : NodeState → List LogEntry → ℕ → State
state role entries commit_index = record {
  current_term = 2;
  voted_for = [];
  log = record { entries = entries };
  role = role;
  leader_id = [];
  commit_index = commit_index;
  last_applied = 0;
  next_index = (text "b", 3) ∷ (text "c", 2) ∷ [];
  match_index = (text "b", 2) ∷ (text "c", 1) ∷ [];
  last_heartbeat = 0;
}

abbrev node : Text → State → Node
node id s = record {
  id = id;
  peers = text "b" ∷ text "c" ∷ [];
  state = s;
  config = config;
  election_timer = none;
  commit_signal = false;
}

abbrev three : List LogEntry
three = entry 1 1 ∷ entry 2 2 ∷ entry 3 2 ∷ []

abbrev head : Node
head = node (text "a") (state leader three 1)

-- It agrees on two entries and holds one more of an older term.
abbrev tail : Node
tail = node (text "b") (state follower (entry 1 1 ∷ entry 2 2 ∷ entry 3 1 ∷ []) 1)

abbrev request : AppendEntriesRequest
request = record {
  term = 2;
  leader_id = text "a";
  prev_log_index = 2;
  prev_log_term = 2;
  entries = entry 3 2 ∷ [];
  leader_commit = 3;
}

tail-IsSound : IsSound tail.state
unfolding last_index
tail-IsSound = record {
  numbered = (refl, (refl, (refl, tt)));
  applied = omega arith;
  stored = omega arith;
}

request-IsWellFormed : IsWellFormed request
request-IsWellFormed = record { numbered = (refl, tt); named_term = λ h. omega arith }

handle_append_entries-IsSound_example :
    IsSound (handle_append_entries env request tail).0.state
    × (tail.state.commit_index ≤ (handle_append_entries env request tail).0.state.commit_index)
handle_append_entries-IsSound_example =
    handle_append_entries-IsSound env request tail tail-IsSound request-IsWellFormed (omega arith)

abbrev peer : Text
peer = text "b"

heartbeat_replicates_example :
    let req = append_request 2 peer head in
    let (follower', resp) = handle_append_entries env req tail in
    (follower'.state.log ≡ head.state.log)
    × UpToDate peer head.state.log (on_append_response env 2 peer req.entries (some resp) head)
unfolding last_index index_of lookup str_eq
heartbeat_replicates_example =
    heartbeat_replicates env env peer 2 head tail (refl, (refl, (refl, tt))) (omega arith) refl
      (omega arith) (omega arith) refl (omega arith)

-- The peer is sent the entry after its three first, which it refuses, and then the third.
abbrev eager : Node
eager = record head { state = record (head.state) { next_index = (text "b", 4) ∷ [] } }

eager-HasTerms : HasTerms eager.state.log
unfolding term_at last_index
eager-HasTerms zero pos le = absurd (omega arith)
eager-HasTerms (suc zero) pos le = omega arith
eager-HasTerms (suc (suc zero)) pos le = omega arith
eager-HasTerms (suc (suc (suc zero))) pos le = omega arith
eager-HasTerms (suc (suc (suc (suc p)))) pos le = absurd (omega arith)

eager-Match-tail : Match eager.state.log tail.state.log
unfolding term_at last_index
eager-Match-tail zero le le' same = refl
eager-Match-tail (suc zero) le le' same = refl
eager-Match-tail (suc (suc zero)) le le' same = refl
eager-Match-tail (suc (suc (suc zero))) le le' same = absurd (omega arith)
eager-Match-tail (suc (suc (suc (suc p)))) le le' same = absurd (omega arith)

catch_up_terminates_example :
    (leader' : Node) × (follower' : Node) × (catch_up 4 env peer eager tail
      ≡ some (leader', follower'))
    × (take 3 follower'.state.log.entries ≡ three)
unfolding last_index index_of lookup str_eq
catch_up_terminates_example =
    catch_up_terminates 4 env peer 3 eager tail (refl, (refl, (refl, tt))) (omega arith)
      eager-HasTerms eager-Match-tail (omega arith) refl (omega arith) (omega arith)

update_commit_index_lem_example :
    let s' = update_commit_index head.state in
    (1 ≤ s'.commit_index)
    × (s'.commit_index ≢ 1
        → (term_at s'.commit_index head.state.log ≡ 2)
          × (3 ≤ 2 * holders s'.commit_index head.state)
          × (3 % 2 ≡ 1 → 3 < 2 * holders s'.commit_index head.state))
unfolding match_indexes
update_commit_index_lem_example = update_commit_index_lem head.state

-- One peer besides the leader: a cluster of two.
abbrev pair : State
pair = record head.state { match_index = (text "b", 0) ∷ [] }

even_cluster_half_commits_example : 3 ≤ (update_commit_index pair).commit_index
unfolding match_indexes count_ge new_commit_index exchange_sort term_at last_index
even_cluster_half_commits_example = even_cluster_half_commits 3 pair refl (omega arith) refl

abbrev committed : State
committed = record head.state { last_applied = 1; commit_index = 3 }

apply_round_lem_example :
    let (applied, s') = apply_round true committed in
    (true ≡ true → entry 1 1 ∷ applied ≡ three)
    × (true ≡ false → applied ≡ [])
    × (s' ≡ record committed { last_applied = 3 })
unfolding last_index
apply_round_lem_example = apply_round_lem true committed (omega arith) (omega arith)

-- It has committed three entries; the request ends at the second.
abbrev ahead : Node
ahead = node (text "b") (state follower three 3)

abbrev short : AppendEntriesRequest
short = record request { prev_log_index = 1; prev_log_term = 1; entries = entry 2 2 ∷ [] }

short-IsWellFormed : IsWellFormed short
short-IsWellFormed = record { numbered = (refl, tt); named_term = λ h. omega arith }

short_request_breaks_commit_example :
    let s = (handle_append_entries env short ahead).0.state in
    (s.commit_index < 3) ⊎ (last_index s.log < s.commit_index)
unfolding inconsistent term_at
short_request_breaks_commit_example =
    short_request_breaks_commit env short (entry 2 2) [] ahead short-IsWellFormed (omega arith) refl
      refl (omega arith)
