-- ===== src/Raft/Heartbeat.antt =====
-- internal/raft/node.go, `sendHeartbeats`: the request that the leader builds for a peer, and what it
-- does with the answer.
pub mod CatchUp
pub mod Exchange
pub mod Retry
use sky_lock.Common.{
  ℕ, ◌+◌, ◌-◌, ◌^◌, Bool, true, false, Option, none, some, List, [], ◌∷◌, ltb, if◌then◌else◌, Text,
  u64, put,
}
use sky_lock.Raft.Log.{LogEntry, term_at, entries_after}
use sky_lock.Raft.State.{State, become_follower, index_of}
use sky_lock.Raft.Node.{Env, Node}
use sky_lock.Raft.Entries.{AppendEntriesRequest, AppendEntriesResponse, last_new_entry}

-- `nextIndex[peer] - 1` on uint64.
unfoldable pub prev_index : Text → State → ℕ
prev_index peer s = u64 (index_of peer s.next_index + 2 ^ 64 - 1)

unfoldable pub append_request : ℕ → Text → Node → AppendEntriesRequest
unfolding prev_index
append_request term peer n =
    let prev = prev_index peer n.state in
    record {
      term = term;
      leader_id = n.id;
      prev_log_index = prev;
      prev_log_term = term_at prev n.state.log;
      entries = entries_after prev n.state.log;
      leader_commit = n.state.commit_index;
    }

-- `entries` are those that were sent; the last one's index moves the peer's two indexes.
unfoldable pub record_success : Text → List LogEntry → State → State
record_success peer [] s = s
record_success peer (entry ∷ rest) s =
    let last = last_new_entry entry.index rest in
    record s {
      next_index = put peer (u64 (last + 1)) s.next_index;
      match_index = put peer last s.match_index;
    }

unfoldable pub record_refusal : Text → State → State
record_refusal peer s =
    let next = index_of peer s.next_index in
    if ltb 1 next then record s { next_index = put peer (next - 1) s.next_index } else s

-- `none` is an error of the transport. A success leaves a token in `commitCh`.
unfoldable pub on_append_response :
    Env → ℕ → Text → List LogEntry → Option AppendEntriesResponse → Node → Node
unfolding record_success record_refusal
on_append_response env term peer entries none n = n
on_append_response env term peer entries (some resp) n =
    if ltb term resp.term
    then record n { state = become_follower env.now resp.term [] n.state }
    else if resp.success
    then record n { state = record_success peer entries n.state; commit_signal = true }
    else record n { state = record_refusal peer n.state }
