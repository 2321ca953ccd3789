-- ===== src/Raft/Entries.antt =====
-- internal/raft/node.go, `HandleAppendEntries`. The handler holds the node's mutex throughout.
pub mod Outcome
pub mod CommitIndex
pub mod DoubleVote
use sky_lock.Common.{
  ℕ, Bool, true, false, ◌&&◌, not, List, [], ◌∷◌, ltb, leb, ◌==◌, if◌then◌else◌, Text,
}
use sky_lock.Raft.Log.{LogEntry, append_entries, term_at}
use sky_lock.Raft.State.{State, become_follower, set_commit_index}
use sky_lock.Raft.Node.{Env, Node, reset_election_timer}

pub record AppendEntriesRequest : Type 0 where
  pub term : ℕ
  pub leader_id : Text
  pub prev_log_index : ℕ
  pub prev_log_term : ℕ
  pub entries : List LogEntry
  pub leader_commit : ℕ

pub record AppendEntriesResponse : Type 0 where
  pub term : ℕ
  pub success : Bool

-- The index that the last entry of the request carries, or `prev` if there is none.
unfoldable pub last_new_entry : ℕ → List LogEntry → ℕ
last_new_entry prev [] = prev
last_new_entry prev (entry ∷ rest) = last_new_entry entry.index rest

-- `if len(req.Entries) > 0 { … }`; the result of the log's method is not read.
unfoldable pub store_from : ℕ → List LogEntry → State → State
store_from prev [] s = s
store_from prev (entry ∷ rest) s = record s { log = (append_entries prev (entry ∷ rest) s.log).0 }

unfoldable pub store_entries : AppendEntriesRequest → State → State
unfolding store_from
store_entries req s = store_from req.prev_log_index req.entries s

unfoldable pub advance_commit : AppendEntriesRequest → State → State
unfolding set_commit_index
advance_commit req s =
    let last = last_new_entry req.prev_log_index req.entries in
    if ltb s.commit_index req.leader_commit
    then set_commit_index (if ltb last req.leader_commit then last else req.leader_commit) s
    else s

-- The consistency test on the entry before the new ones fails.
unfoldable pub inconsistent : AppendEntriesRequest → State → Bool
inconsistent req s =
    ltb 0 req.prev_log_index && not (term_at req.prev_log_index s.log == req.prev_log_term)

-- The branch that recognises the leader; its test is met wherever the code reaches it.
unfoldable pub recognize_leader : Env → AppendEntriesRequest → Node → Node × ℕ
recognize_leader env req n =
    if leb n.state.current_term req.term
    then (record n { state = become_follower env.now req.term req.leader_id n.state }, req.term)
    else (n, n.state.current_term)

-- The rest of the handler, once the term is accepted.
unfoldable pub accept_entries : AppendEntriesRequest → ℕ → Node → Node × AppendEntriesResponse
unfolding inconsistent
accept_entries req term n =
    if inconsistent req n.state then (n, record { term = term; success = false }) else (
      record n { state = advance_commit req (store_entries req n.state) },
      record { term = term; success = true },
    )

unfoldable pub handle_append_entries :
    Env → AppendEntriesRequest → Node → Node × AppendEntriesResponse
unfolding recognize_leader accept_entries
handle_append_entries env req n =
    if ltb req.term n.state.current_term
    then (n, record { term = n.state.current_term; success = false })
    else let (n', term) = recognize_leader env req (reset_election_timer env n) in
      accept_entries req term n'
