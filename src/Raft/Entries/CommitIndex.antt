-- ===== src/Raft/Entries/CommitIndex.antt =====
-- internal/raft/node.go: `HandleAppendEntries` and the log below the commit index.
use sky_lock.Common.{
  ℕ, ◌+◌, ◌≤◌, ◌<◌, ◌≡◌, ◌⊎◌, refl, sym, ap, ◌∙◌, inl, inr, false, List, [], ◌∷◌, arith, length,
  subst,
}
use sky_lock.Raft.Log.{LogEntry, last_index, term_at}
use sky_lock.Raft.Log.Numbering.{NumberedFrom, IsNumbered, log_operations-IsNumbered}
use sky_lock.Raft.Log.Replication.{append_entries_lem}
use sky_lock.Raft.State.{State, become_follower}
use sky_lock.Raft.Node.{Env, Node, reset_election_timer}
use sky_lock.Raft.Entries.{
  AppendEntriesRequest, last_new_entry, store_from, store_entries, advance_commit, inconsistent,
  handle_append_entries,
}

-- The entries of a request carry the indexes that they are stored under, and terms count from 1.
pub record IsWellFormed (req : AppendEntriesRequest) : Type 0 where
  pub numbered : NumberedFrom req.prev_log_index req.entries
  pub named_term : 0 < req.prev_log_index → 0 < req.prev_log_term

-- The request reaches as far as the receiver's commit index.
abbrev pub Covers : AppendEntriesRequest → State → Type 0
Covers req s = s.commit_index ≤ req.prev_log_index + length req.entries

-- Everything applied is committed, and everything committed is in the log.
pub record IsSound (s : State) : Type 0 where
  pub numbered : IsNumbered s.log
  pub applied : s.last_applied ≤ s.commit_index
  pub stored : s.commit_index ≤ last_index s.log

pub last_new_entry_lem :
    (prev : ℕ) (entries : List LogEntry)
    → NumberedFrom prev entries
    → last_new_entry prev entries ≡ prev + length entries
unfolding last_new_entry
last_new_entry_lem prev [] h = omega arith
last_new_entry_lem prev (entry ∷ rest) h =
    let tail = subst (λ p. NumberedFrom p rest) (sym h.0) h.1 in
    last_new_entry_lem entry.index rest tail ∙ omega (arith, h.0)

-- A consistent request starts inside the log.
prev-le-last_index :
    (req : AppendEntriesRequest) (s : State)
    → IsWellFormed req
    → inconsistent req s ≡ false
    → req.prev_log_index ≤ last_index s.log
unfolding inconsistent term_at last_index
prev-le-last_index req s wf h = ground (arith, wf.named_term)

-- What storing the entries leaves alone, and how long the log is then.
pub record Stored (prev : ℕ) (entries : List LogEntry) (s s' : State) : Type 0 where
  pub numbered : IsNumbered s'.log
  pub reaches : prev + length entries ≤ last_index s'.log
  pub length_of :
      (last_index s'.log ≡ last_index s.log) ⊎ (last_index s'.log ≡ prev + length entries)
  pub commit_kept : s'.commit_index ≡ s.commit_index
  pub applied_kept : s'.last_applied ≡ s.last_applied

store_from-Stored :
    (prev : ℕ) (entries : List LogEntry) (s : State)
    → prev ≤ last_index s.log
    → IsNumbered s.log
    → Stored prev entries s (store_from prev entries s)
unfolding store_from
store_from-Stored prev [] s fits h = record {
  numbered = h;
  reaches = omega arith;
  length_of = inl refl;
  commit_kept = refl;
  applied_kept = refl;
}
store_from-Stored prev (entry ∷ rest) s fits h =
    let (_, appended) =
      (append_entries_lem prev (entry ∷ rest) s.log).1 (unfold last_index in fits) in
    record {
      numbered = log_operations-IsNumbered.2 s.log prev (entry ∷ rest) h;
      reaches = omega (arith, appended.0);
      length_of = inr appended.0;
      commit_kept = refl;
      applied_kept = refl;
    }

-- The two updates of an accepted request.
settled : AppendEntriesRequest → State → State
settled req s = advance_commit req (store_entries req s)

Settles : State → State → Type 0
Settles s s' = IsSound s' × (s.commit_index ≤ s'.commit_index)

settled-Settles :
    (req : AppendEntriesRequest) (s : State)
    → IsSound s
    → IsWellFormed req
    → Covers req s
    → inconsistent req s ≡ false
    → Settles s (settled req s)
unfolding settled advance_commit store_entries Settles
settled-Settles req s sound wf covers consistent =
    let prev = req.prev_log_index in
    let fits = prev-le-last_index req s wf consistent in
    let stored = store_from-Stored prev req.entries s fits sound.numbered in
    let last = last_new_entry_lem prev req.entries wf.numbered in ground (arith, stored, last)

-- A node whose log is numbered from 1 and which has applied no more than it has committed and
-- committed no more than it stores stays so, and its commit index does not fall, when it handles
-- an append request whose entries are numbered from its previous index, whose previous entry has a
-- term, and which reaches at least to the receiver's commit index.
pub handle_append_entries-IsSound :
    (env : Env) (req : AppendEntriesRequest) (n : Node)
    → IsSound n.state
    → IsWellFormed req
    → Covers req n.state
    → IsSound (handle_append_entries env req n).0.state
      × (n.state.commit_index ≤ (handle_append_entries env req n).0.state.commit_index)
unfolding handle_append_entries reset_election_timer settled Settles
handle_append_entries-IsSound env req n sound wf covers =
    let s = become_follower env.now req.term req.leader_id n.state in
    let sound' : IsSound s =
      unfold become_follower in
      record { numbered = sound.numbered; applied = sound.applied; stored = sound.stored } in
    let same : s.commit_index ≡ n.state.commit_index = unfold become_follower in refl in
    ground (arith, settled-Settles req s sound' wf (omega (arith, same)), same)

-- Storing entries at all cuts the log off behind them.
store_from_nonempty :
    (prev : ℕ) (entry : LogEntry) (rest : List LogEntry) (s : State)
    → prev ≤ last_index s.log
    → let s' = store_from prev (entry ∷ rest) s in
      (last_index s'.log ≡ prev + length (entry ∷ rest)) × (s'.commit_index ≡ s.commit_index)
unfolding store_from
store_from_nonempty prev entry rest s fits =
    let (_, appended) =
      (append_entries_lem prev (entry ∷ rest) s.log).1 (unfold last_index in fits) in
    (appended.0, refl)

-- An accepted, well-formed append request with entries that end below the receiver's commit index
-- leaves the commit index lower than it was, or past the end of the log.
pub short_request_breaks_commit :
    (env : Env) (req : AppendEntriesRequest) (entry : LogEntry) (rest : List LogEntry) (n : Node)
    → IsWellFormed req
    → n.state.current_term ≤ req.term
    → inconsistent req n.state ≡ false
    → req.entries ≡ entry ∷ rest
    → req.prev_log_index + length req.entries < n.state.commit_index
    → let s = (handle_append_entries env req n).0.state in
      (s.commit_index < n.state.commit_index) ⊎ (last_index s.log < s.commit_index)
unfolding handle_append_entries reset_election_timer store_entries advance_commit become_follower
short_request_breaks_commit env req entry rest n wf current consistent some_entries short =
    let prev = req.prev_log_index in
    let s = become_follower env.now req.term req.leader_id n.state in
    let fits = prev-le-last_index req n.state wf consistent in
    let last = last_new_entry_lem prev req.entries wf.numbered in
    let stored = store_from_nonempty prev entry rest s fits in
    ground (arith, last, stored, ap length some_entries)
