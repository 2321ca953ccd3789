-- ===== src/Raft/Entries/Outcome.antt =====
-- internal/raft/node.go, `HandleAppendEntries`: what each answer says.
use sky_lock.Common.{
  ℕ, ◌+◌, ◌≤◌, ◌<◌, ◌≡◌, ◌≢◌, ◌⊎◌, Option, none, some, List, [], ◌∷◌, length, get_elem?,
}
use sky_lock.Raft.Log.{LogEntry, Log, get, last_index, term_at}
use sky_lock.Raft.State.{State, follower}
use sky_lock.Raft.Node.{Node}
use sky_lock.Raft.Entries.{AppendEntriesRequest}

-- The receiver's log agrees with the sender's at the entry before the new ones.
abbrev pub Agrees : AppendEntriesRequest → State → Type 0
Agrees req s = 0 < req.prev_log_index → term_at req.prev_log_index s.log ≡ req.prev_log_term

-- An entry that is read from the request, under the number that it has in the log.
abbrev pub numbered : ℕ → Option LogEntry → Option LogEntry
numbered index none = none
numbered index (some entry) = some (record entry { index = index })

-- The new log has the old entries up to the previous index, then those of the request, numbered from
-- there on, and no others.
abbrev pub Stores : ℕ → List LogEntry → Log → Log → Type 0
Stores prev entries l l' =
    (last_index l' ≡ prev + length entries)
    × ((i : ℕ) → i ≤ prev → get i l' ≡ get i l)
    × ((i : ℕ) → get (prev + i + 1) l' ≡ numbered (prev + i + 1) (get_elem? entries i))

-- What becomes of the log: a request without entries leaves it, and so does one whose previous index
-- is past the end, since `AppendEntries` of the log then does nothing.
abbrev pub LogAfter : ℕ → List LogEntry → Log → Log → Type 0
LogAfter prev [] l l' = l' ≡ l
LogAfter prev (entry ∷ rest) l l' =
    (last_index l < prev → l' ≡ l) × (prev ≤ last_index l → Stores prev (entry ∷ rest) l l')

pub record Accepted (req : AppendEntriesRequest) (s s' : State) : Type 0 where
  pub current : s.current_term ≤ req.term
  pub agrees : Agrees req s
  pub stored : LogAfter req.prev_log_index req.entries s.log s'.log
  pub past : last_index s.log < req.prev_log_index → req.prev_log_term ≡ 0
  pub term : s'.current_term ≡ req.term
  pub role : s'.role ≡ follower
  pub leader : s'.leader_id ≡ req.leader_id

pub record Refused (req : AppendEntriesRequest) (s s' : State) : Type 0 where
  pub log_kept : s'.log ≡ s.log
  pub commit_kept : s'.commit_index ≡ s.commit_index
  pub reason :
      (req.term < s.current_term) × (s' ≡ s)
      ⊎ (s.current_term ≤ req.term)
        × (0 < req.prev_log_index)
        × (term_at req.prev_log_index s.log ≢ req.prev_log_term)
        × (s'.current_term ≡ req.term)
