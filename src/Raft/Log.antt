-- ===== src/Raft/Log.antt =====
-- internal/raft/log.go. Every method holds the log's mutex, so each is one function. A slice of the
-- program is a list; its length is an `int`, so the indices computed from it do not wrap.
pub mod Numbering
pub mod Replication
use sky_lock.Common.{
  ℕ, suc, ◌+◌, ◌-◌, Bool, true, false, ◌||◌, Option, none, some, List, [], ◌∷◌, ◌++◌, ltb, leb,
  ◌==◌, if◌then◌else◌, length, get_elem?, take, drop, ℤ, pos,
}

-- An int; the constants are the numbers from 0.
abbrev pub LogEntryType : Type 0
LogEntryType = ℤ

abbrev pub command : LogEntryType
command = pos 0

abbrev pub config : LogEntryType
config = pos 1

abbrev pub noop : LogEntryType
noop = pos 2

pub record LogEntry : Type 0 where
  pub index : ℕ
  pub term : ℕ
  pub kind : LogEntryType
  pub payload : List ℕ

pub record Log : Type 0 where
  pub entries : List LogEntry

unfoldable pub new_log : Log
new_log = record { entries = [] }

unfoldable pub append : LogEntry → Log → Log × ℕ
append entry l =
    let index = length l.entries + 1 in
    (record { entries = l.entries ++ record entry { index = index } ∷ [] }, index)

-- The loop of `AppendEntries`: entry `i` is given the index `prev + i + 1`.
unfoldable pub renumber : ℕ → List LogEntry → List LogEntry
renumber prev [] = []
renumber prev (entry ∷ rest) = record entry { index = prev + 1 } ∷ renumber (prev + 1) rest

unfoldable pub append_entries : ℕ → List LogEntry → Log → Log × Bool
append_entries prev entries l =
    if ltb (length l.entries) prev
    then (l, false)
    else (record { entries = take prev l.entries ++ renumber prev entries }, true)

unfoldable pub get : ℕ → Log → Option LogEntry
get index l =
    if index == 0 || ltb (length l.entries) index then none else get_elem? l.entries (index - 1)

unfoldable pub get_range : ℕ → ℕ → Log → List LogEntry
get_range start end l =
    if start == 0 || ltb end start || ltb (length l.entries) start
    then []
    else let last = if ltb (length l.entries) end then length l.entries else end in
      take (last - start + 1) (drop (start - 1) l.entries)

unfoldable pub last_index : Log → ℕ
last_index l = length l.entries

-- The term of an element that a bounds test has found to be there.
abbrev term_of : Option LogEntry → ℕ
term_of none = 0
term_of (some entry) = entry.term

unfoldable pub last_term : Log → ℕ
last_term l =
    if length l.entries == 0 then 0 else term_of (get_elem? l.entries (length l.entries - 1))

unfoldable pub term_at : ℕ → Log → ℕ
term_at index l =
    if index == 0 || ltb (length l.entries) index
    then 0
    else term_of (get_elem? l.entries (index - 1))

unfoldable pub log_length : Log → ℕ
log_length l = length l.entries

unfoldable pub entries_after : ℕ → Log → List LogEntry
entries_after index l = if leb (length l.entries) index then [] else drop index l.entries
