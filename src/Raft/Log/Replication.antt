-- ===== src/Raft/Log/Replication.antt =====
-- internal/raft/log.go: what `AppendEntries` leaves in the log, and a follower that catches up.
use sky_lock.Common.{
  ℕ, zero, suc, ◌+◌, ◌-◌, ◌≤◌, ◌<◌, ◌≡◌, refl, sym, ap, ◌∙◌, List, [], ◌∷◌, ◌++◌, none, true, false,
  arith, leb, if◌then◌else◌, length, get_elem?, take, drop, length-append, length-take,
  get_elem?-append_left, get_elem?-append_right, get_elem?-take, get_elem?-take_if, subst,
  get_elem?-drop, get_elem?-none, take-append-drop, drop_all,
}
use sky_lock.Raft.Log.{
  LogEntry, Log, renumber, append_entries, get, get_range, last_index, entries_after,
}
use sky_lock.Raft.Log.Numbering.{NumberedFrom-drop, NumberedFrom, IsNumbered, renumber_numbered}

pub length-renumber : (n : ℕ) (xs : List LogEntry) → length (renumber n xs) ≡ length xs
unfolding renumber
length-renumber n [] = refl
length-renumber n (x ∷ xs) = ap suc (length-renumber (n + 1) xs)

-- `get` reads the list at the index less one, and nothing at 0 or past the end.
pub get-suc : (i : ℕ) (l : Log) → get (suc i) l ≡ get_elem? l.entries i
unfolding get
get-suc i l = ground (arith, get_elem?-none i l.entries)

get-zero : (l : Log) → get 0 l ≡ none
unfolding get
get-zero l = refl

-- When `prev` is past the end, `append_entries` reports failure and leaves the log alone. Otherwise
-- the new log has the old entries up to `prev`, then the given ones under new numbers, and nothing
-- after them.
abbrev pub Appended : ℕ → List LogEntry → Log → Log → Type 0
Appended prev entries l l' =
    (last_index l' ≡ prev + length entries)
    × ((i : ℕ) → i ≤ prev → get i l' ≡ get i l)
    × ((i : ℕ) → get (prev + i + 1) l' ≡ get_elem? (renumber prev entries) i)

append_entries_fits :
    (prev : ℕ) (entries : List LogEntry) (l : Log)
    → prev ≤ length l.entries
    → append_entries prev entries l
      ≡ (record { entries = take prev l.entries ++ renumber prev entries }, true)
unfolding append_entries
append_entries_fits prev entries l h = ground arith

module _ (prev : ℕ) (entries : List LogEntry) (l : Log) (fits : prev ≤ length l.entries) where
  spliced : Log
  spliced = record { entries = take prev l.entries ++ renumber prev entries }

  length-kept : length (take prev l.entries) ≡ prev
  length-kept = omega (arith, length-take prev l.entries)

  last_index-spliced : last_index spliced ≡ prev + length entries
  unfolding last_index spliced
  last_index-spliced = omega (
    arith,
    length-append (take prev l.entries) (renumber prev entries),
    length-renumber prev entries,
    length-kept,
  )

  get-spliced_kept : (i : ℕ) → i ≤ prev → get i spliced ≡ get i l
  unfolding spliced
  get-spliced_kept zero h = get-zero spliced ∙ sym (get-zero l)
  get-spliced_kept (suc i) h =
      get-suc i spliced
      ∙ get_elem?-append_left i (take prev l.entries) (renumber prev entries)
          (omega (arith, length-kept))
      ∙ get_elem?-take prev i l.entries h
      ∙ sym (get-suc i l)

  get-spliced_new : (i : ℕ) → get (prev + i + 1) spliced ≡ get_elem? (renumber prev entries) i
  unfolding spliced
  get-spliced_new i =
      let e : prev + i + 1 ≡ suc (prev + i) = omega arith in
      let new = renumber prev entries in
      let read = get_elem?-append_right i (take prev l.entries) new in
      let shifted =
        subst (λ n. get_elem? (take prev l.entries ++ new) (n + i) ≡ get_elem? new i) length-kept
          read in
      rw e (get-suc (prev + i) spliced ∙ shifted)

-- When the previous index is past the end, AppendEntries reports failure and leaves the log alone.
-- Otherwise it reports success, and the new log has the old entries up to the previous index, then
-- the given ones under new numbers, and nothing after them.
pub append_entries_lem :
    (prev : ℕ) (entries : List LogEntry) (l : Log)
    → ((length l.entries < prev) → append_entries prev entries l ≡ (l, false))
      × (prev ≤ length l.entries
          → ((append_entries prev entries l).1 ≡ true)
            × Appended prev entries l (append_entries prev entries l).0)
unfolding spliced
append_entries_lem prev entries l = (
  too_far,
  λ h. rw (append_entries_fits prev entries l h) (
    refl,
    (
      last_index-spliced prev entries l h,
      get-spliced_kept prev entries l h,
      get-spliced_new prev entries l h,
    ),
  ),
)
  where
    too_far : length l.entries < prev → append_entries prev entries l ≡ (l, false)
    too_far h = unfold append_entries in ground arith

pub entries_after_lem : (prev : ℕ) (l : Log) → entries_after prev l ≡ drop prev l.entries
unfolding entries_after
entries_after_lem prev l = ground (arith, drop_all prev l.entries)

renumber-drop :
    (prev : ℕ) (l : Log) → IsNumbered l → renumber prev (drop prev l.entries) ≡ drop prev l.entries
renumber-drop prev l h = renumber_numbered prev (drop prev l.entries) (
    subst (λ n. NumberedFrom n (drop prev l.entries)) (omega arith)
      (NumberedFrom-drop 0 prev l.entries h))

-- A follower that holds the first `prev` entries of a numbered log and is sent the rest holds that
-- log afterwards, whatever else it held.
pub append_entries-entries_after :
    (prev : ℕ) (leader follower : Log)
    → IsNumbered leader
    → prev ≤ last_index follower
    → take prev follower.entries ≡ take prev leader.entries
    → append_entries prev (entries_after prev leader) follower ≡ (leader, true)
unfolding last_index
append_entries-entries_after prev leader follower numbered fits agree = rw (
  append_entries_fits prev (entries_after prev leader) follower fits,
  entries_after_lem prev leader,
  renumber-drop prev leader numbered,
  agree,
  take-append-drop prev leader.entries,
)

-- `get_range start end` has the entries from `start` to `end`, or to the end of the log.
pub get_range_lem :
    (start end i : ℕ) (l : Log)
    → 0 < start
    → get_elem? (get_range start end l) i
      ≡ (if leb (start + i) end then get (start + i) l else none)
unfolding get_range get
get_range_lem start end i l h =
    let xs = l.entries in
    let from = start - 1 in
    ground (
      arith,
      get_elem?-take_if (end - start + 1) i (drop from xs),
      get_elem?-take_if (length xs - start + 1) i (drop from xs),
      get_elem?-drop from i xs,
      get_elem?-none (from + i) xs,
    )
