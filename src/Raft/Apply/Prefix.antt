-- ===== src/Raft/Apply/Prefix.antt =====
-- internal/raft/node.go, `applyLoop`: the entries of a round.
use mathlib.Core.List.{append-nil}
use sky_lock.Common.{
  ℕ, Bool, true, false, if◌then◌else◌, [], zero, suc, ◌+◌, ◌-◌, ◌≤◌, ◌≡◌, refl, ◌∙◌, ◌++◌, some,
  arith, length, take, drop, get_elem?-some, drop-eq-cons, take-append-take-drop,
}
use sky_lock.Raft.Log.{get, last_index}
use sky_lock.Raft.Log.Replication.{get-suc}
use sky_lock.Raft.State.{State, set_last_applied}
use sky_lock.Raft.Apply.{apply_from, apply_round}

-- With the rounds inside the log, the entries applied are the next ones, if there is a function.
apply_from_lem :
    (registered : Bool) (rounds i : ℕ) (s : State)
    → i + rounds ≤ length s.log.entries
    → s.last_applied ≡ i
    → ((apply_from registered rounds (i + 1) s).0
        ≡ (if registered then take rounds (drop i s.log.entries) else []))
      × ((apply_from registered rounds (i + 1) s).1 ≡ record s { last_applied = i + rounds })
unfolding apply_from set_last_applied
apply_from_lem registered zero i s h e = (ground arith, ground arith)
apply_from_lem registered (suc rounds) i s h e =
    let xs = s.log.entries in
    let (entry, found) = get_elem?-some i xs (omega arith) in
    let at : get (i + 1) s.log ≡ some entry =
      let one : i + 1 ≡ suc i = omega arith in rw one (get-suc i s.log ∙ found) in
    let s' : State = record s { last_applied = i + 1 } in
    let ih = apply_from_lem registered rounds (i + 1) s' (omega arith) refl in
    let next = drop-eq-cons i xs entry found in ground (arith, at, ih, next)

-- When what is applied is committed and what is committed is stored, a round of applyLoop with an
-- apply function calls it, in order, with exactly the entries that are committed and not yet
-- applied: with those applied before it, the log up to the commit index. Without an apply function
-- it calls nothing. In both cases, of the state only the last applied index changes, to the commit
-- index.
pub apply_round_lem :
    (registered : Bool) (s : State)
    → s.last_applied ≤ s.commit_index
    → s.commit_index ≤ last_index s.log
    → let (applied, s') = apply_round registered s in
      (registered ≡ true
        → take s.last_applied s.log.entries ++ applied ≡ take s.commit_index s.log.entries)
      × (registered ≡ false → applied ≡ [])
      × (s' ≡ record s { last_applied = s.commit_index })
unfolding apply_round last_index
apply_round_lem registered s behind stored =
    let gap = s.commit_index - s.last_applied in
    let done = apply_from_lem registered gap s.last_applied s (omega arith) refl in
    let joined = take-append-take-drop s.last_applied gap s.log.entries in
    let nothing = append-nil (take s.last_applied s.log.entries) in
    (ground (arith, done, joined, nothing), ground (arith, done), ground (arith, done))
