-- ===== src/Raft/Apply.antt =====
-- internal/raft/node.go, `applyLoop`: one round of it. `registered` tells whether `SetApplyFunc` has set
-- `applyFunc`, which main never does. The result has the entries that it is called with, in the order
-- of the calls; an error that it returns is only logged.
pub mod Prefix
use sky_lock.Common.{
  ℕ, Bool, zero, suc, ◌+◌, ◌-◌, Option, none, some, List, [], ◌∷◌, ◌++◌, ltb, if◌then◌else◌,
}
use sky_lock.Raft.Log.{LogEntry, Log, get}
use sky_lock.Raft.State.{State, set_last_applied}

-- What the loop does with `Get(i)`.
unfoldable pub apply_entry : Bool → ℕ → Option LogEntry → State → List LogEntry × State
unfolding set_last_applied
apply_entry registered i none s = ([], s)
apply_entry registered i (some entry) s =
    (if registered then entry ∷ [] else [], set_last_applied i s)

-- `for i := lastApplied + 1; i <= commitIndex; i++`, by the number of rounds.
unfoldable pub apply_from : Bool → ℕ → ℕ → State → List LogEntry × State
unfolding apply_entry
apply_from registered zero i s = ([], s)
apply_from registered (suc rounds) i s =
    let (first, s') = apply_entry registered i (get i s.log) s in
    let (rest, s'') = apply_from registered rounds (i + 1) s' in (first ++ rest, s'')

unfoldable pub apply_round : Bool → State → List LogEntry × State
unfolding apply_from
apply_round registered s =
    if ltb s.last_applied s.commit_index
    then apply_from registered (s.commit_index - s.last_applied) (s.last_applied + 1) s
    else ([], s)
