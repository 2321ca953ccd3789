-- ===== src/Raft/Commit.antt =====
-- internal/raft/node.go, `updateCommitIndex`. A token in `commitCh` starts it.
pub mod Sorting
pub mod Quorum
use sky_lock.Common.{
  ℕ, zero, suc, ◌+◌, ◌/◌, Bool, false, ◌&&◌, List, [], ◌∷◌, ltb, ◌==◌, if◌then◌else◌, Text, length,
  get_or, map,
}
use sky_lock.Raft.Log.{last_index, term_at}
use sky_lock.Raft.State.{State, set_commit_index}
use sky_lock.Raft.Node.{Node}

-- The inner loop at a position that holds `x`: each later element that is smaller takes its place.
unfoldable pub sweep : ℕ → List ℕ → ℕ × List ℕ
sweep x [] = (x, [])
sweep x (y ∷ ys) =
    let (least, rest) = sweep (if ltb y x then y else x) ys in
    (least, (if ltb y x then x else y) ∷ rest)

-- The outer loop, over as many positions as the fuel; the length of the list is enough.
unfoldable pub exchange_sort : ℕ → List ℕ → List ℕ
unfolding sweep
exchange_sort zero xs = xs
exchange_sort (suc fuel) [] = []
exchange_sort (suc fuel) (x ∷ xs) =
    let (least, rest) = sweep x xs in least ∷ exchange_sort fuel rest

-- The leader's last index and those of the `matchIndex` map, in the order of a `range` loop.
unfoldable pub match_indexes : State → List ℕ
match_indexes s = last_index s.log ∷ map (λ e. e.1) s.match_index

unfoldable pub new_commit_index : State → ℕ
unfolding exchange_sort match_indexes
new_commit_index s =
    let indexes = match_indexes s in
    let sorted = exchange_sort (length indexes) indexes in get_or sorted (length sorted / 2) 0

unfoldable pub update_commit_index : State → State
unfolding new_commit_index set_commit_index
update_commit_index s =
    let index = new_commit_index s in
    if ltb s.commit_index index && term_at index s.log == s.current_term
    then set_commit_index index s
    else s

-- The branch of `runLeader` that takes the token from `commitCh`.
unfoldable pub on_commit_signal : Node → Node
unfolding update_commit_index
on_commit_signal n =
    if n.commit_signal
    then record n { state = update_commit_index n.state; commit_signal = false }
    else n
