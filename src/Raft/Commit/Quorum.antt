-- ===== src/Raft/Commit/Quorum.antt =====
-- internal/raft/node.go, `updateCommitIndex`: how many members hold what is committed.
use sky_lock.Common.{
  ℕ, zero, suc, ◌+◌, ◌*◌, ◌/◌, ◌%◌, ◌≤◌, ◌<◌, ◌≡◌, ◌≢◌, ◌↔◌, List, [], ◌∷◌, arith, length, get_or,
  refl,
}
use sky_lock.Raft.Log.{term_at}
use sky_lock.Raft.State.{State}
use sky_lock.Raft.Commit.{exchange_sort, match_indexes, new_commit_index, update_commit_index}
use sky_lock.Raft.Commit.Sorting.{
  AllGe, IsSorted, count_ge, count_ge-exchange_sort, length-exchange_sort, exchange_sort_lem,
}

count_ge_all : (k j : ℕ) (xs : List ℕ) → k ≤ j → AllGe j xs → count_ge k xs ≡ length xs
unfolding count_ge
count_ge_all k j [] h a = refl
count_ge_all k j (x ∷ xs) h a = ground (arith, count_ge_all k j xs h a.1)

count_ge-le : (k : ℕ) (xs : List ℕ) → count_ge k xs ≤ length xs
unfolding count_ge
count_ge-le k [] = omega arith
count_ge-le k (x ∷ xs) = ground (arith, count_ge-le k xs)

get_or-AllGe : (k m : ℕ) (xs : List ℕ) → AllGe k xs → m < length xs → k ≤ get_or xs m 0
get_or-AllGe k m [] a h = absurd (omega arith)
get_or-AllGe k zero (x ∷ xs) a h = a.0
get_or-AllGe k (suc m) (x ∷ xs) a h = get_or-AllGe k m xs a.1 (omega arith)

-- In a sorted list the element at `m` is at least `k` exactly if all but `m` elements are.
sorted_rank :
    (k m : ℕ) (xs : List ℕ)
    → IsSorted xs
    → m < length xs
    → (k ≤ get_or xs m 0) ↔ (length xs ≤ m + count_ge k xs)
unfolding count_ge
sorted_rank k m [] s h = absurd (omega arith)
sorted_rank k zero (x ∷ xs) s h =
    (λ le. ground (arith, count_ge_all k x xs le s.0), λ le. ground (arith, count_ge-le k xs))
sorted_rank k (suc m) (x ∷ xs) s h =
    let ih = sorted_rank k m xs s.1 (omega arith) in
    (
      λ le. ground (arith, ih.0 le),
      λ le. ground (arith, ih.1, get_or-AllGe x m xs s.0 (omega arith)),
    )

-- The number of members whose log is known to reach `k`, and of all members.
abbrev pub holders : ℕ → State → ℕ
holders k s = count_ge k (match_indexes s)

abbrev pub members : State → ℕ
members s = length (match_indexes s)

-- The index that is chosen is the greatest that at least half of the members hold.
pub new_commit_index_iff :
    (k : ℕ) (s : State) → (k ≤ new_commit_index s) ↔ (members s ≤ 2 * holders k s)
unfolding new_commit_index match_indexes
new_commit_index_iff k s =
    let xs = match_indexes s in
    let sorted = exchange_sort (length xs) xs in
    let rank =
      sorted_rank k (length sorted / 2) sorted (exchange_sort_lem xs).0
        (omega (arith, length-exchange_sort (length xs) xs)) in
    (
      ground (
        arith,
        rank.0,
        length-exchange_sort (length xs) xs,
        count_ge-exchange_sort k (length xs) xs,
      ),
      ground (
        arith,
        rank.1,
        length-exchange_sort (length xs) xs,
        count_ge-exchange_sort k (length xs) xs,
      ),
    )

-- The commit index never falls in updateCommitIndex. Where it rises, the entry that it rises to is
-- of the current term and at least half of the members hold it, which in a cluster of odd size is
-- a strict majority.
pub update_commit_index_lem :
    (s : State)
    → let s' = update_commit_index s in
      (s.commit_index ≤ s'.commit_index)
      × (s'.commit_index ≢ s.commit_index
          → (term_at s'.commit_index s.log ≡ s.current_term)
            × (members s ≤ 2 * holders s'.commit_index s)
            × (members s % 2 ≡ 1 → members s < 2 * holders s'.commit_index s))
unfolding update_commit_index
update_commit_index_lem s =
    let index = new_commit_index s in
    let enough = (new_commit_index_iff index s).0 (omega arith) in
    (ground arith, λ moved. ground (arith, enough))

-- In a cluster of even size half of the members are enough, which is no majority: when exactly
-- half of them hold an index above the commit index, and the entry at the index that
-- updateCommitIndex chooses is of the current term, the commit index reaches it.
pub even_cluster_half_commits :
    (k : ℕ) (s : State)
    → members s ≡ 2 * holders k s
    → s.commit_index < k
    → term_at (new_commit_index s) s.log ≡ s.current_term
    → k ≤ (update_commit_index s).commit_index
unfolding update_commit_index
even_cluster_half_commits k s half above current =
    let chosen = (new_commit_index_iff k s).1 (omega arith) in ground (arith, chosen)
