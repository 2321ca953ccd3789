-- ===== src/Raft/Commit/Sorting.antt =====
-- internal/raft/node.go, `updateCommitIndex`: the two nested loops.
use mathlib.Core.List.{Perm}
use mathlib.Core.List.Perm
use sky_lock.Common.{
  ℕ, zero, suc, ◌+◌, ◌≤◌, ◌≡◌, refl, ap, inl, inr, List, [], ◌∷◌, arith, ltb, leb, if◌then◌else◌,
  length, Bool-cases,
}
use sky_lock.Raft.Commit.{sweep, exchange_sort}

abbrev pub AllGe : ℕ → List ℕ → Type 0
AllGe k [] = Unit {0}
AllGe k (x ∷ xs) = (k ≤ x) × AllGe k xs

abbrev pub IsSorted : List ℕ → Type 0
IsSorted [] = Unit {0}
IsSorted (x ∷ xs) = AllGe x xs × IsSorted xs

AllGe-mono : (j k : ℕ) (xs : List ℕ) → j ≤ k → AllGe k xs → AllGe j xs
AllGe-mono j k [] h a = tt
AllGe-mono j k (x ∷ xs) h a = (omega arith, AllGe-mono j k xs h a.1)

-- A sweep leaves the least of its elements in front.
sweep-le : (x : ℕ) (ys : List ℕ) → ((sweep x ys).0 ≤ x) × AllGe (sweep x ys).0 (sweep x ys).1
unfolding sweep
sweep-le x [] = (omega arith, tt)
sweep-le x (y ∷ ys) = let m = (if ltb y x then y else x) in ground (arith, sweep-le m ys)

sweep-perm : (x : ℕ) (ys : List ℕ) → Perm ((sweep x ys).0 ∷ (sweep x ys).1) (x ∷ ys)
unfolding sweep
sweep-perm x [] = Perm.refl (x ∷ [])
sweep-perm x (y ∷ ys) = elim (Bool-cases (ltb y x)) [
  | inl less ↦
      rw less
        (Perm.trans (Perm.swap x (sweep y ys).0 (sweep y ys).1) (Perm.cons x (sweep-perm y ys)))
  | inr not_less ↦ rw not_less (
      Perm.trans (Perm.swap y (sweep x ys).0 (sweep x ys).1)
        (Perm.trans (Perm.cons y (sweep-perm x ys)) (Perm.swap x y ys)))
]

length-sweep : (x : ℕ) (ys : List ℕ) → length (sweep x ys).1 ≡ length ys
unfolding sweep
length-sweep x [] = refl
length-sweep x (y ∷ ys) = ap suc (length-sweep (if ltb y x then y else x) ys)

exchange_sort-perm : (fuel : ℕ) (xs : List ℕ) → Perm (exchange_sort fuel xs) xs
unfolding exchange_sort
exchange_sort-perm zero xs = Perm.refl xs
exchange_sort-perm (suc fuel) [] = Perm.refl []
exchange_sort-perm (suc fuel) (x ∷ xs) =
    Perm.trans (Perm.cons (sweep x xs).0 (exchange_sort-perm fuel (sweep x xs).1)) (sweep-perm x xs)

AllGe-sweep :
    (k x : ℕ) (ys : List ℕ) → k ≤ x → AllGe k ys → (k ≤ (sweep x ys).0) × AllGe k (sweep x ys).1
unfolding sweep
AllGe-sweep k x [] h a = (h, tt)
AllGe-sweep k x (y ∷ ys) h a =
    let m = (if ltb y x then y else x) in ground (arith, AllGe-sweep k m ys)

AllGe-exchange_sort : (k fuel : ℕ) (xs : List ℕ) → AllGe k xs → AllGe k (exchange_sort fuel xs)
unfolding exchange_sort
AllGe-exchange_sort k zero xs h = h
AllGe-exchange_sort k (suc fuel) [] h = tt
AllGe-exchange_sort k (suc fuel) (x ∷ xs) h =
    let (least, rest) = AllGe-sweep k x xs h.0 h.1 in
    (least, AllGe-exchange_sort k fuel (sweep x xs).1 rest)

-- How many elements are at least `k`.
unfoldable pub count_ge : ℕ → List ℕ → ℕ
count_ge k [] = 0
count_ge k (x ∷ xs) = (if leb k x then 1 else 0) + count_ge k xs

count_ge-sweep :
    (k x : ℕ) (ys : List ℕ) → count_ge k ((sweep x ys).0 ∷ (sweep x ys).1) ≡ count_ge k (x ∷ ys)
unfolding sweep count_ge
count_ge-sweep k x [] = refl
count_ge-sweep k x (y ∷ ys) = elim (Bool-cases (ltb y x)) [
  | inl less ↦ rw less (omega (arith, count_ge-sweep k y ys))
  | inr not_less ↦ rw not_less (omega (arith, count_ge-sweep k x ys))
]

pub count_ge-exchange_sort :
    (k fuel : ℕ) (xs : List ℕ) → count_ge k (exchange_sort fuel xs) ≡ count_ge k xs
unfolding exchange_sort count_ge
count_ge-exchange_sort k zero xs = refl
count_ge-exchange_sort k (suc fuel) [] = refl
count_ge-exchange_sort k (suc fuel) (x ∷ xs) =
    let ih = count_ge-exchange_sort k fuel (sweep x xs).1 in
    omega (arith, ih, count_ge-sweep k x xs)

pub length-exchange_sort : (fuel : ℕ) (xs : List ℕ) → length (exchange_sort fuel xs) ≡ length xs
unfolding exchange_sort
length-exchange_sort zero xs = refl
length-exchange_sort (suc fuel) [] = refl
length-exchange_sort (suc fuel) (x ∷ xs) =
    omega (arith, length-exchange_sort fuel (sweep x xs).1, length-sweep x xs)

exchange_sort-IsSorted :
    (fuel : ℕ) (xs : List ℕ) → length xs ≤ fuel → IsSorted (exchange_sort fuel xs)
unfolding exchange_sort
exchange_sort-IsSorted zero [] h = tt
exchange_sort-IsSorted zero (x ∷ xs) h = absurd (omega arith)
exchange_sort-IsSorted (suc fuel) [] h = tt
exchange_sort-IsSorted (suc fuel) (x ∷ xs) h = (
  AllGe-exchange_sort (sweep x xs).0 fuel (sweep x xs).1 (sweep-le x xs).1,
  exchange_sort-IsSorted fuel (sweep x xs).1 (omega (arith, length-sweep x xs)),
)

-- With the length of the list as fuel the two loops of updateCommitIndex sort: the result is in
-- order and has the same elements.
pub exchange_sort_lem :
    (xs : List ℕ) → IsSorted (exchange_sort (length xs) xs) × Perm (exchange_sort (length xs) xs) xs
exchange_sort_lem xs =
    (exchange_sort-IsSorted (length xs) xs (omega arith), exchange_sort-perm (length xs) xs)
