-- ===== src/Raft/Cluster/Weights.antt =====
-- internal/raft/node.go: votes counted over the members of a cluster.
use sky_lock.Common.{
  ℕ, ◌+◌, ◌≤◌, ◌≡◌, refl, Bool, true, false, ◌&&◌, ◌||◌, List, [], ◌∷◌, ◌++◌, Text, str_eq, ◌==◌,
  length, arith,
}
use sky_lock.Raft.Cluster.{Ballot}

abbrev pub total : (Text → ℕ) → List Text → ℕ
total w [] = 0
total w (x ∷ xs) = w x + total w xs

abbrev pub bit : Bool → ℕ
bit true = 1
bit false = 0

abbrev pub same_ballot : Text → Text → ℕ → Ballot → Bool
same_ballot v candidate term b = str_eq b.voter v && str_eq b.candidate candidate && b.term == term

-- Whether `v` has given `candidate` its vote in the term.
abbrev pub has_voted : Text → Text → ℕ → List Ballot → Bool
has_voted v candidate term [] = false
has_voted v candidate term (b ∷ bs) =
    same_ballot v candidate term b || has_voted v candidate term bs

-- How many of the members have.
abbrev pub support : Text → ℕ → List Ballot → List Text → ℕ
support candidate term bs = total (λ v. bit (has_voted v candidate term bs))

pub total_mono :
    (f g : Text → ℕ) → ((x : Text) → f x ≤ g x) → (xs : List Text) → total f xs ≤ total g xs
total_mono f g h [] = omega arith
total_mono f g h (x ∷ xs) = omega (arith, h x, total_mono f g h xs)

pub total_disjoint :
    (f g : Text → ℕ)
    → ((x : Text) → f x + g x ≤ 1)
    → (xs : List Text) → total f xs + total g xs ≤ length xs
total_disjoint f g h [] = omega arith
total_disjoint f g h (x ∷ xs) = omega (arith, h x, total_disjoint f g h xs)

pub total_cut :
    (w : Text → ℕ) (p : Text) (before after : List Text)
    → total w (before ++ p ∷ after) ≡ w p + total w (before ++ after)
total_cut w p [] after = refl
total_cut w p (x ∷ before) after = omega (arith, total_cut w p before after)

pub total_one : (xs : List Text) → total (λ _. 1) xs ≡ length xs
total_one [] = refl
total_one (x ∷ xs) = omega (arith, total_one xs)

-- Votes that have been given stay given.
abbrev pub Grows : List Ballot → List Ballot → Type 0
Grows bs bs' = (v x : Text) (t : ℕ) → has_voted v x t bs ≡ true → has_voted v x t bs' ≡ true

pub Grows-cons : (b : Ballot) (bs : List Ballot) → Grows bs (b ∷ bs)
Grows-cons b bs v x t h = ground (arith, h)

pub support-Grows :
    (candidate : Text) (term : ℕ) (bs bs' : List Ballot) (xs : List Text)
    → Grows bs bs'
    → support candidate term bs xs ≤ support candidate term bs' xs
support-Grows candidate term bs bs' xs grows =
    total_mono _ _ (λ v. ground (arith, grows v candidate term)) xs
