-- ===== src/Raft/Log/Numbering.antt =====
-- internal/raft/log.go: the `Index` fields of the entries.
use sky_lock.Common.{
  ℕ, zero, suc, ◌+◌, ◌≡◌, refl, List, [], ◌∷◌, ◌++◌, arith, subst, inl, inr, ltb, ltb→le,
  Bool-cases, length, take, drop, length-take,
}
use sky_lock.Raft.Log.{LogEntry, Log, new_log, append, renumber, append_entries}

-- The entries are numbered from `n + 1` on.
abbrev pub NumberedFrom : ℕ → List LogEntry → Type 0
NumberedFrom n [] = Unit {0}
NumberedFrom n (entry ∷ rest) = (entry.index ≡ n + 1) × NumberedFrom (n + 1) rest

abbrev pub IsNumbered : Log → Type 0
IsNumbered l = NumberedFrom 0 l.entries

pub NumberedFrom-append :
    (n : ℕ) (xs ys : List LogEntry)
    → NumberedFrom n xs
    → NumberedFrom (n + length xs) ys
    → NumberedFrom n (xs ++ ys)
NumberedFrom-append n [] ys h k = subst (λ t. NumberedFrom t ys) (omega arith) k
NumberedFrom-append n (x ∷ xs) ys h k =
    (h.0, NumberedFrom-append (n + 1) xs ys h.1 (subst (λ t. NumberedFrom t ys) (omega arith) k))

pub NumberedFrom-take :
    (n k : ℕ) (xs : List LogEntry) → NumberedFrom n xs → NumberedFrom n (take k xs)
NumberedFrom-take n zero xs h = tt
NumberedFrom-take n (suc k) [] h = tt
NumberedFrom-take n (suc k) (x ∷ xs) h = (h.0, NumberedFrom-take (n + 1) k xs h.1)

pub NumberedFrom-drop :
    (n k : ℕ) (xs : List LogEntry) → NumberedFrom n xs → NumberedFrom (n + k) (drop k xs)
NumberedFrom-drop n zero xs h = subst (λ t. NumberedFrom t xs) (omega arith) h
NumberedFrom-drop n (suc k) [] h = tt
NumberedFrom-drop n (suc k) (x ∷ xs) h =
    subst (λ t. NumberedFrom t (drop k xs)) (omega arith) (NumberedFrom-drop (n + 1) k xs h.1)

pub renumber-NumberedFrom : (n : ℕ) (xs : List LogEntry) → NumberedFrom n (renumber n xs)
unfolding renumber
renumber-NumberedFrom n [] = tt
renumber-NumberedFrom n (x ∷ xs) = (refl, renumber-NumberedFrom (n + 1) xs)

-- Renumbering entries that have their numbers changes nothing.
pub renumber_numbered : (n : ℕ) (xs : List LogEntry) → NumberedFrom n xs → renumber n xs ≡ xs
unfolding renumber
renumber_numbered n [] h = refl
renumber_numbered n (x ∷ xs) h = ground (arith, renumber_numbered (n + 1) xs)

append-IsNumbered : (l : Log) (entry : LogEntry) → IsNumbered l → IsNumbered (append entry l).0
unfolding append
append-IsNumbered l entry h = NumberedFrom-append 0 l.entries _ h (omega arith, tt)

append_entries-IsNumbered :
    (l : Log) (prev : ℕ) (entries : List LogEntry)
    → IsNumbered l
    → IsNumbered (append_entries prev entries l).0
unfolding append_entries
append_entries-IsNumbered l prev entries h = elim (Bool-cases (ltb (length l.entries) prev)) [
  | inl short ↦ rw short h
  | inr fits ↦ rw fits (
      NumberedFrom-append 0 (take prev l.entries) _ (NumberedFrom-take 0 prev l.entries h) (
        subst (λ t. NumberedFrom t (renumber prev entries))
          (omega (arith, length-take prev l.entries, ltb→le _ _ fits))
          (renumber-NumberedFrom prev entries)))
]

-- A new log is numbered from 1 without gaps, and both ways of adding entries keep the numbering,
-- whatever numbers the added entries came with.
pub log_operations-IsNumbered :
    IsNumbered new_log
    × ((l : Log) (entry : LogEntry) → IsNumbered l → IsNumbered (append entry l).0)
    × ((l : Log) (prev : ℕ) (entries : List LogEntry)
        → IsNumbered l
        → IsNumbered (append_entries prev entries l).0)
unfolding new_log
log_operations-IsNumbered = (tt, append-IsNumbered, append_entries-IsNumbered)
