-- ===== src/Lock/First.antt =====
-- internal/lock/manager.go, `checkLockAcquired`, with the order of strings.
use sky_lock.Common.{
  ◌≡◌, ◌≢◌, refl, Bool, true, false, not, ◌&&◌, ◌||◌, Option, none, some, inl, inr, Option-cases,
  List, [], ◌∷◌, ◌++◌, Text, text, str_eq, str_eq_iff, str_eq_refl, text_lt, lookup, Result, ok,
  err, arith,
}
use sky_lock.Path.{normalize_path}
use sky_lock.Store.{StoreError, Store, Node, node_not_found, get_children, sort_texts, insert_text}
use sky_lock.Store.Tree.{has_name}
use sky_lock.Lock.{first_is, trim_prefix, check_lock_acquired}

-- The order of strings is strict and total.
pub text_lt_irreflexive : (a : Text) → text_lt a a ≡ false
unfolding text_lt
text_lt_irreflexive [] = refl
text_lt_irreflexive (x ∷ a) = ground (arith, text_lt_irreflexive a)

pub text_lt_asymmetric : (a b : Text) → text_lt a b ≡ true → text_lt b a ≡ false
unfolding text_lt
text_lt_asymmetric a [] h = absurd (ground (arith, h))
text_lt_asymmetric [] (y ∷ b) h = refl
text_lt_asymmetric (x ∷ a) (y ∷ b) h = ground (arith, h, text_lt_asymmetric a b)

pub text_lt_total : (a b : Text) → text_lt a b ≡ false → text_lt b a ≡ false → a ≡ b
unfolding text_lt
text_lt_total [] [] h k = refl
text_lt_total [] (y ∷ b) h k = absurd (ground (arith, h))
text_lt_total (x ∷ a) [] h k = absurd (ground (arith, k))
text_lt_total (x ∷ a) (y ∷ b) h k = ground (arith, h, k, text_lt_total a b)

-- a ≤ b and b ≤ c give a ≤ c.
text_le_trans : (a b c : Text) → text_lt b a ≡ false → text_lt c b ≡ false → text_lt c a ≡ false
unfolding text_lt
text_le_trans [] b c h k = ground (arith, h, k)
text_le_trans (x ∷ a) [] c h k = absurd (ground (arith, h))
text_le_trans (x ∷ a) (y ∷ b) [] h k = absurd (ground (arith, k))
text_le_trans (x ∷ a) (y ∷ b) (z ∷ c) h k = ground (arith, h, k, text_le_trans a b c)

-- No name of the list comes before the given one.
unfoldable pub none_before : Text → List Text → Bool
none_before name [] = true
none_before name (x ∷ xs) = not (text_lt x name) && none_before name xs

pub none_before-has_name :
    (name x : Text) (xs : List Text)
    → has_name x xs ≡ true
    → none_before name xs ≡ true
    → text_lt x name ≡ false
unfolding none_before has_name
none_before-has_name name x [] h k = absurd (ground (arith, h))
none_before-has_name name x (y ∷ xs) h k =
    ground (arith, h, k, str_eq_iff y x, none_before-has_name name x xs)

none_before_trans :
    (a b : Text) (xs : List Text)
    → text_lt b a ≡ false
    → none_before b xs ≡ true
    → none_before a xs ≡ true
unfolding none_before
none_before_trans a b [] h k = refl
none_before_trans a b (x ∷ xs) h k =
    ground (arith, h, k, text_le_trans a b x, none_before_trans a b xs)

insert_text-cons : (a : Text) (ys : List Text) → insert_text a ys ≢ []
unfolding insert_text
insert_text-cons a [] e = cc
insert_text-cons a (b ∷ ys) e = ground (arith, e)

-- The first name of the sorted list is the one that no other comes before.
pub first_is-sort_texts :
    (name : Text) (xs : List Text)
    → first_is name (sort_texts xs) ≡ (has_name name xs && none_before name xs)
unfolding sort_texts none_before has_name
first_is-sort_texts name [] = refl
first_is-sort_texts name (a ∷ rest) =
    insert_first name a rest (sort_texts rest) (λ n. first_is-sort_texts n rest) (empty rest)
  where
    empty : (xs : List Text) → sort_texts xs ≡ [] → xs ≡ []
    empty [] e = refl
    empty (x ∷ xs) e = absurd (insert_text-cons x (sort_texts xs) e)

    insert_first :
        (name a : Text) (rest ys : List Text)
        → ((n : Text) → first_is n ys ≡ (has_name n rest && none_before n rest))
        → (ys ≡ [] → rest ≡ [])
        → first_is name (insert_text a ys) ≡ (
            (str_eq a name || has_name name rest)
            && (not (text_lt a name) && none_before name rest))
    insert_first name a rest [] first nil =
        rw (nil refl) (ground (arith, str_eq_iff a name, text_lt_irreflexive name))
    insert_first name a rest (b ∷ ys) first nil = ground (
      arith,
      first name,
      first b,
      str_eq_refl b,
      str_eq_iff a name,
      str_eq_iff b name,
      text_lt_irreflexive name,
      text_lt_asymmetric b a,
      text_lt_total a b,
      none_before-has_name name b rest,
      none_before_trans a b rest,
    )

has_name-insert_text :
    (name a : Text) (ys : List Text)
    → has_name name (insert_text a ys) ≡ (str_eq a name || has_name name ys)
unfolding insert_text has_name
has_name-insert_text name a [] = refl
has_name-insert_text name a (b ∷ ys) = ground (arith, has_name-insert_text name a ys)

has_name-sort_texts :
    (name : Text) (xs : List Text) → has_name name (sort_texts xs) ≡ has_name name xs
unfolding sort_texts has_name
has_name-sort_texts name [] = refl
has_name-sort_texts name (a ∷ xs) =
    ground (arith, has_name-sort_texts name xs, has_name-insert_text name a (sort_texts xs))

none_before-insert_text :
    (name a : Text) (ys : List Text)
    → none_before name (insert_text a ys) ≡ (not (text_lt a name) && none_before name ys)
unfolding insert_text none_before
none_before-insert_text name a [] = refl
none_before-insert_text name a (b ∷ ys) = ground (arith, none_before-insert_text name a ys)

none_before-sort_texts :
    (name : Text) (xs : List Text) → none_before name (sort_texts xs) ≡ none_before name xs
unfolding sort_texts none_before
none_before-sort_texts name [] = refl
none_before-sort_texts name (a ∷ xs) =
    ground (arith, none_before-sort_texts name xs, none_before-insert_text name a (sort_texts xs))

-- The answer of `checkLockAcquired` for a node of the store's lock directory.
abbrev pub front_of : Text → Option Node → Result StoreError Bool
front_of name none = err node_not_found
front_of name (some n) = ok (has_name name n.children && none_before name n.children)

-- The answer of checkLockAcquired, for a lock directory that is there, is whether the directory
-- lists the name that is left of the path without the directory's, and lists no name before it in
-- the order of strings; a missing directory is an error.
pub check_lock_acquired_lem :
    (directory our_path : Text) (s : Store)
    → check_lock_acquired directory our_path s
      ≡ front_of
          (trim_prefix our_path (directory ++ text "/"))
          (lookup (normalize_path directory) s.nodes)
unfolding check_lock_acquired get_children
check_lock_acquired_lem directory our_path s =
    elim (Option-cases (lookup (normalize_path directory) s.nodes)) [
      | inl missing ↦ ground (arith, missing)
      | inr (n, there) ↦
          let name = trim_prefix our_path (directory ++ text "/") in
          ground (
            arith,
            there,
            first_is-sort_texts name (sort_texts n.children),
            has_name-sort_texts name n.children,
            none_before-sort_texts name n.children,
          )
    ]
