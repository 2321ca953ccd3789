-- ===== src/Lock/Tickets.antt =====
-- internal/lock/manager.go, `TryLock`: the paths of lock directories and of the nodes in them.
use sky_lock.Common.{
  ℕ, ◌≡◌, ◌≢◌, refl, true, List, [], ◌∷◌, ◌++◌, length, ◌==◌, drop, Text, text, str_eq_refl,
  text_lt, arith,
}
use sky_lock.Path.{root, slash, has_slash, has_prefix, normalize_path, parent_path, base_name}
use sky_lock.Path.Segments.{IsProper, normalize_render}
use sky_lock.Path.Children.{child_path, IsProper-append}
use sky_lock.Sequence.{format_sequence}
use sky_lock.Sequence.Digits.{format_sequence-suffix}
use sky_lock.Store.Tree.{has_name}
use sky_lock.Lock.{lock_path, trim_prefix}
use sky_lock.Lock.First.{none_before, text_lt_irreflexive}

locks_proper : IsProper (text "locks")
unfolding has_slash
locks_proper = record {
  whole = refl;
  not_empty = λ e. ground (arith, e);
  not_dot = λ e. ground (arith, e);
  not_dot_dot = λ e. ground (arith, e);
}

locks_normal : (normalize_path (text "/locks") ≡ text "/locks") × (text "/locks" ≢ root)
locks_normal = (normalize_render (text "locks" ∷ []) (locks_proper, tt), λ e. ground (arith, e))

-- The lock directory of a name.
pub directory_path :
    (name : Text)
    → IsProper name
    → (normalize_path (lock_path name) ≡ lock_path name)
      × (parent_path (lock_path name) ≡ text "/locks")
      × (base_name (lock_path name) ≡ name)
      × (lock_path name ≢ root)
directory_path name proper = child_path (text "/locks") name locks_normal.0 locks_normal.1 proper

pub prefix_proper : IsProper (text "lock-")
unfolding has_slash
prefix_proper = record {
  whole = refl;
  not_empty = λ e. ground (arith, e);
  not_dot = λ e. ground (arith, e);
  not_dot_dot = λ e. ground (arith, e);
}

-- The name of the node with a sequence number in a lock directory.
abbrev pub ticket : ℕ → Text
ticket n = text "lock-" ++ format_sequence n

ticket_proper : (n : ℕ) → IsProper (ticket n)
ticket_proper n =
    let (no_slash, long) = format_sequence-suffix n in
    IsProper-append (text "lock-") (format_sequence n) prefix_proper no_slash (omega (arith, long))

pub ticket_path :
    (name : Text) (n : ℕ)
    → IsProper name
    → (let path = lock_path name ++ slash ∷ ticket n in
        (normalize_path path ≡ path)
        × (parent_path path ≡ lock_path name)
        × (base_name path ≡ ticket n)
        × (path ≢ root))
ticket_path name n proper =
    let (normal, above, base, not_root) = directory_path name proper in
    child_path (lock_path name) (ticket n) normal not_root (ticket_proper n)

has_prefix-append : (p t : Text) → has_prefix (p ++ t) p ≡ true
unfolding has_prefix
has_prefix-append [] t = refl
has_prefix-append (c ∷ p) t = ground (arith, has_prefix-append p t)

drop-append : (p t : Text) → drop (length p) (p ++ t) ≡ t
drop-append [] t = refl
drop-append (c ∷ p) t = drop-append p t

pub trim_prefix-append : (p t : Text) → trim_prefix (p ++ t) p ≡ t
unfolding trim_prefix
trim_prefix-append p t = rw (has_prefix-append p t) (drop-append p t)

-- Behind names that all come before it, a name is the first only when there are none.
pub front_of_children :
    (name : Text) (xs : List Text)
    → ((x : Text) → has_name x xs ≡ true → text_lt x name ≡ true)
    → none_before name (xs ++ name ∷ []) ≡ (length xs == 0)
unfolding none_before has_name
front_of_children name [] h = ground (arith, text_lt_irreflexive name)
front_of_children name (x ∷ xs) h = ground (arith, h x, str_eq_refl x)
