-- ===== src/Store/Cas.antt =====
-- internal/store/store.go: the expected version of `Set` and `Delete` as a compare-and-swap.
use sky_lock.Common.{
  ℕ, ◌≡◌, inl, inr, false, some, Option-cases, List, [], Text, lookup, lookup-put, arith, ok, err,
  pos, u64, ◌==◌, ◌+◌, str_eq_refl,
}
use sky_lock.Path.{normalize_path}
use sky_lock.Store.Types.{Node, Store, version_mismatch}
use sky_lock.Store.Writes.{version_conflict, set_payload, set}

next_differs : (v : ℕ) → (v == u64 (v + 1)) ≡ false
next_differs v = ground arith

-- What a `Set` that succeeds over version v leaves at its path.
after_set :
    (now : ℕ) (node_path : Text) (payload : List ℕ) (v : ℕ) (s : Store) (n : Node)
    → (set now node_path payload (pos v) s).2 ≡ ok n
    → (lookup (normalize_path node_path) (set now node_path payload (pos v) s).0.nodes ≡ some n)
      × (n.version ≡ u64 (v + 1))
unfolding set set_payload version_conflict
after_set now node_path payload v s n h =
    let path = normalize_path node_path in
    elim (Option-cases (lookup path s.nodes)) [
      | inl missing ↦ ground (arith, missing, h)
      | inr (before, there) ↦ ground (
        arith,
        there,
        h,
        lookup-put path path (set_payload now payload before) s.nodes,
        str_eq_refl path,
      )
    ]

set_stale :
    (now : ℕ) (node_path : Text) (payload : List ℕ) (v : ℕ) (n : Node) (t : Store)
    → lookup (normalize_path node_path) t.nodes ≡ some n
    → n.version ≡ u64 (v + 1)
    → set now node_path payload (pos v) t ≡ (t, [], err version_mismatch)
unfolding set version_conflict
set_stale now node_path payload v n t there next = ground (arith, there, next, next_differs v)

-- Of two writers that expect the same version of a path only the first succeeds: when Set with the
-- expected version v has succeeded, a second Set of the path that expects v returns the version
-- error and changes nothing.
pub set_wins_once :
    (now now' : ℕ) (node_path : Text) (payload payload' : List ℕ) (v : ℕ) (s : Store) (n : Node)
    → (set now node_path payload (pos v) s).2 ≡ ok n
    → (let s' = (set now node_path payload (pos v) s).0 in
        set now' node_path payload' (pos v) s' ≡ (s', [], err version_mismatch))
set_wins_once now now' node_path payload payload' v s n h =
    let (there, next) = after_set now node_path payload v s n h in
    set_stale now' node_path payload' v n (set now node_path payload (pos v) s).0 there next
