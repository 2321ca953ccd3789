-- ===== src/Lock/Missing.antt =====
-- internal/lock/manager.go, `TryLock`, while the store has no node "/locks".
use sky_lock.Common.{
  ◌≡◌, ◌≢◌, ap, subst, ◌∙◌, true, false, none, inl, inr, Option-cases, [], ◌++◌, Text, text,
  str_eq_ne, lookup, err, arith,
}
use sky_lock.Path.{normalize_path, parent_path, base_name}
use sky_lock.Path.Segments.{IsProper}
use sky_lock.Path.Children.{child_path}
use sky_lock.Store.{node_not_found, Store, Creation, create, exists}
use sky_lock.Store.Tree.{Listed, IsTree}
use sky_lock.Lock.{lock_path, ensure_directory, try_lock, Attempt, World, failed, store_error}
use sky_lock.Lock.Tickets.{directory_path, prefix_proper}

-- `Create` under a parent that is not there.
create_orphan :
    (c : Creation) (path parent : Text) (s : Store)
    → normalize_path path ≡ path
    → parent_path path ≡ parent
    → parent ≢ []
    → lookup parent s.nodes ≡ none
    → create c path s ≡ (s, [], err node_not_found)
unfolding create
create_orphan c path parent s normal above not_empty missing =
    ground (arith, normal, above, missing, str_eq_ne parent [] not_empty)

-- Without its parent a directory is not there either.
no_directory :
    (name : Text) (s : Store)
    → IsProper name
    → IsTree s.nodes
    → lookup (text "/locks") s.nodes ≡ none
    → lookup (lock_path name) s.nodes ≡ none
no_directory name s proper tree missing = elim (Option-cases (lookup (lock_path name) s.nodes)) [
  | inl none_there ↦ none_there
  | inr (n, there) ↦
      let (_, above, _, not_root) = directory_path name proper in
      absurd (
        subst (λ o. Listed o (base_name (lock_path name)))
          (ap (λ q. lookup q s.nodes) above ∙ missing)
          (tree.listed (lock_path name) n there not_root))
]

-- TryLock, over a tree without a node "/locks", fails for every name that is one path segment,
-- with the store's error for a missing node, and changes nothing: it does not make "/locks", and
-- ignores that the lock directory could not be made.
pub try_lock_missing :
    (a : Attempt) (w : World)
    → IsProper a.name
    → IsTree w.store.nodes
    → lookup (text "/locks") w.store.nodes ≡ none
    → try_lock a w ≡ (w, [], failed (store_error node_not_found))
unfolding try_lock ensure_directory exists
try_lock_missing a w proper tree missing =
    let (normal, above, _, not_root) = directory_path a.name proper in
    let (normal', above', _, _) =
      child_path (lock_path a.name) (text "lock-") normal not_root prefix_proper in
    let no_dir = no_directory a.name w.store proper tree missing in
    let directory : Creation = record {
      now = a.now;
      payload = [];
      ephemeral = false;
      session_id = [];
      sequential = false;
    } in
    let node : Creation = record {
      now = a.now;
      payload = a.owner;
      ephemeral = true;
      session_id = a.session_id;
      sequential = true;
    } in
    ground (
      arith,
      normal,
      no_dir,
      create_orphan directory (lock_path a.name) (text "/locks") w.store normal above
          (λ e. ground (arith, e)) missing,
      create_orphan node (lock_path a.name ++ text "/lock-") (lock_path a.name) w.store normal'
          above' (λ e. ground (arith, e)) no_dir,
    )
