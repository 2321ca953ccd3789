-- ===== src/Api/Release.antt =====
-- internal/api/server.go, `releaseLock`: the node that a request names.
use sky_lock.Common.{
  ◌≡◌, ◌≢◌, refl, ◌∙◌, none, some, [], Text, str_eq_ne, str_eq_refl, Map, lookup, lookup-delete,
  negsuc, arith,
}
use sky_lock.Path.{root, normalize_path}
use sky_lock.Store
use sky_lock.Lock.Waiting.{unlock}
use sky_lock.Wiring.{System}
use sky_lock.Api.Locks.{release_lock}

unlink_gone : (path : Text) (m : Map Store.Node) → lookup path (Store.unlink path m) ≡ none
unfolding Store.unlink
unlink_gone path m = lookup-delete path path _ ∙ rw (str_eq_refl path) refl

delete_leaf :
    (path : Text) (n : Store.Node) (s : Store.Store)
    → lookup (normalize_path path) s.nodes ≡ some n
    → normalize_path path ≢ root
    → n.children ≡ []
    → ((Store.delete_node path (negsuc 0) s).2 ≡ none)
      × (lookup (normalize_path path) (Store.delete_node path (negsuc 0) s).0.nodes ≡ none)
unfolding Store.delete_node Store.version_conflict
delete_leaf path n s there not_root leaf =
    let p = normalize_path path in
    ground (arith, there, str_eq_ne p root not_root, leaf, unlink_gone p s.nodes)

-- A request that releases a lock takes away whatever node its identifier names, if that is there,
-- is not the root and has no children, and answers with success: it may be of any other lock, or
-- no lock at all.
pub release_any_node :
    (name lock_id : Text) (n : Store.Node) (y : System)
    → lookup (normalize_path lock_id) y.store.nodes ≡ some n
    → normalize_path lock_id ≢ root
    → lock_id ≢ []
    → n.children ≡ []
    → (let (y', _, response) = release_lock name (some lock_id) y in
        (response.status ≡ 204) × (lookup (normalize_path lock_id) y'.store.nodes ≡ none))
unfolding release_lock unlock
release_any_node name lock_id n y there not_root named leaf =
    ground (arith, delete_leaf lock_id n y.store there not_root leaf, str_eq_ne lock_id [] named)
