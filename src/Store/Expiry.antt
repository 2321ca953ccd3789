-- ===== src/Store/Expiry.antt =====
-- internal/store/store.go, `DeleteEphemerals`: what a session that ends takes with it.
use sky_lock.Common.{
  ◌≡◌, refl, Bool, false, ◌||◌, ◌&&◌, Option, none, some, List, [], ◌∷◌, Text, str_eq, str_eq_iff,
  Map, IsFlat, lookup, arith, if◌then◌else◌,
}
use sky_lock.Store.Types.{Node, Store}
use sky_lock.Store.Writes.{unlink}
use sky_lock.Store.Ephemerals.{
  owned_by, ephemeral_paths, insert_longer, sort_by_length, unlink_all, delete_ephemerals,
}
use sky_lock.Store.Tree.{has_name}
use sky_lock.Store.Contents.{Content, at, at-unlink}

-- The session's ephemeral node is at the path.
abbrev pub owns : Text → Option Content → Bool
owns session_id none = false
owns session_id (some k) = k.ephemeral && str_eq k.session_id session_id

pub has_name-ephemeral_paths :
    (session_id q : Text) (m : Map Node)
    → IsFlat m
    → has_name q (ephemeral_paths session_id m) ≡ owns session_id (at q m)
unfolding IsFlat ephemeral_paths has_name lookup owned_by
has_name-ephemeral_paths session_id q [] flat = refl
has_name-ephemeral_paths session_id q ((p, n) ∷ m) (fresh, flat) =
    ground (arith, has_name-ephemeral_paths session_id q m flat, str_eq_iff p q, fresh)

pub has_name-insert_longer :
    (q a : Text) (ps : List Text) → has_name q (insert_longer a ps) ≡ (str_eq a q || has_name q ps)
unfolding has_name insert_longer
has_name-insert_longer q a [] = refl
has_name-insert_longer q a (b ∷ ps) = ground (arith, has_name-insert_longer q a ps)

pub has_name-sort_by_length :
    (q : Text) (ps : List Text) → has_name q (sort_by_length ps) ≡ has_name q ps
unfolding has_name sort_by_length
has_name-sort_by_length q [] = refl
has_name-sort_by_length q (a ∷ ps) =
    ground (arith, has_name-sort_by_length q ps, has_name-insert_longer q a (sort_by_length ps))

at-unlink_all :
    (q : Text) (ps : List Text) (s : Store)
    → at q (unlink_all ps s).0.nodes ≡ (if has_name q ps then none else at q s.nodes)
unfolding unlink_all has_name
at-unlink_all q [] s = refl
at-unlink_all q (p ∷ ps) s =
    ground
      (arith, at-unlink_all q ps (record s { nodes = unlink p s.nodes }), at-unlink q p s.nodes)

-- DeleteEphemerals, on a store without two entries for a path, takes away every ephemeral node of
-- the session, and what is held at every other path stays as it was.
pub delete_ephemerals_lem :
    (session_id q : Text) (s : Store)
    → IsFlat s.nodes
    → at q (delete_ephemerals session_id s).0.nodes
      ≡ (if owns session_id (at q s.nodes) then none else at q s.nodes)
unfolding delete_ephemerals
delete_ephemerals_lem session_id q s flat =
    let paths = ephemeral_paths session_id s.nodes in
    ground (
      arith,
      at-unlink_all q (sort_by_length paths) s,
      has_name-sort_by_length q paths,
      has_name-ephemeral_paths session_id q s.nodes flat,
    )
