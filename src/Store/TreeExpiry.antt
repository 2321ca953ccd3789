-- ===== src/Store/TreeExpiry.antt =====
-- internal/store/store.go, `DeleteEphemerals` on a tree.
use sky_lock.Common.{
  ◌≡◌, refl, ap, sym, ◌∙◌, inl, inr, true, false, some, Option-cases, List, [], ◌∷◌, Text,
  str_eq_iff, str_eq_refl, Map, lookup, IsFlat, arith, if_elim, ltb, length,
}
use sky_lock.Store.Types.{Node, Store}
use sky_lock.Store.Writes.{unlink}
use sky_lock.Store.Ephemerals.{
  owned_by, ephemeral_paths, insert_longer, sort_by_length, unlink_all, delete_ephemerals,
}
use sky_lock.Store.Tree.{has_name, IsTree}
use sky_lock.Store.TreeDelete.{unlink-IsTree}
use sky_lock.Store.Contents.{at, at-unlink}
use sky_lock.Store.Expiry.{
  owns, has_name-ephemeral_paths, has_name-insert_longer, has_name-sort_by_length,
}

-- No path comes twice.
Distinct : List Text → Type 0
Distinct [] = Unit
Distinct (p ∷ ps) = (has_name p ps ≡ false) × Distinct ps

ephemeral_paths-Distinct :
    (session_id : Text) (m : Map Node) → IsFlat m → Distinct (ephemeral_paths session_id m)
unfolding IsFlat ephemeral_paths Distinct
ephemeral_paths-Distinct session_id [] flat = tt
ephemeral_paths-Distinct session_id ((p, n) ∷ m) (fresh, flat) =
    let rest = ephemeral_paths session_id m in
    if_elim Distinct (owned_by session_id n) (p ∷ rest) rest
      (λ _. (
        ground (arith, fresh, has_name-ephemeral_paths session_id p m flat),
        ephemeral_paths-Distinct session_id m flat,
      ))
      (λ _. ephemeral_paths-Distinct session_id m flat)

insert_longer-Distinct :
    (a : Text) (ps : List Text)
    → has_name a ps ≡ false
    → Distinct ps
    → Distinct (insert_longer a ps)
unfolding Distinct insert_longer has_name
insert_longer-Distinct a [] fresh d = (refl, tt)
insert_longer-Distinct a (b ∷ ps) fresh (here, d) =
    if_elim Distinct (ltb (length a) (length b)) (b ∷ insert_longer a ps) (a ∷ b ∷ ps)
      (λ _. (
        ground (arith, has_name-insert_longer b a ps, here, fresh, str_eq_iff a b, str_eq_iff b a),
        insert_longer-Distinct a ps (ground (arith, fresh)) d,
      ))
      (λ _. (fresh, (here, d)))

sort_by_length-Distinct : (ps : List Text) → Distinct ps → Distinct (sort_by_length ps)
unfolding Distinct sort_by_length
sort_by_length-Distinct [] d = tt
sort_by_length-Distinct (p ∷ ps) (here, d) =
    insert_longer-Distinct p (sort_by_length ps) (has_name-sort_by_length p ps ∙ here)
      (sort_by_length-Distinct ps d)

-- Every path of the list holds an ephemeral node of the session.
Owned : Text → List Text → Map Node → Type 0
Owned session_id ps m = (q : Text) → has_name q ps ≡ true → owns session_id (at q m) ≡ true

owned_node :
    (session_id p : Text) (m : Map Node)
    → owns session_id (at p m) ≡ true
    → (n : Node) × (lookup p m ≡ some n) × (n.ephemeral ≡ true)
owned_node session_id p m h = elim (Option-cases (lookup p m)) [
  | inl missing ↦ absurd (ground (arith, missing, h))
  | inr (n, there) ↦ (n, there, ground (arith, there, h))
]

unlink_owned-IsTree :
    (session_id p : Text) (m : Map Node)
    → owns session_id (at p m) ≡ true
    → IsTree m
    → IsTree (unlink p m)
unlink_owned-IsTree session_id p m mine tree =
    let (n, there, brief) = owned_node session_id p m mine in
    unlink-IsTree m tree p n there (tree.leaf p n there brief)
      (λ e. ground (arith, tree.lasting_root n (ap (λ q. lookup q m) (sym e) ∙ there), brief))

unlink_all-IsTree :
    (session_id : Text) (ps : List Text) (s : Store)
    → Distinct ps
    → Owned session_id ps s.nodes
    → IsTree s.nodes
    → IsTree (unlink_all ps s).0.nodes
unfolding Distinct Owned unlink_all has_name
unlink_all-IsTree session_id [] s d owned tree = tree
unlink_all-IsTree session_id (p ∷ ps) s (here, d) owned tree =
    let mine = owned p (ground (arith, str_eq_refl p)) in
    unlink_all-IsTree session_id ps (record s { nodes = unlink p s.nodes }) d
      (λ q h. ground (arith, at-unlink q p s.nodes, owned q, h, here, str_eq_iff p q))
      (unlink_owned-IsTree session_id p s.nodes mine tree)

-- `DeleteEphemerals` keeps the tree.
pub delete_ephemerals-IsTree :
    (session_id : Text) (s : Store)
    → IsFlat s.nodes
    → IsTree s.nodes
    → IsTree (delete_ephemerals session_id s).0.nodes
unfolding delete_ephemerals Owned
delete_ephemerals-IsTree session_id s flat tree =
    let paths = ephemeral_paths session_id s.nodes in
    unlink_all-IsTree session_id (sort_by_length paths) s
      (sort_by_length-Distinct paths (ephemeral_paths-Distinct session_id s.nodes flat))
      (λ q h.
        sym (has_name-ephemeral_paths session_id q s.nodes flat)
        ∙ sym (has_name-sort_by_length q paths)
        ∙ h)
      tree
