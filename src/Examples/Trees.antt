-- ===== src/Examples/Trees.antt =====
-- internal/store: small trees, their paths and their names.
use sky_lock.Common.{
  ◌≡◌, ◌≢◌, refl, true, false, none, [], ◌∷◌, ◌++◌, text, text_lt, arith, pos, negsuc, lookup, put,
  str_eq, if◌then◌else◌, IsFlat, ok, err,
}
use sky_lock.Path.{
  root, normalize_path, parent_path, base_name, resolve, push_segment, split, join, dir_part,
  has_slash,
}
use sky_lock.Sequence.{format_sequence, parse_sequence}
use sky_lock.Sequence.Digits.{parse-format_sequence}
use sky_lock.Sequence.Order.{format_sequence_order}
use sky_lock.Store.{
  Store, Node, Creation, new_store, create, set, delete_node, delete_ephemerals, version_mismatch,
}
use sky_lock.Store.Contents.{at, CreateEffect, create_lem}
use sky_lock.Store.Updates.{SetEffect, DeleteEffect, set_lem, delete_node_lem}
use sky_lock.Store.Cas.{set_wins_once}
use sky_lock.Store.Expiry.{owns, delete_ephemerals_lem}
use sky_lock.Store.Reach.{create_step, Reachable, fresh, after, IsGood, reachable-IsTree}
use sky_lock.Store.Flat.{new_store-IsFlat, create-IsFlat}

parse-format_sequence_example : parse_sequence 0 (format_sequence 42) ≡ 42
parse-format_sequence_example = parse-format_sequence 42 (omega arith)

format_sequence_order_example :
    text_lt (text "lock-" ++ format_sequence 9) (text "lock-" ++ format_sequence 10) ≡ true
format_sequence_order_example =
    format_sequence_order (text "lock-") 9 10 (omega arith) (omega arith)

abbrev empty : Store
empty = new_store 5

abbrev plain : Creation
plain = record { now = 7; payload = 1 ∷ []; ephemeral = false; session_id = []; sequential = false }

abbrev brief : Creation
brief = record {
  now = 8;
  payload = 2 ∷ [];
  ephemeral = true;
  session_id = text "s";
  sequential = true;
}

-- "/a", and then a node "/a/x0000000001" of the session "s".
abbrev one : Store
one = (create plain (text "/a") empty).0

abbrev two : Store
two = (create brief (text "/a/x") one).0

below : normalize_path (text "/a/x") ≢ root
unfolding normalize_path parent_path base_name resolve push_segment split join dir_part has_slash
    str_eq
below e = ground (arith, e)

two-Reachable : Reachable two
two-Reachable =
    after one two (after empty one (fresh 5) (create_step plain (text "/a") empty (λ _. refl)))
      (create_step brief (text "/a/x") one (λ e. absurd (below e)))

reachable-IsTree_example : IsGood two
reachable-IsTree_example = reachable-IsTree two two-Reachable

create_lem_example : CreateEffect brief (text "/a") one (create brief (text "/a/x") one)
create_lem_example = create_lem brief (text "/a/x") (text "/a") one

set_lem_example :
    SetEffect
      (9 ∷ [])
      (pos 1)
      (normalize_path (text "/a"))
      (text "/a")
      one
      (set 9 (text "/a") (9 ∷ []) (pos 1) one)
set_lem_example = set_lem 9 (text "/a") (9 ∷ []) (pos 1) (text "/a") one

delete_node_lem_example :
    DeleteEffect
      (negsuc 0)
      (normalize_path (text "/a"))
      (text "/a")
      two
      (delete_node (text "/a") (negsuc 0) two)
delete_node_lem_example = delete_node_lem (text "/a") (negsuc 0) (text "/a") two

set_once : (n : Node) × ((set 9 (text "/a") (9 ∷ []) (pos 1) one).2 ≡ ok n)
unfolding set create new_store lookup put normalize_path parent_path base_name resolve push_segment
    split join dir_part has_slash str_eq
set_once = (_, refl)

set_wins_once_example :
    let s' = (set 9 (text "/a") (9 ∷ []) (pos 1) one).0 in
    set 10 (text "/a") (8 ∷ []) (pos 1) s' ≡ (s', [], err version_mismatch)
set_wins_once_example = set_wins_once 9 10 (text "/a") (9 ∷ []) (8 ∷ []) 1 one set_once.0 set_once.1

two-IsFlat : IsFlat two.nodes
two-IsFlat =
    create-IsFlat brief (text "/a/x") one
      (create-IsFlat plain (text "/a") empty (new_store-IsFlat 5))

delete_ephemerals_lem_example :
    at (text "/a/x0000000001") (delete_ephemerals (text "s") two).0.nodes ≡ (
      if owns (text "s") (at (text "/a/x0000000001") two.nodes)
      then none
      else at (text "/a/x0000000001") two.nodes)
delete_ephemerals_lem_example =
    delete_ephemerals_lem (text "s") (text "/a/x0000000001") two two-IsFlat
