-- ===== src/Store/RootSequence.antt =====
-- internal/store/store.go, `Create`: a sequential node under the name of the root.
use sky_lock.Common.{
  ℕ, ◌≡◌, ◌≢◌, refl, Bool, true, some, List, Text, text, arith, lookup, put, str_eq,
}
use sky_lock.Path.{
  root, parent_path, base_name, normalize_path, resolve, push_segment, split, join, dir_part,
  has_slash,
}
use sky_lock.Sequence.{format_sequence}
use sky_lock.Store.Types.{Node, new_store}
use sky_lock.Store.Writes.{Creation, create}
use sky_lock.Store.Tree.{IsTree, Listed, has_name}

abbrev pub at_root : ℕ → List ℕ → Bool → Text → Creation
at_root now payload ephemeral session_id = record {
  now = now;
  payload = payload;
  ephemeral = ephemeral;
  session_id = session_id;
  sequential = true;
}

new_name : Text
new_name = text "/0000000001"

below_root : new_name ≢ root
unfolding new_name
below_root e = ground (arith, e)

unlisted_node :
    (now now' : ℕ) (payload : List ℕ) (ephemeral : Bool) (session_id : Text)
    → (n : Node) × (lookup new_name
          (create (at_root now payload ephemeral session_id) root (new_store now')).0.nodes
        ≡ some n)
unfolding create new_name new_store lookup put str_eq has_name normalize_path parent_path base_name
    resolve push_segment split join dir_part has_slash format_sequence
unlisted_node now now' payload ephemeral session_id = (_, refl)

unlisted_at_root :
    (now now' : ℕ) (payload : List ℕ) (ephemeral : Bool) (session_id : Text)
    → Listed
        (lookup
          (parent_path new_name)
          (create (at_root now payload ephemeral session_id) root (new_store now')).0.nodes)
        (base_name new_name)
    → ⊥
unfolding create new_name new_store lookup put str_eq has_name normalize_path parent_path base_name
    resolve push_segment split join dir_part has_slash format_sequence
unlisted_at_root now now' payload ephemeral session_id (_, listed) = cc listed

-- A sequential Create of "/" in an empty store breaks the tree: its node is in the store and the
-- root does not list it.
pub root_sequential_unlisted :
    (now now' : ℕ) (payload : List ℕ) (ephemeral : Bool) (session_id : Text)
    → IsTree (create (at_root now payload ephemeral session_id) root (new_store now')).0.nodes
    → ⊥
root_sequential_unlisted now now' payload ephemeral session_id tree =
    let (n, there) = unlisted_node now now' payload ephemeral session_id in
    unlisted_at_root now now' payload ephemeral session_id (tree.listed new_name n there below_root)
