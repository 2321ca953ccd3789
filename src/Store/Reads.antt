-- ===== src/Store/Reads.antt =====
-- internal/store/store.go: the methods that only read.
use sky_lock.Common.{
  ℕ, Bool, true, false, none, some, List, [], ◌∷◌, if◌then◌else◌, length, Text, text_lt, Map,
  lookup, Result, ok, err,
}
use sky_lock.Path.{has_prefix, normalize_path}
use sky_lock.Store.Types.{StoreError, node_not_found, Node, Store}

unfoldable pub get : Text → Store → Result StoreError Node
get node_path s = elim (lookup (normalize_path node_path) s.nodes) [
  | none ↦ err node_not_found
  | some node ↦ ok node
]

-- sort.Strings: equal strings are indistinguishable, so the result does not depend on the algorithm.
unfoldable pub insert_text : Text → List Text → List Text
insert_text a [] = a ∷ []
insert_text a (b ∷ rest) = if text_lt b a then b ∷ insert_text a rest else a ∷ b ∷ rest

unfoldable pub sort_texts : List Text → List Text
unfolding insert_text
sort_texts [] = []
sort_texts (a ∷ rest) = insert_text a (sort_texts rest)

unfoldable pub get_children : Text → Store → Result StoreError (List Text)
unfolding sort_texts
get_children node_path s = elim (lookup (normalize_path node_path) s.nodes) [
  | none ↦ err node_not_found
  | some node ↦ ok (sort_texts node.children)
]

unfoldable pub exists : Text → Store → Bool
exists node_path s = elim (lookup (normalize_path node_path) s.nodes) [
  | none ↦ false
  | some _ ↦ true
]

unfoldable pub with_prefix : Text → Map Node → List Node
with_prefix prefix [] = []
with_prefix prefix ((path, n) ∷ rest) =
    let found = with_prefix prefix rest in if has_prefix path prefix then n ∷ found else found

unfoldable pub get_by_prefix : Text → Store → List Node
unfolding with_prefix
get_by_prefix prefix s = with_prefix (normalize_path prefix) s.nodes

unfoldable pub count : Store → ℕ
count s = length s.nodes
