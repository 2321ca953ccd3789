-- ===== src/Store/Ephemerals.antt =====
-- internal/store/store.go: `DeleteEphemerals`.
use sky_lock.Common.{Bool, ◌&&◌, List, [], ◌∷◌, ◌++◌, ltb, if◌then◌else◌, length, Text, str_eq, Map}
use sky_lock.Store.Types.{Node, deleted, Store, Calls, start}
use sky_lock.Store.Writes.{unlink}

unfoldable pub owned_by : Text → Node → Bool
owned_by session_id n = n.ephemeral && str_eq n.session_id session_id

-- The first loop of `DeleteEphemerals`, in the order of the map.
unfoldable pub ephemeral_paths : Text → Map Node → List Text
unfolding owned_by
ephemeral_paths session_id [] = []
ephemeral_paths session_id ((path, n) ∷ rest) =
    let paths = ephemeral_paths session_id rest in
    if owned_by session_id n then path ∷ paths else paths

-- sort.Slice by falling length. It is not stable: paths of one length may come in any order.
unfoldable pub insert_longer : Text → List Text → List Text
insert_longer a [] = a ∷ []
insert_longer a (b ∷ rest) =
    if ltb (length a) (length b) then b ∷ insert_longer a rest else a ∷ b ∷ rest

unfoldable pub sort_by_length : List Text → List Text
unfolding insert_longer
sort_by_length [] = []
sort_by_length (a ∷ rest) = insert_longer a (sort_by_length rest)

-- The last loop of `DeleteEphemerals`.
unfoldable pub unlink_all : List Text → Store → Store × Calls
unfolding unlink start
unlink_all [] s = (s, [])
unlink_all (path ∷ rest) s =
    let (s', calls) = unlink_all rest (record s { nodes = unlink path s.nodes }) in
    (s', start s.callbacks.on_delete (deleted path) ++ calls)

unfoldable pub delete_ephemerals : Text → Store → Store × Calls × List Text
unfolding ephemeral_paths sort_by_length unlink_all
delete_ephemerals session_id s =
    let paths = sort_by_length (ephemeral_paths session_id s.nodes) in
    let (s', calls) = unlink_all paths s in (s', calls, paths)
