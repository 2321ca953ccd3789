-- ===== src/Store/Contents.antt =====
-- internal/store/store.go: the store as a flat map from paths to contents, which forgets the lists of
-- children, the times and the order of the entries.
use sky_lock.Common.{
  ℕ, ◌+◌, u64, if_elim, Option_elim, ◌≡◌, refl, ap, ◌∙◌, inl, inr, Bool, Option, none, some,
  Option-cases, List, [], Text, str_eq, str_eq_iff, Map, lookup, put, delete, lookup-put,
  lookup-delete, arith, if◌then◌else◌, Result, ok, err, ◌++◌,
}
use sky_lock.Path.{normalize_path, parent_path, base_name}
use sky_lock.Sequence.{format_sequence}
use sky_lock.Store.Types.{StoreError, Node, Store, Calls, ephemeral_parent}
use sky_lock.Store.Writes.{Creation, add_child, insert_node, place_node, create, drop_child, unlink}

pub record Content : Type 0 where
  pub payload : List ℕ
  pub version : ℕ
  pub ephemeral : Bool
  pub session_id : Text

abbrev pub content_of : Node → Content
content_of n = record {
  payload = n.payload;
  version = n.version;
  ephemeral = n.ephemeral;
  session_id = n.session_id;
}

abbrev pub content : Option Node → Option Content
content none = none
content (some n) = some (content_of n)

-- What the store holds at a path.
abbrev pub at : Text → Map Node → Option Content
at q m = content (lookup q m)

abbrev pub first_content : Creation → Content
first_content c = record {
  payload = c.payload;
  version = 1;
  ephemeral = c.ephemeral;
  session_id = c.session_id;
}

-- Rewriting a parent's list of children does not change the contents.
at-add_child :
    (q parent name : Text) (n : Node) (m : Map Node)
    → lookup parent m ≡ some n
    → at q (put parent (add_child name n) m) ≡ at q m
unfolding add_child
at-add_child q parent name n m h =
    ground (arith, lookup-put parent q (add_child name n) m, str_eq_iff parent q)

at-drop_child :
    (q parent name : Text) (n : Node) (m : Map Node)
    → lookup parent m ≡ some n
    → at q (put parent (drop_child name n) m) ≡ at q m
unfolding drop_child
at-drop_child q parent name n m h =
    ground (arith, lookup-put parent q (drop_child name n) m, str_eq_iff parent q)

-- What `Create` does to the contents, from its result.
abbrev pub CreateEffect : Creation → Text → Store → Store × Calls × Result StoreError Text → Type 0
CreateEffect c q s (s', calls, err e) = at q s'.nodes ≡ at q s.nodes
CreateEffect c q s (s', calls, ok path) =
    (at path s.nodes ≡ none)
    × (at q s'.nodes ≡ (if str_eq path q then some (first_content c) else at q s.nodes))

pub at-put :
    (q path : Text) (n : Node) (m : Map Node)
    → at q (put path n m) ≡ (if str_eq path q then some (content_of n) else at q m)
at-put q path n m = ground (arith, lookup-put path q n m)

at-delete :
    (q path : Text) (m : Map Node) → at q (delete path m) ≡ (if str_eq path q then none else at q m)
at-delete q path m = ground (arith, lookup-delete path q m)

-- The node that `Create` makes.
abbrev made : Creation → Text → Store → Node
made c path s = record {
  path = path;
  payload = c.payload;
  version = 1;
  ephemeral = c.ephemeral;
  session_id = c.session_id;
  sequential = c.sequential;
  sequence = s.seq_counter;
  children = [];
  create_time = c.now;
  modify_time = c.now;
}

linked_at :
    (q parent name : Text) (m : Map Node)
    → at q (
        if str_eq parent []
        then m
        else elim (lookup parent m) [ none ↦ m | some n ↦ put parent (add_child name n) m ])
      ≡ at q m
linked_at q parent name m =
    if_elim (λ r. at q r ≡ at q m) (str_eq parent []) m _ (λ _. refl)
      (λ _. elim (Option-cases (lookup parent m)) [
        | inl missing ↦ rw missing refl
        | inr (n, there) ↦ rw there (at-add_child q parent name n m there)
      ])

insert_node_lem :
    (c : Creation) (parent path q : Text) (s : Store)
    → CreateEffect c q s (insert_node c parent path s)
unfolding insert_node
insert_node_lem c parent path q s =
    Option_elim (CreateEffect c q s) (lookup path s.nodes) _ _
      (λ free. (
        ap content free,
        linked_at q parent (base_name path) (put path (made c path s) s.nodes)
            ∙ at-put q path (made c path s) s.nodes,
      ))
      (λ there taken. refl)

place_node_lem :
    (c : Creation) (parent path q : Text) (s : Store)
    → CreateEffect c q s (place_node c parent path s)
unfolding place_node
place_node_lem c parent path q s =
    let seq = u64 (s.seq_counter + 1) in
    if_elim (CreateEffect c q s) c.sequential _ (insert_node c parent path s)
      (λ _.
        insert_node_lem c parent (path ++ format_sequence seq) q (record s { seq_counter = seq }))
      (λ _. insert_node_lem c parent path q s)

-- Create with any arguments changes what is held at no path but the one it returns, which was free
-- and now holds the first version of the payload; when it returns an error it changes what is held
-- at no path.
pub create_lem :
    (c : Creation) (node_path q : Text) (s : Store) → CreateEffect c q s (create c node_path s)
unfolding create
create_lem c node_path q s =
    let path = normalize_path node_path in
    let parent = parent_path path in
    if_elim (CreateEffect c q s) (str_eq parent []) (place_node c parent path s) _
      (λ _. place_node_lem c parent path q s)
      (λ _. elim (Option-cases (lookup parent s.nodes)) [
        | inl missing ↦ rw missing refl
        | inr (n, there) ↦ rw there (
            if_elim (CreateEffect c q s) n.ephemeral (s, [], err ephemeral_parent) _ (λ _. refl)
              (λ _. place_node_lem c parent path q s))
      ])

pub at-unlink :
    (q path : Text) (m : Map Node) → at q (unlink path m) ≡ (if str_eq path q then none else at q m)
unfolding unlink
at-unlink q path m =
    let parent = parent_path path in
    if_elim (λ r. at q (delete path r) ≡ (if str_eq path q then none else at q m))
      (str_eq parent []) m _ (λ _. at-delete q path m)
      (λ _. elim (Option-cases (lookup parent m)) [
        | inl missing ↦ rw missing (at-delete q path m)
        | inr (n, there) ↦
            rw there
              (at-delete q path _ ∙ rw (at-drop_child q parent (base_name path) n m there) refl)
      ])
