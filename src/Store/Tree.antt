-- ===== src/Store/Tree.antt =====
-- internal/store/store.go: the shape of the tree, and the store of `NewStore`.
use sky_lock.Common.{
  ℕ, ◌≡◌, ◌≢◌, Bool, true, false, ◌||◌, Option, none, some, List, [], ◌∷◌, ◌++◌, Text, str_eq,
  str_eq_iff, Map, lookup, arith, str_eq_refl, refl, sym, subst,
}
use sky_lock.Path.{root, normalize_path, parent_path, base_name}
use sky_lock.Path.Segments.{normalize_render}
use sky_lock.Store.Types.{Node, new_store}
use sky_lock.Store.Writes.{add_child, remove_name}

unfoldable pub has_name : Text → List Text → Bool
has_name name [] = false
has_name name (child ∷ rest) = str_eq child name || has_name name rest

-- A parent that lists the name, and is not ephemeral.
abbrev pub Listed : Option Node → Text → Type 0
Listed none name = ⊥
Listed (some n) name = (n.ephemeral ≡ false) × (has_name name n.children ≡ true)

-- The root is there and is not ephemeral; keys are normalised and are their nodes' paths; every node but the root is listed under its own name
-- by its parent, which is there and is not ephemeral; and an ephemeral node has no children.
pub record IsTree (m : Map Node) : Type 0 where
  pub rooted : lookup root m ≢ none
  pub lasting_root : (n : Node) → lookup root m ≡ some n → n.ephemeral ≡ false
  pub normal : (p : Text) (n : Node) → lookup p m ≡ some n → normalize_path p ≡ p
  pub named : (p : Text) (n : Node) → lookup p m ≡ some n → n.path ≡ p
  pub listed :
      (p : Text) (n : Node)
      → lookup p m ≡ some n
      → p ≢ root
      → Listed (lookup (parent_path p) m) (base_name p)
  pub leaf : (p : Text) (n : Node) → lookup p m ≡ some n → n.ephemeral ≡ true → n.children ≡ []

has_name-append :
    (name new : Text) (xs : List Text)
    → has_name name (xs ++ new ∷ []) ≡ has_name name xs || str_eq new name
unfolding has_name
has_name-append name new [] = ground arith
has_name-append name new (x ∷ xs) = ground (arith, has_name-append name new xs)

pub has_name-add_child :
    (name new : Text) (n : Node)
    → has_name name (add_child new n).children ≡ has_name name n.children || str_eq new name
unfolding add_child
has_name-add_child name new n = has_name-append name new n.children

-- Cutting out one name keeps the others.
pub has_name-remove_name :
    (name gone : Text) (xs : List Text)
    → gone ≢ name
    → has_name name (remove_name gone xs) ≡ has_name name xs
unfolding has_name remove_name
has_name-remove_name name gone [] h = refl
has_name-remove_name name gone (x ∷ xs) h =
    ground (arith, has_name-remove_name name gone xs h, str_eq_iff x gone, str_eq_iff x name)

new_store-lookup :
    (now : ℕ) (p : Text) (n : Node)
    → lookup p (new_store now).nodes ≡ some n
    → (p ≡ root) × (n.path ≡ root) × (n.ephemeral ≡ false)
unfolding new_store lookup
new_store-lookup now p n h = ground (arith, str_eq_iff root p)

pub new_store-IsTree : (now : ℕ) → IsTree (new_store now).nodes
new_store-IsTree now = record {
  rooted = λ e. (unfold new_store lookup in ground (arith, str_eq_refl root));
  lasting_root = λ n h. (new_store-lookup now root n h).2;
  normal = λ p n h.
      subst (λ q. normalize_path q ≡ q) (sym (new_store-lookup now p n h).0)
        (normalize_render [] tt);
  named = λ p n h. ground (arith, new_store-lookup now p n h);
  listed = λ p n h ne. absurd (ne (new_store-lookup now p n h).0);
  leaf = λ p n h e. ground (arith, new_store-lookup now p n h);
}
