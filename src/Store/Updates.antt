-- ===== src/Store/Updates.antt =====
-- internal/store/store.go: `Set` and `Delete` over what the store holds, with the expected version.
use sky_lock.Common.{
  ℕ, ◌+◌, u64, if_elim, Option_elim, ◌≡◌, ◌≢◌, refl, ap, inl, inr, false, Option, none, some, ◌⊎◌,
  true, pos, negsuc, List, [], ◌∷◌, Text, str_eq, str_eq_iff, lookup, arith, if◌then◌else◌, Result,
  ok, err, ℤ, ltb, length,
}
use sky_lock.Path.{root, normalize_path}
use sky_lock.Store.Types.{
  StoreError, Node, Store, Calls, version_mismatch, not_empty, root_deletion,
}
use sky_lock.Store.Writes.{version_conflict, set_payload, set, delete_node}
use sky_lock.Store.Contents.{Content, content, content_of, at, at-put, at-unlink}

-- An expected version is met by the same version, a negative one by every version.
abbrev pub Meets : ℤ → ℕ → Type 0
Meets (negsuc _) version = Unit
Meets (pos expected) version = expected ≡ version

version_conflict-Meets :
    (expected : ℤ) (version : ℕ)
    → version_conflict expected version ≡ false
    → Meets expected version
unfolding version_conflict
version_conflict-Meets (negsuc _) version h = tt
version_conflict-Meets (pos expected) version h = ground (arith, h)

version_conflict-not_Meets :
    (expected : ℤ) (version : ℕ)
    → version_conflict expected version ≡ true
    → ¬ Meets expected version
unfolding version_conflict
version_conflict-not_Meets (negsuc _) version h = absurd (ground (arith, h))
version_conflict-not_Meets (pos expected) version h = λ e. ground (arith, h, e)

-- What `Set` should do, from what is held at the path.
abbrev pub SetEffect :
    List ℕ → ℤ → Text → Text → Store → Store × Calls × Result StoreError Node → Type 0
SetEffect payload expected path q s (s', calls, err e) =
    (s' ≡ s)
    × (calls ≡ [])
    × ((at path s.nodes ≡ none)
        ⊎ (before : Content) × (at path s.nodes ≡ some before) × (¬ Meets expected before.version))
SetEffect payload expected path q s (s', calls, ok n) =
    (before : Content) × (at path s.nodes ≡ some before)
    × Meets expected before.version
    × (content_of n ≡ record before { payload = payload; version = u64 (before.version + 1) })
    × (at q s'.nodes ≡ (if str_eq path q then some (content_of n) else at q s.nodes))

-- Set succeeds only over a node whose version is the expected one, or any if that is negative: the
-- path then holds the new payload under the next version, with its kind and its session as before,
-- and what is held at every other path stays. It returns an error only when the path holds nothing
-- or a node of another version than the expected one, and then the whole store is as it was and no
-- callback is called.
pub set_lem :
    (now : ℕ) (node_path : Text) (payload : List ℕ) (expected : ℤ) (q : Text) (s : Store)
    → SetEffect payload expected
        (normalize_path node_path)
        q
        s
        (set now node_path payload expected s)
unfolding set set_payload
set_lem now node_path payload expected q s =
    let path = normalize_path node_path in
    let Effect = SetEffect payload expected path q s in
    Option_elim Effect (lookup path s.nodes) _ _ (λ missing. (refl, refl, inl (ap content missing)))
      (λ n there.
        if_elim Effect (version_conflict expected n.version) (s, [], err version_mismatch) _
          (λ stale. (
            refl,
            refl,
            inr (
              content_of n,
              ap content there,
              version_conflict-not_Meets expected n.version stale,
            ),
          ))
          (λ fits. (
            content_of n,
            ap content there,
            version_conflict-Meets expected n.version fits,
            refl,
            at-put q path _ s.nodes,
          )))

-- Why `Delete` returns an error, from the path and the store.
abbrev pub CannotDelete : ℤ → Text → Store → Type 0
CannotDelete expected path s =
    (path ≡ root)
    ⊎ (lookup path s.nodes ≡ none)
    ⊎ (before : Node) × (lookup path s.nodes ≡ some before)
      × ((¬ Meets expected before.version) ⊎ (before.children ≢ []))

-- What `Delete` does to the contents.
abbrev pub DeleteEffect : ℤ → Text → Text → Store → Store × Calls × Option StoreError → Type 0
DeleteEffect expected path q s (s', calls, some e) =
    (s' ≡ s) × (calls ≡ []) × CannotDelete expected path s
DeleteEffect expected path q s (s', calls, none) =
    (path ≢ root)
    × (before : Node) × (lookup path s.nodes ≡ some before)
    × Meets expected before.version
    × (before.children ≡ [])
    × (at q s'.nodes ≡ (if str_eq path q then none else at q s.nodes))

length-none : (xs : List Text) → ltb 0 (length xs) ≡ false → xs ≡ []
length-none [] h = refl
length-none (x ∷ xs) h = ground arith

length-some : (xs : List Text) → ltb 0 (length xs) ≡ true → xs ≢ []
length-some [] h e = ground (arith, h)
length-some (x ∷ xs) h e = ground (arith, e)

-- Delete succeeds only on a node other than the root that has no children and whose version is the
-- expected one, or any if that is negative: its path is then free and what is held at the other
-- paths stays. It returns an error only for the root, for a path that holds nothing, and for a
-- node of another version or with children, and then the whole store is as it was and no callback
-- is called.
pub delete_node_lem :
    (node_path : Text) (expected : ℤ) (q : Text) (s : Store)
    → DeleteEffect expected (normalize_path node_path) q s (delete_node node_path expected s)
unfolding delete_node
delete_node_lem node_path expected q s =
    let path = normalize_path node_path in
    let Effect = DeleteEffect expected path q s in
    if_elim Effect (str_eq path root) (s, [], some root_deletion) _
      (λ at_root. (refl, refl, inl ((str_eq_iff path root).0 at_root)))
      (λ below.
        Option_elim Effect (lookup path s.nodes) _ _ (λ missing. (refl, refl, inr (inl missing)))
          (λ n there.
            if_elim Effect (version_conflict expected n.version) (s, [], some version_mismatch) _
              (λ stale. (
                refl,
                refl,
                inr (inr (n, there, inl (version_conflict-not_Meets expected n.version stale))),
              ))
              (λ fits.
                if_elim Effect (ltb 0 (length n.children)) (s, [], some not_empty) _
                  (λ full. (refl, refl, inr (inr (n, there, inr (length-some n.children full)))))
                  (λ empty. (
                    (λ e. ground (arith, below, str_eq_iff path root, e)),
                    n,
                    there,
                    version_conflict-Meets expected n.version fits,
                    length-none n.children empty,
                    at-unlink q path s.nodes,
                  )))))
