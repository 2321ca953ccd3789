-- ===== src/Path/Children.antt =====
-- internal/store/store.go: a normalised path taken apart and put together.
use mathlib.Core.Path.{ap₂}
use mathlib.Core.List.{append_assoc}
use sky_lock.Common.{
  ◌<◌, ◌≡◌, ◌≢◌, refl, sym, ap, ◌∙◌, false, List, [], ◌∷◌, ◌++◌, Text, arith, length, length-append,
}
use sky_lock.Path.{slash, root, split, has_slash, normalize_path, parent_path, base_name}
use sky_lock.Path.Segments.{
  IsProper, AllProper, body, render, segments, segments-render, normalize_path-render,
  normalize_render,
}
use sky_lock.Path.Parents.{
  snoc, body-snoc, render-snoc, has_slash-append, render-ne-nil, AllProper-snoc,
  render-snoc-ne-root, parent_path-snoc, base_name-snoc,
}

-- A normalised path other than the root, taken apart.
pub record Child (p : Text) : Type 0 where
  pub parents : List Text
  pub name : Text
  pub proper : AllProper parents
  pub named : IsProper name
  pub whole : p ≡ render (snoc parents name)

unsnoc :
    (s : Text) (rest : List Text)
    → AllProper (s ∷ rest)
    → (ss : List Text) × (t : Text) × AllProper ss × IsProper t × (s ∷ rest ≡ snoc ss t)
unsnoc s [] h = ([], s, tt, h.0, refl)
unsnoc s (t ∷ rest) h =
    let (ss, u, proper, last, e) = unsnoc t rest h.1 in
    (s ∷ ss, u, (h.0, proper), last, ap (◌∷◌ s) e)

child_of : (p : Text) (ss : List Text) → AllProper ss → p ≡ render ss → p ≢ root → Child p
child_of p [] h e ne = absurd (ne e)
child_of p (s ∷ rest) h e ne =
    let (parents, name, proper, named, split) = unsnoc s rest h in
    record {
      parents = parents;
      name = name;
      proper = proper;
      named = named;
      whole = e ∙ ap render split;
    }

pub Child-normalized : (p : Text) → normalize_path p ≡ p → p ≢ root → Child p
Child-normalized p h ne =
    let (ss, proper, e) = normalize_path-render p in child_of p ss proper (sym h ∙ e) ne

pub parent-Child : {p : Text} (c : Child p) → parent_path p ≡ render c.parents
parent-Child c = ap parent_path c.whole ∙ parent_path-snoc c.parents c.name c.proper c.named

pub base-Child : {p : Text} (c : Child p) → base_name p ≡ c.name
base-Child c = ap base_name c.whole ∙ base_name-snoc c.parents c.name c.proper c.named

render-injective :
    (ss ts : List Text) → AllProper ss → AllProper ts → render ss ≡ render ts → ss ≡ ts
render-injective ss ts h k e = sym (segments-render ss h) ∙ ap segments e ∙ segments-render ts k

-- A node's parent is normalised, and is never the empty path.
pub parent_path-normalized :
    (p : Text)
    → normalize_path p ≡ p
    → p ≢ root
    → (normalize_path (parent_path p) ≡ parent_path p) × (parent_path p ≢ [])
parent_path-normalized p h ne =
    let c = Child-normalized p h ne in
    let e = parent-Child c in
    (
      ap normalize_path e ∙ normalize_render c.parents c.proper ∙ sym e,
      λ empty. render-ne-nil c.parents (sym e ∙ empty),
    )

-- Two normalised paths other than the root with the same parent and the same base name are the
-- same path.
pub parent_base-injective :
    (p q : Text)
    → normalize_path p ≡ p
    → normalize_path q ≡ q
    → p ≢ root
    → q ≢ root
    → parent_path p ≡ parent_path q
    → base_name p ≡ base_name q
    → p ≡ q
parent_base-injective p q hp hq np nq parents bases =
    let c = Child-normalized p hp np in
    let d = Child-normalized q hq nq in
    let same_parents =
      render-injective c.parents d.parents c.proper d.proper
        (sym (parent-Child c) ∙ parents ∙ parent-Child d) in
    let same_name = sym (base-Child c) ∙ bases ∙ base-Child d in
    c.whole ∙ ap₂ (λ ss s. render (snoc ss s)) same_parents same_name ∙ sym d.whole

-- Text without a slash behind a node's path makes the path of a sibling, if it is long enough not to
-- make `.` or `..` of the name.
pub IsProper-append :
    (s t : Text) → IsProper s → has_slash t ≡ false → 2 < length t → IsProper (s ++ t)
IsProper-append s t h w long = record {
  whole = has_slash-append s t h.whole w;
  not_empty = λ e. absurd (omega (arith, ap length e, length-append s t));
  not_dot = λ e. absurd (omega (arith, ap length e, length-append s t));
  not_dot_dot = λ e. absurd (omega (arith, ap length e, length-append s t));
}

Child-append :
    {p : Text} (c : Child p) (t : Text) → has_slash t ≡ false → 2 < length t → Child (p ++ t)
Child-append c t w long = record {
  parents = c.parents;
  name = c.name ++ t;
  proper = c.proper;
  named = IsProper-append c.name t c.named w long;
  whole =
      ap (λ (r : Text). r ++ t) (c.whole ∙ render-snoc c.parents c.name)
      ∙ append_assoc (body c.parents) (slash ∷ c.name) t
      ∙ sym (render-snoc c.parents (c.name ++ t));
}

pub suffixed_path :
    (p t : Text)
    → normalize_path p ≡ p
    → p ≢ root
    → has_slash t ≡ false
    → 2 < length t
    → (normalize_path (p ++ t) ≡ p ++ t)
      × (parent_path (p ++ t) ≡ parent_path p)
      × (base_name (p ++ t) ≡ base_name p ++ t)
      × (p ++ t ≢ root)
unfolding Child-append
suffixed_path p t h ne w long =
    let c = Child-normalized p h ne in
    let d = Child-append c t w long in
    let proper = AllProper-snoc d.parents d.name d.proper d.named in
    (
      ap normalize_path d.whole ∙ normalize_render (snoc d.parents d.name) proper ∙ sym d.whole,
      parent-Child d ∙ sym (parent-Child c),
      base-Child d ∙ ap (λ (r : Text). r ++ t) (sym (base-Child c)),
      λ e. render-snoc-ne-root d.parents d.name d.proper d.named (sym d.whole ∙ e),
    )

below_path : (p s : Text) (c : Child p) → IsProper s → Child (p ++ slash ∷ s)
below_path p s c last = record {
  parents = snoc c.parents c.name;
  name = s;
  proper = AllProper-snoc c.parents c.name c.proper c.named;
  named = last;
  whole =
      let whole : p ≡ body (snoc c.parents c.name) =
        c.whole ∙ render-snoc c.parents c.name ∙ sym (body-snoc c.parents c.name) in
      ap (λ (r : Text). r ++ slash ∷ s) whole ∙ sym (render-snoc (snoc c.parents c.name) s);
}

-- The path of a child of a node other than the root.
pub child_path :
    (p s : Text)
    → normalize_path p ≡ p
    → p ≢ root
    → IsProper s
    → (normalize_path (p ++ slash ∷ s) ≡ p ++ slash ∷ s)
      × (parent_path (p ++ slash ∷ s) ≡ p)
      × (base_name (p ++ slash ∷ s) ≡ s)
      × (p ++ slash ∷ s ≢ root)
unfolding below_path
child_path p s h ne last =
    let c = Child-normalized p h ne in
    let d = below_path p s c last in
    let proper = AllProper-snoc d.parents d.name d.proper d.named in
    (
      ap normalize_path d.whole ∙ normalize_render (snoc d.parents d.name) proper ∙ sym d.whole,
      parent-Child d ∙ sym c.whole,
      base-Child d,
      λ e. render-snoc-ne-root d.parents d.name d.proper d.named (sym d.whole ∙ e),
    )
