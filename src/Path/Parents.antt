-- ===== src/Path/Parents.antt =====
-- internal/store/store.go: `parentPath` and `baseName` of paths given by their segments.
use mathlib.Core.List.{append-nil, append_assoc}
use sky_lock.Common.{
  ◌≡◌, ◌≢◌, refl, sym, ap, ◌∙◌, true, false, List, [], ◌∷◌, ◌++◌, if◌then◌else◌, Text, str_eq,
  str_eq_iff, str_eq_ne, str_eq_refl, arith,
}
use sky_lock.Path.{
  slash, root, dot, split, push_segment, resolve, clean, has_slash, dir_part, path_dir,
  last_segment, path_base, parent_path, base_name,
}
use sky_lock.Path.Segments.{
  IsProper, AllProper, AllWhole, body, render, segments, split-body, AllProper-AllWhole,
  segments-slash, segments-render, clean_rooted, clean-render, AllProper-append, resolve_proper,
}

-- The path of a child `s` of the node at `ss`.
abbrev pub snoc : List Text → Text → List Text
snoc ss s = ss ++ s ∷ []

pub body-snoc : (ss : List Text) (s : Text) → body (snoc ss s) ≡ body ss ++ slash ∷ s
body-snoc [] s = ap (◌∷◌ slash) (append-nil s)
body-snoc (t ∷ rest) s =
    ap (λ (r : Text). slash ∷ t ++ r) (body-snoc rest s)
    ∙ ap (◌∷◌ slash) (sym (append_assoc t (body rest) (slash ∷ s)))

pub render-snoc : (ss : List Text) (s : Text) → render (snoc ss s) ≡ body ss ++ slash ∷ s
render-snoc [] s = body-snoc [] s
render-snoc (t ∷ rest) s = body-snoc (t ∷ rest) s

dir_part_whole : (s : Text) → has_slash s ≡ false → dir_part s ≡ []
unfolding dir_part has_slash
dir_part_whole [] h = refl
dir_part_whole (c ∷ cs) h = ground arith

has_slash-slash : (x s : Text) → has_slash (x ++ slash ∷ s) ≡ true
unfolding has_slash
has_slash-slash [] s = refl
has_slash-slash (c ∷ x) s = ground (arith, has_slash-slash x s)

dir_part-append : (x s : Text) → has_slash s ≡ false → dir_part (x ++ slash ∷ s) ≡ x ++ slash ∷ []
unfolding dir_part has_slash
dir_part-append [] s h = ground (arith, dir_part_whole s h)
dir_part-append (c ∷ x) s h = ground (arith, dir_part-append x s h, has_slash-slash x s)

resolve_trailing : (stack ss : List Text) → resolve true stack (snoc ss []) ≡ resolve true stack ss
unfolding resolve push_segment
resolve_trailing stack [] = rw (str_eq_refl [])
resolve_trailing stack (s ∷ rest) = resolve_trailing (push_segment true s stack) rest

AllWhole-snoc :
    (ss : List Text) (s : Text) → AllWhole ss → has_slash s ≡ false → AllWhole (snoc ss s)
AllWhole-snoc [] s h w = (w, tt)
AllWhole-snoc (t ∷ rest) s h w = (h.0, AllWhole-snoc rest s h.1 w)

-- A trailing slash is dropped.
clean_trailing : (ss : List Text) → AllProper ss → clean (body ss ++ slash ∷ []) ≡ render ss
clean_trailing [] h = clean-render [] tt
clean_trailing (t ∷ rest) h =
    let w = AllWhole-snoc rest [] (AllProper-AllWhole rest h.1) (unfold has_slash in refl) in
    ap clean (sym (body-snoc (t ∷ rest) []))
    ∙ clean_rooted (t ++ body (snoc rest []))
    ∙ ap render (
        segments-slash (t ++ body (snoc rest []))
        ∙ ap (resolve true []) (split-body t (snoc rest []) h.0.whole w)
        ∙ resolve_trailing [] (t ∷ rest)
        ∙ resolve_proper [] (t ∷ rest) h)

render-ne-dot : (ss : List Text) → render ss ≢ dot
render-ne-dot [] e = ground arith
render-ne-dot (s ∷ rest) e = ground arith

pub render-ne-nil : (ss : List Text) → render ss ≢ []
render-ne-nil [] e = cc
render-ne-nil (s ∷ rest) e = cc

pub has_slash-append :
    (s t : Text) → has_slash s ≡ false → has_slash t ≡ false → has_slash (s ++ t) ≡ false
unfolding has_slash
has_slash-append [] t h k = k
has_slash-append (c ∷ s) t h k = ground (arith, has_slash-append s t)

snoc-ne-nil : (ss : List Text) (s : Text) → snoc ss s ≢ []
snoc-ne-nil [] s e = cc
snoc-ne-nil (t ∷ rest) s e = cc

last_segment-snoc : (d : Text) (ss : List Text) (s : Text) → s ≢ [] → last_segment d (snoc ss s) ≡ s
unfolding last_segment
last_segment-snoc d [] s h = ground (arith, str_eq_iff s [])
last_segment-snoc d (t ∷ rest) s h = last_segment-snoc (if str_eq t [] then d else t) rest s h

split_rooted : (p : Text) → split slash (slash ∷ p) ≡ [] ∷ split slash p
unfolding split
split_rooted p = refl

base_name-body :
    (s : Text) (rest : List Text)
    → has_slash s ≡ false
    → AllWhole rest
    → base_name (slash ∷ s ++ body rest) ≡ last_segment root ([] ∷ s ∷ rest)
unfolding base_name path_base
base_name-body s rest h w =
    ap (last_segment root) (split_rooted (s ++ body rest) ∙ ap (◌∷◌ []) (split-body s rest h w))

base_name_rooted :
    (ss : List Text) (s : Text) → AllProper ss → IsProper s → base_name (render (snoc ss s)) ≡ s
base_name_rooted [] s h last =
    base_name-body s [] last.whole tt ∙ last_segment-snoc root ([] ∷ []) s last.not_empty
base_name_rooted (t ∷ rest) s h last =
    base_name-body t (snoc rest s) h.0.whole
      (AllWhole-snoc rest s (AllProper-AllWhole rest h.1) last.whole)
    ∙ last_segment-snoc root ([] ∷ t ∷ rest) s last.not_empty

module _ (ss : List Text) (s : Text) (proper : AllProper ss) (last : IsProper s) where
  pub AllProper-snoc : AllProper (snoc ss s)
  AllProper-snoc = AllProper-append ss (s ∷ []) proper (last, tt)

  pub render-snoc-ne-root : render (snoc ss s) ≢ root
  render-snoc-ne-root e =
      snoc-ne-nil ss s
        (sym (segments-render (snoc ss s) AllProper-snoc) ∙ ap segments e ∙ segments-render [] tt)

  path_dir-snoc : path_dir (render (snoc ss s)) ≡ render ss
  unfolding path_dir
  path_dir-snoc =
      ap (λ (p : Text). clean (dir_part p)) (render-snoc ss s)
      ∙ ap clean (dir_part-append (body ss) s last.whole)
      ∙ clean_trailing ss proper

  pub parent_path-snoc : parent_path (render (snoc ss s)) ≡ render ss
  unfolding parent_path
  parent_path-snoc =
      let not_root = str_eq_ne (render (snoc ss s)) root render-snoc-ne-root in
      let not_dot = str_eq_ne (render ss) dot (render-ne-dot ss) in
      rw not_root (rw path_dir-snoc (rw not_dot refl))

  pub base_name-snoc : base_name (render (snoc ss s)) ≡ s
  base_name-snoc = base_name_rooted ss s proper last
