-- ===== src/Path/Segments.antt =====
-- The paths of internal/store/store.go as lists of segments: what `path.Clean` makes of a rooted path.
use mathlib.Core.List.{reverse, reverse-cons, append-nil, append_assoc}
use sky_lock.Common.{
  ℕ, ◌≡◌, ◌≢◌, refl, sym, ap, subst, ◌∙◌, inl, inr, true, false, List, [], ◌∷◌, ◌++◌, ◌==◌,
  if◌then◌else◌, Bool-cases, Text, str_eq_iff, str_eq_refl, arith,
}
use sky_lock.Path.{
  slash, root, dot, dot_dot, add_front, split, has_prefix, pop_segment, push_segment, resolve, join,
  clean, has_slash, normalize_path,
}

-- A segment that `path.Clean` keeps.
pub record IsProper (s : Text) : Type 0 where
  pub whole : has_slash s ≡ false
  pub not_empty : s ≢ []
  pub not_dot : s ≢ dot
  pub not_dot_dot : s ≢ dot_dot

abbrev pub AllProper : List Text → Type 0
AllProper [] = Unit {0}
AllProper (s ∷ rest) = IsProper s × AllProper rest

abbrev pub AllWhole : List Text → Type 0
AllWhole [] = Unit {0}
AllWhole (s ∷ rest) = (has_slash s ≡ false) × AllWhole rest

AllWhole-add_front :
    (c : ℕ) (segments : List Text)
    → (c == slash) ≡ false
    → AllWhole segments
    → AllWhole (add_front c segments)
unfolding has_slash
AllWhole-add_front c [] h w = ground arith
AllWhole-add_front c (s ∷ rest) h w = ground arith

split-AllWhole : (p : Text) → AllWhole (split slash p)
unfolding split has_slash
split-AllWhole [] = (refl, tt)
split-AllWhole (c ∷ cs) = elim (Bool-cases (c == slash)) [
  | inl here ↦ rw here (refl, split-AllWhole cs)
  | inr no_slash ↦ rw no_slash (AllWhole-add_front c (split slash cs) no_slash (split-AllWhole cs))
]

pop-AllProper : (stack : List Text) → AllProper stack → AllProper (pop_segment true stack)
unfolding pop_segment
pop-AllProper [] h = tt
pop-AllProper (top ∷ rest) h = ground (arith, str_eq_iff top dot_dot)

push-AllProper :
    (s : Text) (stack : List Text)
    → has_slash s ≡ false
    → AllProper stack
    → AllProper (push_segment true s stack)
unfolding push_segment
push-AllProper s stack w h =
    ground (arith, str_eq_iff s [], str_eq_iff s dot, str_eq_iff s dot_dot, pop-AllProper stack h)

pub AllProper-append : (xs ys : List Text) → AllProper xs → AllProper ys → AllProper (xs ++ ys)
AllProper-append [] ys h k = k
AllProper-append (x ∷ xs) ys h k = (h.0, AllProper-append xs ys h.1 k)

AllProper-reverse : (xs : List Text) → AllProper xs → AllProper (reverse xs)
AllProper-reverse [] h = tt
AllProper-reverse (x ∷ xs) h =
    subst AllProper (sym (reverse-cons x xs))
      (AllProper-append (reverse xs) (x ∷ []) (AllProper-reverse xs h.1) (h.0, tt))

resolve-AllProper :
    (stack segments : List Text)
    → AllProper stack
    → AllWhole segments
    → AllProper (resolve true stack segments)
unfolding resolve
resolve-AllProper stack [] h w = AllProper-reverse stack h
resolve-AllProper stack (s ∷ rest) h w =
    resolve-AllProper (push_segment true s stack) rest (push-AllProper s stack w.0 h) w.1

-- Proper segments are pushed as they are.
push_proper : (s : Text) (stack : List Text) → IsProper s → push_segment true s stack ≡ s ∷ stack
unfolding push_segment
push_proper s stack h = ground (
  arith,
  str_eq_iff s [],
  str_eq_iff s dot,
  str_eq_iff s dot_dot,
  h.not_empty,
  h.not_dot,
  h.not_dot_dot,
)

pub resolve_proper :
    (stack segments : List Text)
    → AllProper segments
    → resolve true stack segments ≡ reverse stack ++ segments
unfolding resolve
resolve_proper stack [] h = sym (append-nil (reverse stack))
resolve_proper stack (s ∷ rest) h = rw (push_proper s stack h.0) (
    resolve_proper (s ∷ stack) rest h.1
    ∙ ap (λ (r : List Text). r ++ rest) (reverse-cons s stack)
    ∙ append_assoc (reverse stack) (s ∷ []) rest)

-- A rooted path from its segments.
abbrev pub body : List Text → Text
body [] = []
body (s ∷ rest) = slash ∷ s ++ body rest

abbrev pub render : List Text → Text
render [] = root
render (s ∷ rest) = body (s ∷ rest)

body-join : (s : Text) (rest : List Text) → slash ∷ join (s ∷ rest) ≡ body (s ∷ rest)
unfolding join
body-join s [] = ap (◌∷◌ slash) (sym (append-nil s))
body-join s (t ∷ rest) = ap (λ (r : Text). slash ∷ s ++ r) (body-join t rest)

render-join : (segments : List Text) → slash ∷ join segments ≡ render segments
unfolding join
render-join [] = refl
render-join (s ∷ rest) = body-join s rest

-- The text before a slash, or the whole text, is the first piece.
split-append :
    (s rest : Text) → has_slash s ≡ false → split slash (s ++ slash ∷ rest) ≡ s ∷ split slash rest
unfolding split has_slash
split-append [] rest h = refl
split-append (c ∷ cs) rest h = ground (arith, split-append cs rest)

split_whole : (s : Text) → has_slash s ≡ false → split slash s ≡ s ∷ []
unfolding split has_slash
split_whole [] h = refl
split_whole (c ∷ cs) h = ground (arith, split_whole cs)

pub split-body :
    (s : Text) (rest : List Text)
    → has_slash s ≡ false
    → AllWhole rest
    → split slash (s ++ body rest) ≡ s ∷ rest
split-body s [] h p = rw (append-nil s) (split_whole s h)
split-body s (t ∷ rest) h p =
    split-append s (t ++ body rest) h ∙ ap (◌∷◌ s) (split-body t rest p.0 p.1)

abbrev pub segments : Text → List Text
segments p = resolve true [] (split slash p)

pub segments-AllProper : (p : Text) → AllProper (segments p)
segments-AllProper p = resolve-AllProper [] (split slash p) tt (split-AllWhole p)

-- A segment that is empty is skipped.
pub segments-slash : (p : Text) → segments (slash ∷ p) ≡ segments p
unfolding split resolve push_segment
segments-slash p = rw (str_eq_refl [])

pub AllProper-AllWhole : (ss : List Text) → AllProper ss → AllWhole ss
AllProper-AllWhole [] h = tt
AllProper-AllWhole (s ∷ rest) h = (h.0.whole, AllProper-AllWhole rest h.1)

segments_nil : segments [] ≡ []
unfolding split resolve push_segment
segments_nil = rw (str_eq_refl [])

pub segments-render : (ss : List Text) → AllProper ss → segments (render ss) ≡ ss
segments-render [] h = segments-slash [] ∙ segments_nil
segments-render (s ∷ rest) h =
    segments-slash (s ++ body rest)
    ∙ ap (resolve true []) (split-body s rest h.0.whole (AllProper-AllWhole rest h.1))
    ∙ resolve_proper [] (s ∷ rest) h

pub clean_rooted : (p : Text) → clean (slash ∷ p) ≡ render (segments (slash ∷ p))
unfolding clean
clean_rooted p = render-join (segments (slash ∷ p))

pub clean-render : (ss : List Text) → AllProper ss → clean (render ss) ≡ render ss
clean-render [] h = clean_rooted [] ∙ ap render (segments-render [] tt)
clean-render (s ∷ rest) h = clean_rooted (s ++ body rest) ∙ ap render (segments-render (s ∷ rest) h)

normalize_rooted : (p : Text) → normalize_path (slash ∷ p) ≡ clean (slash ∷ p)
unfolding normalize_path has_prefix
normalize_rooted p = refl

normalize_relative :
    (c : ℕ) (p : Text) → (c == slash) ≡ false → normalize_path (c ∷ p) ≡ clean (slash ∷ c ∷ p)
unfolding normalize_path has_prefix
normalize_relative c p h =
    let rooted : (if has_prefix (c ∷ p) root then c ∷ p else slash ∷ c ∷ p) ≡ slash ∷ c ∷ p =
      ground arith in
    ap clean rooted

-- Every normalised path is `/` or a sequence of proper segments, each behind a slash.
pub normalize_path-render :
    (p : Text) → (ss : List Text) × AllProper ss × (normalize_path p ≡ render ss)
unfolding normalize_path
normalize_path-render [] = ([], tt, refl)
normalize_path-render (c ∷ cs) = elim (Bool-cases (c == slash)) [
  | inl rooted ↦
      let e : slash ≡ c = ground arith in
      (
        segments (slash ∷ cs),
        segments-AllProper (slash ∷ cs),
        subst (λ d. normalize_path (d ∷ cs) ≡ render (segments (slash ∷ cs))) e
            (normalize_rooted cs ∙ clean_rooted cs),
      )
  | inr relative ↦ (
    segments (slash ∷ c ∷ cs),
    segments-AllProper (slash ∷ c ∷ cs),
    normalize_relative c cs relative ∙ clean_rooted (c ∷ cs),
  )
]

pub normalize_render : (ss : List Text) → AllProper ss → normalize_path (render ss) ≡ render ss
normalize_render [] h = normalize_rooted [] ∙ clean-render [] h
normalize_render (s ∷ rest) h = normalize_rooted (s ++ body rest) ∙ clean-render (s ∷ rest) h

-- Normalising a path twice is normalising it once.
pub normalize_path_idempotent : (p : Text) → normalize_path (normalize_path p) ≡ normalize_path p
normalize_path_idempotent p =
    let (ss, proper, e) = normalize_path-render p in
    ap normalize_path e ∙ normalize_render ss proper ∙ sym e
