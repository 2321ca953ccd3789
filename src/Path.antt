-- ===== src/Path.antt =====
-- The paths of internal/store/store.go, with what it uses of Go's packages `path` and `strings`:
-- `path.Clean` (an empty path, rooted and relative ones), `path.Dir`, `path.Base`.
pub mod Segments
pub mod Parents
pub mod Children
use mathlib.Core.List.{reverse}
use sky_lock.Common.{
  ℕ, ◌≡◌, refl, Bool, true, false, ◌&&◌, ◌||◌, List, [], ◌∷◌, ◌++◌, ◌==◌, if◌then◌else◌, Text, text,
  str_eq,
}

abbrev pub slash : ℕ
slash = b'/'

abbrev pub root : Text
root = slash ∷ []

abbrev pub dot : Text
dot = b'.' ∷ []

abbrev pub dot_dot : Text
dot_dot = b'.' ∷ b'.' ∷ []

abbrev pub add_front : ℕ → List Text → List Text
add_front c [] = (c ∷ []) ∷ []
add_front c (s ∷ rest) = (c ∷ s) ∷ rest

-- strings.Split(p, "/"), and by another separator.
unfoldable pub split : ℕ → Text → List Text
split sep [] = [] ∷ []
split sep (c ∷ cs) = if c == sep then [] ∷ split sep cs else add_front c (split sep cs)

-- strings.HasPrefix(s, prefix)
unfoldable pub has_prefix : Text → Text → Bool
has_prefix s [] = true
has_prefix [] (c ∷ cs) = false
has_prefix (d ∷ s) (c ∷ cs) = c == d && has_prefix s cs

-- `..` at the top of the segments read so far.
unfoldable pub pop_segment : Bool → List Text → List Text
pop_segment true [] = []
pop_segment false [] = dot_dot ∷ []
pop_segment rooted (top ∷ rest) = if str_eq top dot_dot then dot_dot ∷ top ∷ rest else rest

unfoldable pub push_segment : Bool → Text → List Text → List Text
unfolding pop_segment
push_segment rooted s stack =
    if str_eq s [] || str_eq s dot
    then stack
    else if str_eq s dot_dot
    then pop_segment rooted stack
    else s ∷ stack

unfoldable pub resolve : Bool → List Text → List Text → List Text
resolve rooted stack [] = reverse stack
resolve rooted stack (s ∷ rest) = resolve rooted (push_segment rooted s stack) rest

unfoldable pub join : List Text → Text
join [] = []
join (s ∷ []) = s
join (s ∷ t ∷ rest) = s ++ slash ∷ join (t ∷ rest)

abbrev or_dot : List Text → Text
or_dot [] = dot
or_dot (s ∷ rest) = join (s ∷ rest)

-- path.Clean
unfoldable pub clean : Text → Text
clean [] = dot
clean (c ∷ cs) =
    if c == slash
    then slash ∷ join (resolve true [] (split slash (c ∷ cs)))
    else or_dot (resolve false [] (split slash (c ∷ cs)))

unfoldable pub has_slash : Text → Bool
has_slash [] = false
has_slash (c ∷ cs) = c == slash || has_slash cs

-- The part up to the last slash, with it.
unfoldable pub dir_part : Text → Text
dir_part [] = []
dir_part (c ∷ cs) = let rest = dir_part cs in if has_slash (c ∷ cs) then c ∷ rest else []

-- path.Dir
unfoldable pub path_dir : Text → Text
unfolding dir_part clean
path_dir p = clean (dir_part p)

-- The last segment that is not empty, or the default.
unfoldable pub last_segment : Text → List Text → Text
last_segment d [] = d
last_segment d (s ∷ rest) = last_segment (if str_eq s [] then d else s) rest

-- path.Base
unfoldable pub path_base : Text → Text
path_base [] = dot
path_base (c ∷ cs) = last_segment root (split slash (c ∷ cs))

unfoldable pub normalize_path : Text → Text
unfolding clean has_prefix
normalize_path [] = root
normalize_path (c ∷ cs) = clean (if has_prefix (c ∷ cs) root then c ∷ cs else slash ∷ c ∷ cs)

unfoldable pub parent_path : Text → Text
unfolding path_dir
parent_path p =
    if str_eq p root
    then []
    else let parent = path_dir p in if str_eq parent dot then root else parent

unfoldable pub base_name : Text → Text
unfolding path_base
base_name p = path_base p

path_examples :
    (normalize_path (text "a//b/../c/.") ≡ text "/a/c")
    × (parent_path (text "/a/c") ≡ text "/a")
    × (base_name (text "/a/c") ≡ text "c")
    × (parent_path (text "/a") ≡ root)
unfolding normalize_path parent_path base_name resolve push_segment split join dir_part has_slash
    has_prefix str_eq last_segment
path_examples = (refl, refl, refl, refl)
