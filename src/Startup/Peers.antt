-- ===== src/Startup/Peers.antt =====
-- cmd/skylock/main.go, `splitPeers`: names put together with commas.
use mathlib.Core.List.{append_assoc, append-nil}
use sky_lock.Common.{
  ◌≡◌, ◌≢◌, refl, sym, ap, ◌∙◌, false, ◌||◌, ◌==◌, Bool, List, [], ◌∷◌, ◌++◌, Text, str_eq_ne,
  str_eq_refl, arith,
}
use sky_lock.Startup.{collect, split_peers}

unfoldable pub has_comma : Text → Bool
has_comma [] = false
has_comma (c ∷ cs) = c == b',' || has_comma cs

-- A name that stands between commas.
abbrev pub IsName : Text → Type 0
IsName s = (s ≢ []) × (has_comma s ≡ false)

abbrev pub AllNames : List Text → Type 0
AllNames [] = Unit
AllNames (s ∷ rest) = IsName s × AllNames rest

-- The names with a comma between them, as an operator writes them.
abbrev pub join_names : Text → List Text → Text
join_names s [] = s
join_names s (t ∷ rest) = s ++ b',' ∷ join_names t rest

abbrev pub join_peers : List Text → Text
join_peers [] = []
join_peers (s ∷ rest) = join_names s rest

collect-append :
    (s current rest : Text) (result : List Text)
    → has_comma s ≡ false
    → collect current result (s ++ rest) ≡ collect (current ++ s) result rest
unfolding collect has_comma
collect-append [] current rest result h = ap (λ c. collect c result rest) (sym (append-nil current))
collect-append (c ∷ s) current rest result h =
    let ih = collect-append s (current ++ c ∷ []) rest result in
    let joined = append_assoc current (c ∷ []) s in ground (arith, h, ih, joined)

collect-join_names :
    (s : Text) (rest : List Text) (result : List Text)
    → IsName s
    → AllNames rest
    → collect [] result (join_names s rest) ≡ result ++ s ∷ rest
unfolding collect
collect-join_names s [] result (not_empty, plain) h =
    ap (collect [] result) (sym (append-nil s))
    ∙ collect-append s [] [] result plain
    ∙ rw (str_eq_ne s [] not_empty) refl
collect-join_names s (t ∷ rest) result (not_empty, plain) (named, h) =
    collect-append s [] (b',' ∷ join_names t rest) result plain
    ∙ rw (str_eq_ne s [] not_empty) (collect-join_names t rest (result ++ s ∷ []) named h)
    ∙ append_assoc result (s ∷ []) (t ∷ rest)

join_names-ne : (s : Text) (rest : List Text) → s ≢ [] → join_names s rest ≢ []
join_names-ne s [] h e = h e
join_names-ne [] (t ∷ rest) h e = h refl
join_names-ne (c ∷ s) (t ∷ rest) h e = ground (arith, e)

-- Names of valid UTF-8 that are not empty and have no comma, put together with commas between
-- them, are read back by splitPeers in their order.
pub split_peers-join_peers :
    (names : List Text) → AllNames names → split_peers (join_peers names) ≡ names
unfolding split_peers
split_peers-join_peers [] h = rw (str_eq_refl []) refl
split_peers-join_peers (s ∷ rest) (named, h) =
    rw (str_eq_ne (join_names s rest) [] (join_names-ne s rest named.0))
      (collect-join_names s rest [] named h)
