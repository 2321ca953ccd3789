-- ===== src/Common/Assoc.antt =====
-- A Go map with string keys as an association list. Nothing depends on the order of its entries but
-- a `range` loop, which Go runs in any order.
use mathlib.Core.Path.{◌≡◌, refl}
use mathlib.Core.List.{List, [], ◌∷◌}
use mathlib.Core.Option.{Option, none, some}
use native.Mathlib.Omega.{arith}
use sky_lock.Common.Tests.{if◌then◌else◌, if_elim}
use sky_lock.Common.Strings.{Text, str_eq, str_eq_iff}

abbrev pub Map {ℓ} : Type ℓ → Type ℓ
Map V = List (Text × V)

module _ {ℓ} {V : Type ℓ} where
  -- v, ok := m[k]
  unfoldable pub lookup : Text → Map V → Option V
  lookup k [] = none
  lookup k ((j, v) ∷ m) = if str_eq j k then some v else lookup k m

  -- m[k] = v
  unfoldable pub put : Text → V → Map V → Map V
  put k v [] = (k, v) ∷ []
  put k v ((j, w) ∷ m) = if str_eq j k then (k, v) ∷ m else (j, w) ∷ put k v m

  -- delete(m, k)
  unfoldable pub delete : Text → Map V → Map V
  delete k [] = []
  delete k ((j, w) ∷ m) = let rest = delete k m in if str_eq j k then rest else (j, w) ∷ rest

  pub lookup-put :
      (k j : Text) (v : V) (m : Map V)
      → lookup j (put k v m) ≡ (if str_eq k j then some v else lookup j m)
  unfolding lookup put
  lookup-put k j v [] = refl
  lookup-put k j v ((i, w) ∷ m) =
      ground (arith, str_eq_iff i k, str_eq_iff i j, str_eq_iff k j, lookup-put k j v m)

  pub lookup-delete :
      (k j : Text) (m : Map V) → lookup j (delete k m) ≡ (if str_eq k j then none else lookup j m)
  unfolding lookup delete
  lookup-delete k j [] = ground arith
  lookup-delete k j ((i, w) ∷ m) =
      ground (arith, str_eq_iff i k, str_eq_iff i j, str_eq_iff k j, lookup-delete k j m)

  -- A Go map has one entry for a key.
  unfoldable pub IsFlat : Map V → Type ℓ
  IsFlat [] = Unit
  IsFlat ((k, v) ∷ rest) = (lookup k rest ≡ none) × IsFlat rest

  pub put-IsFlat : (p : Text) (v : V) (m : Map V) → IsFlat m → IsFlat (put p v m)
  unfolding IsFlat put lookup
  put-IsFlat p v [] flat = (refl, tt)
  put-IsFlat p v ((q, k) ∷ m) flat =
      if_elim IsFlat (str_eq q p) ((p, v) ∷ m) ((q, k) ∷ put p v m)
        (λ same. ground (arith, str_eq_iff q p, flat))
        (λ other. (
          ground (arith, flat, other, lookup-put p q v m, str_eq_iff q p, str_eq_iff p q),
          put-IsFlat p v m flat.1,
        ))

  pub delete-IsFlat : (p : Text) (m : Map V) → IsFlat m → IsFlat (delete p m)
  unfolding IsFlat delete lookup
  delete-IsFlat p [] flat = tt
  delete-IsFlat p ((q, k) ∷ m) flat =
      if_elim IsFlat (str_eq q p) (delete p m) ((q, k) ∷ delete p m)
        (λ same. delete-IsFlat p m flat.1)
        (λ other. (ground (arith, flat, lookup-delete p q m), delete-IsFlat p m flat.1))
