-- ===== src/Transport/Connections.antt =====
-- internal/transport/grpc.go: `getConnection` and the connections that are kept.
use sky_lock.Common.{
  ◌≡◌, ◌≢◌, refl, sym, ap, ◌∙◌, none, some, Text, text, ◌++◌, str_eq_refl, str_eq_ne, lookup, put,
  lookup-put, Option_elim, Result, ok, err, arith,
}
use sky_lock.Transport.{Transport, get_connection}

module _ {ℓ} {C : Type ℓ} (dial dial' : Text → Result Text C) (target : Text)
    (t : Transport C) where
  -- Once there is a connection it is used again, whatever grpc.Dial would do, and the connections to
  -- other peers stay.
  abbrev Kept : Transport C × Result Text C → Type ℓ
  Kept (t', r) =
      (conn : C)
      → r ≡ ok conn
      → (get_connection dial' target t' ≡ (t', ok conn))
        × ((p : Text) → p ≢ target → lookup p t'.connections ≡ lookup p t.connections)

  dialled :
      (r : Result Text C)
      → lookup target t.connections ≡ none
      → Kept (elim r [
        | err e ↦ (t, err (text "failed to connect to " ++ target ++ text ": " ++ e))
        | ok conn ↦ (record t { connections = put target conn t.connections }, ok conn)
      ])
  unfolding get_connection
  dialled (err e) missing conn e' = absurd (ground (arith, e'))
  dialled (ok c) missing conn e =
      let t' : Transport C = record t { connections = put target c t.connections } in
      let found : lookup target t'.connections ≡ some c =
        lookup-put target target c t.connections ∙ rw (str_eq_refl target) refl in
      (
        rw (found, get_connection) (ap (λ (r : Result Text C). (t', r)) e),
        λ p other.
            lookup-put target p c t.connections ∙ rw (str_eq_ne target p (λ e. other (sym e))) refl,
      )

  get_connection_lem : Kept (get_connection dial target t)
  unfolding get_connection
  get_connection_lem =
      Option_elim Kept (lookup target t.connections) _ (λ conn. (t, ok conn))
        (dialled (dial target))
        (λ c at conn e.
          (rw (at, get_connection) (ap (λ (r : Result Text C). (t, r)) e), λ p other. refl))
