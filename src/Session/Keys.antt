-- ===== src/Session/Keys.antt =====
-- internal/session/manager.go: the keys that a session is registered with.
use sky_lock.Common.{
  ◌≡◌, refl, ◌∙◌, Bool, true, false, ◌||◌, some, List, [], ◌∷◌, ◌++◌, Text, str_eq, str_eq_iff,
  str_eq_refl, put, lookup-put, arith,
}
use sky_lock.Session.{Session, Manager, cut_key, register_ephemeral, unregister_ephemeral, get}

unfoldable pub has_key : Text → List Text → Bool
has_key key [] = false
has_key key (k ∷ rest) = str_eq k key || has_key key rest

cut_key-append :
    (key : Text) (ks : List Text) → has_key key ks ≡ false → cut_key key (ks ++ key ∷ []) ≡ some ks
unfolding has_key cut_key
cut_key-append key [] h = ground (arith, str_eq_refl key)
cut_key-append key (k ∷ ks) h = ground (arith, h, cut_key-append key ks (ground (arith, h)))

register_lem :
    (id key : Text) (s : Session) (m : Manager)
    → get id m ≡ some s
    → (let grown : Session = record s { ephemeral_keys = s.ephemeral_keys ++ key ∷ [] } in
        register_ephemeral id key m ≡ (record m { sessions = put id grown m.sessions }, true))
unfolding register_ephemeral get
register_lem id key s m there = ground (arith, there)

unregister_lem :
    (id key : Text) (s : Session) (ks : List Text) (m : Manager)
    → get id m ≡ some s
    → cut_key key s.ephemeral_keys ≡ some ks
    → (let left : Session = record s { ephemeral_keys = ks } in
        unregister_ephemeral id key m ≡ (record m { sessions = put id left m.sessions }, true))
unfolding unregister_ephemeral get
unregister_lem id key s ks m there cut = ground (arith, there, cut)

-- A key that a session does not have, registered and then unregistered, is among the session's
-- keys in between, both calls succeed, and every session ends with the keys it had.
pub unregister-register :
    (id key other : Text) (s : Session) (m : Manager)
    → get id m ≡ some s
    → has_key key s.ephemeral_keys ≡ false
    → (let (m', registered) = register_ephemeral id key m in
        let (m'', cut) = unregister_ephemeral id key m' in
        (registered ≡ true)
        × (cut ≡ true)
        × (get id m' ≡ some (record s { ephemeral_keys = s.ephemeral_keys ++ key ∷ [] }))
        × (get other m'' ≡ get other m))
unfolding get
unregister-register id key other s m there fresh =
    let grown : Session = record s { ephemeral_keys = s.ephemeral_keys ++ key ∷ [] } in
    let m' : Manager = record m { sessions = put id grown m.sessions } in
    let at : get id m' ≡ some grown =
      lookup-put id id grown m.sessions ∙ rw (str_eq_refl id) refl in
    let cut =
      unregister_lem id key grown s.ephemeral_keys m' at
        (cut_key-append key s.ephemeral_keys fresh) in
    rw (register_lem id key s m there, cut)
      (
        refl,
        refl,
        at,
        ground (
          arith,
          there,
          str_eq_iff id other,
          lookup-put id other s m'.sessions,
          lookup-put id other grown m.sessions,
        ),
      )
