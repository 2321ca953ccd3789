-- ===== src/Session/Ttl.antt =====
-- internal/session/manager.go, `Create`: the time to live that a session is given.
use sky_lock.Common.{
  ℕ, ◌≡◌, refl, true, false, Text, lookup-put, str_eq_refl, some, arith, ℤ, pos, negsuc,
}
use sky_lock.Session.{Manager, longer, valid_ttl, create, get}

longer_self : (a : ℤ) → longer a a ≡ false
unfolding longer
longer_self (pos a) = ground arith
longer_self (negsuc a) = ground arith

valid_ttl_lem :
    (m : Manager) (ttl : ℤ)
    → (longer (valid_ttl m ttl) m.max_ttl ≡ false)
      × (longer ttl (pos 0) ≡ true → longer ttl m.max_ttl ≡ false → valid_ttl m ttl ≡ ttl)
      × (longer ttl (pos 0) ≡ false
          → longer m.default_ttl m.max_ttl ≡ false
          → valid_ttl m ttl ≡ m.default_ttl)
unfolding valid_ttl
valid_ttl_lem m ttl = (
  ground (arith, longer_self m.max_ttl),
  λ h k. ground (arith, h, k),
  λ h k. ground (arith, h, k),
)

-- Create returns a session that Get finds under its identifier. Its time to live is at most the
-- maximum; it is the one asked for when that is positive and at most the maximum, and the default
-- when the one asked for is not positive and the default is at most the maximum.
pub create-get :
    (id : Text) (now : ℕ) (client_id : Text) (ttl : ℤ) (m : Manager)
    → (let (m', session) = create id now client_id ttl m in
        (get id m' ≡ some session)
        × (session.id ≡ id)
        × (session.last_heartbeat ≡ now)
        × (longer session.ttl m.max_ttl ≡ false)
        × (longer ttl (pos 0) ≡ true → longer ttl m.max_ttl ≡ false → session.ttl ≡ ttl)
        × (longer ttl (pos 0) ≡ false
            → longer m.default_ttl m.max_ttl ≡ false
            → session.ttl ≡ m.default_ttl))
unfolding create get
create-get id now client_id ttl m = (
  ground (arith, lookup-put id id (create id now client_id ttl m).1 m.sessions, str_eq_refl id),
  refl,
  refl,
  (valid_ttl_lem m ttl).0,
  (valid_ttl_lem m ttl).1,
  (valid_ttl_lem m ttl).2,
)
