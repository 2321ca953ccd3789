-- ===== src/Api/Version.antt =====
-- internal/api/server.go, `deleteNode`: the expected version of a request.
use sky_lock.Common.{
  ℕ, zero, suc, ◌+◌, ◌-◌, ◌*◌, ◌^◌, ◌≤◌, ◌<◌, u64, ◌≡◌, ◌≢◌, refl, [], ◌∷◌, length, Text, str_eq_ne,
  str_eq_refl, negsuc, arith,
}
use sky_lock.Store
use sky_lock.Wiring.{System}
use sky_lock.Api.{bits, signed, read_version, parse_version, request_path, delete_node}

-- Decimal digits only.
abbrev pub AllDigits : Text → Type 0
AllDigits [] = Unit {0}
AllDigits (c ∷ cs) = (b'0' ≤ c) × (c < b'0' + 10) × AllDigits cs

-- The int64 is -k, for a k from 1 to the bound.
abbrev Negative : ℕ → ℕ → Type 0
Negative bound version = (version < 2 ^ 64) × (2 ^ 64 ≤ version + bound)

-- n more digits.
grow : ℕ → ℕ → ℕ
grow bound zero = bound
grow bound (suc n) = grow (bound * 10) n

le-grow : (bound n : ℕ) → bound ≤ grow bound n
unfolding grow
le-grow bound zero = omega arith
le-grow bound (suc n) = omega (arith, le-grow (bound * 10) n)

grow_mono : (bound n m : ℕ) → n ≤ m → grow bound n ≤ grow bound m
unfolding grow
grow_mono bound zero m h = le-grow bound m
grow_mono bound (suc n) zero h = absurd (omega (arith, h))
grow_mono bound (suc n) (suc m) h = grow_mono (bound * 10) n m (omega (arith, h))

digit_Negative :
    (bound version c : ℕ)
    → b'0' ≤ c
    → c < b'0' + 10
    → bound * 10 < 2 ^ 63
    → Negative bound version
    → Negative (bound * 10) (u64 (version * 10 + u64 (c + 2 ^ 64 - b'0')))
digit_Negative bound version c low high small neg = omega (arith, low, high, small, neg.0, neg.1)

read_version-Negative :
    (bound version : ℕ) (s : Text)
    → AllDigits s
    → grow bound (length s) < 2 ^ 63
    → Negative bound version
    → Negative (grow bound (length s)) (read_version version s)
unfolding read_version grow
read_version-Negative bound version [] digits small neg = neg
read_version-Negative bound version (c ∷ cs) (low, high, digits) small neg =
    let next =
      digit_Negative bound version c low high
        (omega (arith, small, le-grow (bound * 10) (length cs))) neg in
    read_version-Negative (bound * 10) _ cs digits small next

ten_to_18 : grow 1 18 < 2 ^ 63
unfolding grow
ten_to_18 = omega arith

signed-Negative :
    (bound version : ℕ)
    → bound < 2 ^ 63
    → Negative bound version
    → (k : ℕ) × (signed version ≡ negsuc k)
unfolding signed
signed-Negative bound version small (low, high) =
    (2 ^ 64 - 1 - version, ground (arith, small, low, high))

-- Whatever number is asked for, the loop reads a negative one.
parse_version_negative :
    (s : Text) → s ≢ [] → AllDigits s → length s ≤ 18 → (k : ℕ) × (parse_version s ≡ negsuc k)
unfolding parse_version bits
parse_version_negative s named digits short =
    let small : grow 1 (length s) < 2 ^ 63 =
      omega (arith, ten_to_18, grow_mono 1 (length s) 18 short) in
    let (k, e) = signed-Negative (grow 1 (length s)) _ small (
      read_version-Negative 1 (bits (negsuc 0)) s digits small
        (unfold bits in (omega arith, omega arith))) in
    (k, rw (str_eq_ne s [] named) e)

any_negative :
    (path : Text) (k : ℕ) (s : Store.Store)
    → Store.delete_node path (negsuc k) s ≡ Store.delete_node path (negsuc 0) s
unfolding Store.delete_node Store.version_conflict
any_negative path k s = refl

parse_nothing : parse_version [] ≡ negsuc 0
unfolding parse_version
parse_nothing = rw (str_eq_refl []) refl

-- The handler looks at the version only through the store's method.
delete_node-same :
    (star v w : Text) (y : System)
    → Store.delete_node (request_path star) (parse_version v) y.store
      ≡ Store.delete_node (request_path star) (parse_version w) y.store
    → delete_node star v y ≡ delete_node star w y
unfolding delete_node
delete_node-same star v w y e = ground (arith, e)

-- A delete request with a version of at most 18 decimal digits does what the same request does
-- without a version, whatever the node's version is: the expected version is never compared.
pub delete_ignores_version :
    (star version : Text) (y : System)
    → AllDigits version
    → length version ≤ 18
    → delete_node star version y ≡ delete_node star [] y
delete_ignores_version star [] y digits short = refl
delete_ignores_version star (c ∷ cs) y digits short =
    let (k, e) = parse_version_negative (c ∷ cs) (λ e. ground (arith, e)) digits short in
    delete_node-same star (c ∷ cs) [] y
      (rw (e, parse_nothing) (any_negative (request_path star) k y.store))
