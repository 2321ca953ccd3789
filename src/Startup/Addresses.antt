-- ===== src/Startup/Addresses.antt =====
-- cmd/skylock/main.go, `itoa`: the same digits as `itoa` of internal/store/store.go.
use sky_lock.Common.{ℕ, zero, suc, ◌/◌, ◌%◌, ◌+◌, ◌≡◌, refl, [], ◌∷◌, Text, pos, arith}
use sky_lock.Sequence.{itoa, itoa_loop}
use sky_lock.Startup.{decimal, decimal_loop}

decimal_loop-itoa_loop :
    (fuel n : ℕ) (result : Text) → decimal_loop fuel n result ≡ itoa_loop fuel n result
unfolding decimal_loop itoa_loop
decimal_loop-itoa_loop zero n result = refl
decimal_loop-itoa_loop (suc fuel) n result =
    ground (arith, decimal_loop-itoa_loop fuel (n / 10) ((b'0' + n % 10) ∷ result))

pub decimal-itoa : (n : ℕ) → decimal (pos n) ≡ itoa n
unfolding decimal itoa
decimal-itoa n = ground (arith, decimal_loop-itoa_loop n n [])
