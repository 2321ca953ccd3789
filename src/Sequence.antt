-- ===== src/Sequence.antt =====
-- The sequence numbers in names: `formatSequence`, `itoa` and `padLeft` of internal/store/store.go, and
-- the loop of `TryLock` in internal/lock/manager.go that reads the number back.
pub mod Digits
pub mod Order
use sky_lock.Common.{
  ℕ, zero, suc, ◌+◌, ◌-◌, ◌*◌, ◌/◌, ◌%◌, ◌^◌, ◌≡◌, refl, Bool, true, false, List, [], ◌∷◌, ◌++◌,
  leb, ◌==◌, if◌then◌else◌, length, drop, Text, text, u64,
}
use sky_lock.Path.{has_prefix}

-- strings.Replace(s, old, new, 1)
unfoldable pub replace_first : Text → Text → Text → Text
unfolding has_prefix
replace_first [] old new = if has_prefix [] old then new else []
replace_first (c ∷ s) old new =
    let rest = replace_first s old new in
    if has_prefix (c ∷ s) old then new ++ drop (length old) (c ∷ s) else c ∷ rest

-- The loop of `itoa`, one round a digit; the number itself is fuel enough.
unfoldable pub itoa_loop : ℕ → ℕ → Text → Text
itoa_loop zero n result = result
itoa_loop (suc fuel) n result =
    let rest = itoa_loop fuel (n / 10) ((b'0' + n % 10) ∷ result) in if n == 0 then result else rest

unfoldable pub itoa : ℕ → Text
unfolding itoa_loop
itoa n = if n == 0 then b'0' ∷ [] else itoa_loop n n []

abbrev pub replicate : ℕ → ℕ → Text
replicate zero c = []
replicate (suc n) c = c ∷ replicate n c

unfoldable pub pad_left : Text → ℕ → ℕ → Text
pad_left s width pad = if leb width (length s) then s else replicate (width - length s) pad ++ s

unfoldable pub format_sequence : ℕ → Text
unfolding replace_first itoa pad_left
format_sequence seq =
    let inner = replace_first (text "%010d") (text "%d") [] in
    replace_first (replace_first inner (text "%010d") []) [] [] ++ pad_left (itoa seq) 10 b'0'

-- `seq = seq*10 + uint64(c-'0')` over the characters, which are one byte each where they are digits.
unfoldable pub parse_sequence : ℕ → Text → ℕ
parse_sequence seq [] = seq
parse_sequence seq (c ∷ cs) = parse_sequence (u64 (seq * 10 + u64 (c + 2 ^ 64 - b'0'))) cs

format_examples :
    (format_sequence 7 ≡ text "0000000007")
    × (format_sequence 12345678901 ≡ text "12345678901")
    × (parse_sequence 0 (text "0000000042") ≡ 42)
unfolding format_sequence parse_sequence
format_examples = (refl, refl, refl)
