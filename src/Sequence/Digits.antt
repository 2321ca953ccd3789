-- ===== src/Sequence/Digits.antt =====
-- The digits that `itoa` and `padLeft` of internal/store/store.go write, and the loop of `TryLock` that
-- reads them.
use mathlib.Core.List.{append-nil, append_assoc}
use native.Mathlib.Nat.{pow-suc}
use sky_lock.Common.{
  ℕ, zero, suc, ◌+◌, ◌-◌, ◌*◌, ◌/◌, ◌%◌, ◌^◌, ◌≤◌, ◌<◌, ◌≡◌, refl, sym, ap, ◌∙◌, false, [], ◌∷◌,
  ◌++◌, length, length-append, Text, arith, u64,
}
use sky_lock.Path.{has_slash}
use sky_lock.Path.Parents.{has_slash-append}
use sky_lock.Sequence.{itoa_loop, itoa, replicate, pad_left, format_sequence, parse_sequence}

pub format_sequence_lem : (n : ℕ) → format_sequence n ≡ pad_left (itoa n) 10 b'0'
unfolding format_sequence
format_sequence_lem n = refl

-- The last digit goes behind the digits of the rest.
itoa_loop-acc :
    (fuel n : ℕ) (result : Text) → itoa_loop fuel n result ≡ itoa_loop fuel n [] ++ result
unfolding itoa_loop
itoa_loop-acc zero n result = refl
itoa_loop-acc (suc fuel) n result =
    let last = b'0' + n % 10 in
    ground (
      arith,
      itoa_loop-acc fuel (n / 10) (last ∷ result),
      itoa_loop-acc fuel (n / 10) (last ∷ []),
      append_assoc (itoa_loop fuel (n / 10) []) (last ∷ []) result,
    )

unfoldable pub digit : ℕ → ℕ
digit n = b'0' + n % 10

itoa_loop_zero : (fuel : ℕ) → itoa_loop fuel 0 [] ≡ []
unfolding itoa_loop
itoa_loop_zero zero = refl
itoa_loop_zero (suc fuel) = refl

itoa_loop-suc :
    (fuel n : ℕ) → 0 < n → itoa_loop (suc fuel) n [] ≡ itoa_loop fuel (n / 10) [] ++ digit n ∷ []
unfolding digit itoa_loop
itoa_loop-suc fuel n pos = ground (arith, itoa_loop-acc fuel (n / 10) (digit n ∷ []))

-- The `width` last digits of a number.
unfoldable pub digits : ℕ → ℕ → Text
digits zero n = []
digits (suc width) n = digits width (n / 10) ++ digit n ∷ []

pub length-digits : (width n : ℕ) → length (digits width n) ≡ width
unfolding digits
length-digits zero n = refl
length-digits (suc width) n =
    omega
      (arith, length-append (digits width (n / 10)) (digit n ∷ []), length-digits width (n / 10))

replicate_last : (n c : ℕ) → replicate n c ++ c ∷ [] ≡ replicate (suc n) c
replicate_last zero c = refl
replicate_last (suc n) c = ap (◌∷◌ c) (replicate_last n c)

digits_zero : (width : ℕ) → digits width 0 ≡ replicate width b'0'
unfolding digits digit
digits_zero zero = refl
digits_zero (suc width) = rw (digits_zero width) (replicate_last width b'0')

-- With leading zeros, `itoa_loop` writes the digits of a number that has no more than `width`.
record Padded (width fuel n : ℕ) : Type 0 where
  short : length (itoa_loop fuel n []) ≤ width
  filled :
      replicate (width - length (itoa_loop fuel n [])) b'0' ++ itoa_loop fuel n [] ≡ digits width n

Padded-zero : (width fuel : ℕ) → Padded width fuel 0
Padded-zero width fuel = record {
  short = rw (itoa_loop_zero fuel) (omega arith);
  filled =
      let e : width - 0 ≡ width = omega arith in
      rw (itoa_loop_zero fuel) (rw e (append-nil (replicate width b'0') ∙ sym (digits_zero width)));
}

padded : (width fuel n : ℕ) → n < 10 ^ width → n ≤ fuel → Padded width fuel n
unfolding digits
padded width fuel zero small enough = Padded-zero width fuel
padded zero fuel (suc n) small enough = absurd (omega arith)
padded (suc width) zero (suc n) small enough = absurd (omega arith)
padded (suc width) (suc fuel) (suc n) small enough =
    let rest = suc n / 10 in
    let fits : rest < 10 ^ width = omega (arith, pow-suc 10 width) in
    let ih = padded width fuel rest fits (omega arith) in
    let front = itoa_loop fuel rest [] in
    let step = itoa_loop-suc fuel (suc n) (omega arith) in
    let len = length-append front (digit (suc n) ∷ []) in
    let gap : suc width - length (front ++ digit (suc n) ∷ []) ≡ width - length front =
      omega (arith, len, ih.short) in
    record {
      short = rw step (omega (arith, len, ih.short));
      filled = rw step (
          rw gap (
            sym (append_assoc (replicate (width - length front) b'0') front (digit (suc n) ∷ []))
            ∙ ap (λ (r : Text). r ++ digit (suc n) ∷ []) ih.filled));
    }

pad_left_lem : (s : Text) (width c : ℕ) → pad_left s width c ≡ replicate (width - length s) c ++ s
unfolding pad_left
pad_left_lem s width c = ground arith

itoa-suc : (n : ℕ) → itoa (suc n) ≡ itoa_loop (suc n) (suc n) []
unfolding itoa
itoa-suc n = ground arith

format_sequence_padded :
    (n : ℕ)
    → let s = itoa_loop (suc n) (suc n) [] in
      format_sequence (suc n) ≡ replicate (10 - length s) b'0' ++ s
format_sequence_padded n =
    format_sequence_lem (suc n)
    ∙ ap (λ (s : Text). pad_left s 10 b'0') (itoa-suc n)
    ∙ pad_left_lem (itoa_loop (suc n) (suc n) []) 10 b'0'

-- A number below 10^10 is written with exactly ten digits.
pub format_sequence-digits : (n : ℕ) → n < 10 ^ 10 → format_sequence n ≡ digits 10 n
unfolding digits digit format_sequence
format_sequence-digits zero small = refl
format_sequence-digits (suc n) small =
    format_sequence_padded n ∙ (padded 10 (suc n) (suc n) small (omega arith)).filled

-- Reading.
parse-append :
    (seq c : ℕ) (s : Text)
    → parse_sequence seq (s ++ c ∷ []) ≡ u64 (parse_sequence seq s * 10 + u64 (c + 2 ^ 64 - b'0'))
unfolding parse_sequence
parse-append seq c [] = refl
parse-append seq c (d ∷ s) = parse-append (u64 (seq * 10 + u64 (d + 2 ^ 64 - b'0'))) c s

parse_zeros : (k : ℕ) (s : Text) → parse_sequence 0 (replicate k b'0' ++ s) ≡ parse_sequence 0 s
unfolding parse_sequence
parse_zeros zero s = refl
parse_zeros (suc k) s = parse_zeros k s

parse-itoa_loop : (fuel n : ℕ) → n < 2 ^ 64 → n ≤ fuel → parse_sequence 0 (itoa_loop fuel n []) ≡ n
parse-itoa_loop fuel zero small enough = rw (itoa_loop_zero fuel) (unfold parse_sequence in refl)
parse-itoa_loop zero (suc n) small enough = absurd (omega arith)
parse-itoa_loop (suc fuel) (suc n) small enough =
    let rest = suc n / 10 in
    let ih = parse-itoa_loop fuel rest (omega arith) (omega arith) in
    let read = parse-append 0 (digit (suc n)) (itoa_loop fuel rest []) in
    rw (itoa_loop-suc fuel (suc n) (omega arith)) (rw (read, ih) (unfold digit in omega arith))

-- Every 64-bit sequence number is read back, by the loop of TryLock, from the name that was made
-- of it.
pub parse-format_sequence : (n : ℕ) → n < 2 ^ 64 → parse_sequence 0 (format_sequence n) ≡ n
unfolding format_sequence parse_sequence
parse-format_sequence zero small = refl
parse-format_sequence (suc n) small =
    let s = itoa_loop (suc n) (suc n) [] in
    ap (parse_sequence 0) (format_sequence_padded n)
    ∙ parse_zeros (10 - length s) s
    ∙ parse-itoa_loop (suc n) (suc n) small (omega arith)

length-replicate : (n c : ℕ) → length (replicate n c) ≡ n
length-replicate zero c = refl
length-replicate (suc n) c = ap suc (length-replicate n c)

no_slash_replicate : (k : ℕ) → has_slash (replicate k b'0') ≡ false
unfolding has_slash
no_slash_replicate zero = refl
no_slash_replicate (suc k) = no_slash_replicate k

no_slash_itoa : (fuel n : ℕ) → has_slash (itoa_loop fuel n []) ≡ false
unfolding has_slash
no_slash_itoa fuel zero = rw (itoa_loop_zero fuel)
no_slash_itoa zero (suc n) = unfold itoa_loop in refl
no_slash_itoa (suc fuel) (suc n) =
    let rest = suc n / 10 in
    rw (itoa_loop-suc fuel (suc n) (omega arith)) (
      has_slash-append (itoa_loop fuel rest []) (digit (suc n) ∷ []) (no_slash_itoa fuel rest)
        (unfold digit in ground arith))

-- A formatted number has at least ten bytes, and no slash.
pub format_sequence-suffix :
    (n : ℕ) → (has_slash (format_sequence n) ≡ false) × (10 ≤ length (format_sequence n))
unfolding format_sequence has_slash
format_sequence-suffix zero = (refl, omega arith)
format_sequence-suffix (suc n) =
    let s = itoa_loop (suc n) (suc n) [] in
    let zeros = replicate (10 - length s) b'0' in
    rw (format_sequence_padded n) (
      has_slash-append zeros s (no_slash_replicate (10 - length s)) (no_slash_itoa (suc n) (suc n)),
      omega (arith, length-append zeros s, length-replicate (10 - length s) b'0'),
    )
