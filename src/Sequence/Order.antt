-- ===== src/Sequence/Order.antt =====
-- internal/store/store.go, `formatSequence`: the order of the names.
use mathlib.Core.Path.{ap₂}
use native.Mathlib.Nat.{pow-suc}
use sky_lock.Common.{
  ℕ, zero, suc, ◌/◌, ◌%◌, ◌^◌, ◌<◌, ◌≡◌, refl, sym, subst, ◌∙◌, true, [], ◌∷◌, ◌++◌, length, Text,
  arith, text_lt, dec_lt,
}
use sky_lock.Sequence.{format_sequence}
use sky_lock.Sequence.Digits.{digit, digits, length-digits, format_sequence-digits}

-- A strict order of the fronts decides, if they are of one length; equal fronts leave it to the ends.
text_lt-append :
    (x y s t : Text) → length x ≡ length y → text_lt x y ≡ true → text_lt (x ++ s) (y ++ t) ≡ true
unfolding text_lt
text_lt-append x [] s t e h = cc
text_lt-append [] (b ∷ y) s t e h = absurd (omega arith)
text_lt-append (a ∷ x) (b ∷ y) s t e h = ground (arith, text_lt-append x y s t)

pub text_lt-prefix : (x s t : Text) → text_lt (x ++ s) (x ++ t) ≡ text_lt s t
unfolding text_lt
text_lt-prefix [] s t = refl
text_lt-prefix (a ∷ x) s t = ground (arith, text_lt-prefix x s t)

text_lt-digit : (n m : ℕ) → n % 10 < m % 10 → text_lt (digit n ∷ []) (digit m ∷ []) ≡ true
unfolding text_lt digit
text_lt-digit n m h = ground arith

digits-lt :
    (width n m : ℕ) → m < 10 ^ width → n < m → text_lt (digits width n) (digits width m) ≡ true
unfolding digits
digits-lt zero n m small less = absurd (omega arith)
digits-lt (suc width) n m small less = elim (dec_lt (n / 10) (m / 10)) [
  | yes front ↦
      text_lt-append (digits width (n / 10)) (digits width (m / 10)) (digit n ∷ []) (digit m ∷ [])
        (length-digits width (n / 10) ∙ sym (length-digits width (m / 10)))
        (digits-lt width (n / 10) (m / 10) (omega (arith, pow-suc 10 width)) front)
  | no same ↦
      let e : n / 10 ≡ m / 10 = omega arith in
      let front = digits width (m / 10) in
      subst (λ k. text_lt (digits width k ++ digit n ∷ []) (front ++ digit m ∷ []) ≡ true) (sym e)
        (text_lt-prefix front (digit n ∷ []) (digit m ∷ []) ∙ text_lt-digit n m (omega arith))
]

-- Of two sequence numbers below 10^10 the smaller makes the smaller name in the order of strings,
-- behind any common prefix.
pub format_sequence_order :
    (prefix : Text) (n m : ℕ)
    → n < m
    → m < 10 ^ 10
    → text_lt (prefix ++ format_sequence n) (prefix ++ format_sequence m) ≡ true
format_sequence_order prefix n m less small =
    text_lt-prefix prefix (format_sequence n) (format_sequence m)
    ∙ ap₂ text_lt (format_sequence-digits n (omega arith)) (format_sequence-digits m small)
    ∙ digits-lt 10 n m small less
