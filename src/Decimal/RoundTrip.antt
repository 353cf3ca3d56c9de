-- ===== src/Decimal/RoundTrip.antt =====
-- Every `int64` is read back from its decimal print.
use redis_agent.Common.{
  ℕ, zero, suc, ◌+◌, ◌/◌, ◌%◌, ◌^◌, ◌<◌, ◌≤◌, ◌==◌, Bytes, [], ◌∷◌, false, ap, Option, none, some,
  ltb, leb, ◌⊎◌, ◌≡◌, refl, ◌∙◌, arith, inl, inr, Bool-cases,
}
use redis_agent.Common.Int.{ℤ, pos, negsuc}
use redis_agent.Numbers.Laws.{Fits}
use redis_agent.Decimal.{
  digits, format_uint, format_int, scan, parse_uint, parse_int, positive, negative,
}
use native.Mathlib.Nat.{pow-suc}

-- Reading the last digit of n behind the digits before it gives n.
scan_last : (n : ℕ) (out : Bytes) → n < 2 ^ 64 → scan ((b'0' + n % 10) ∷ out) (n / 10) ≡ scan out n
unfolding scan
scan_last n out h = ground arith

tenth-lt : (n k : ℕ) → n < 10 ^ suc k → n / 10 < 10 ^ k
tenth-lt n k h = omega (arith, pow-suc 10 k)

scan-digits :
    (fuel n : ℕ) (out : Bytes)
    → n < 10 ^ suc fuel
    → n < 2 ^ 64
    → scan (digits (suc fuel) n out) 0 ≡ scan out n
unfolding digits
scan-digits zero n out h fits = ground (arith, scan_last n out fits)
scan-digits (suc fuel) n out h fits = elim (Bool-cases (n / 10 == 0)) [
  | inl done ↦ ground (arith, scan_last n out fits)
  | inr more ↦ rw more (
      scan-digits fuel (n / 10) ((b'0' + n % 10) ∷ out) (tenth-lt n (suc fuel) h) (omega arith)
      ∙ scan_last n out fits)
]

abbrev StartsWithDigit : Bytes → Type 0
StartsWithDigit [] = ⊥
StartsWithDigit (c ∷ s) = (b'0' ≤ c) × (c ≤ b'9')

digits-StartsWithDigit : (fuel n : ℕ) (out : Bytes) → StartsWithDigit (digits (suc fuel) n out)
unfolding digits
digits-StartsWithDigit zero n out = ground arith
digits-StartsWithDigit (suc fuel) n out = elim (Bool-cases (n / 10 == 0)) [
  | inl done ↦ rw done (ground arith)
  | inr more ↦ rw more (digits-StartsWithDigit fuel (n / 10) ((b'0' + n % 10) ∷ out))
]

parse_uint-scan : (s : Bytes) → StartsWithDigit s → parse_uint s ≡ scan s 0
unfolding parse_uint
parse_uint-scan [] h = elim h [ ]
parse_uint-scan (c ∷ s) h = refl

-- Every uint64 is read back from its decimal print.
pub parse_uint-format_uint : (n : ℕ) → n < 2 ^ 64 → parse_uint (format_uint n) ≡ some n
parse_uint-format_uint n h =
    parse_uint-scan (format_uint n) (unfold format_uint in digits-StartsWithDigit 19 n [])
    ∙ unfold format_uint in scan-digits 19 n [] (omega arith) h ∙ unfold scan in refl

parse_int_unsigned : (s : Bytes) → StartsWithDigit s → parse_int s ≡ positive (parse_uint s)
unfolding parse_int
parse_int_unsigned [] h = elim h [ ]
parse_int_unsigned (c ∷ s) h = ground arith

format_uint-StartsWithDigit : (n : ℕ) → StartsWithDigit (format_uint n)
unfolding format_uint
format_uint-StartsWithDigit n = digits-StartsWithDigit 19 n []

-- Every int64 is read back from its decimal print.
pub parse_int-format_int : (z : ℤ) → Fits 64 z → parse_int (format_int z) ≡ some z
unfolding format_int
parse_int-format_int (pos n) h =
    parse_int_unsigned (format_uint n) (format_uint-StartsWithDigit n)
    ∙ rw (parse_uint-format_uint n (omega arith)) (ground arith)
parse_int-format_int (negsuc n) h =
    unfold parse_int in rw (parse_uint-format_uint (n + 1) (omega arith)) (ground arith)

abbrev FitsOrNone : Option ℤ → Type 0
FitsOrNone o = (o ≡ none) ⊎ ((z : ℤ) × (o ≡ some z) × Fits 64 z)

positive-FitsOrNone : (o : Option ℕ) → FitsOrNone (positive o)
positive-FitsOrNone none = inl refl
positive-FitsOrNone (some n) = elim (Bool-cases (ltb n (2 ^ 63))) [
  | inl h ↦ inr (pos n, rw h refl, ground arith)
  | inr h ↦ inl (rw h refl)
]

negative-FitsOrNone : (o : Option ℕ) → FitsOrNone (negative o)
negative-FitsOrNone none = inl refl
negative-FitsOrNone (some zero) = inr (pos 0, refl, omega arith)
negative-FitsOrNone (some (suc n)) =
    let not_zero : (suc n == 0) ≡ false = ground arith in
    elim (Bool-cases (leb (suc n) (2 ^ 63))) [
      | inl h ↦
          inr (negsuc n, rw (not_zero, h) (ap (λ m. some (negsuc m)) (omega arith)), ground arith)
      | inr h ↦ inl (rw (not_zero, h) refl)
    ]

-- What is parsed is an int64.
pub parse_int-Fits : (s : Bytes) → FitsOrNone (parse_int s)
unfolding parse_int
parse_int-Fits [] = inl refl
parse_int-Fits (c ∷ s) = elim (Bool-cases (c == b'-')) [
  | inl h ↦ rw h (negative-FitsOrNone (parse_uint s))
  | inr h ↦ elim (Bool-cases (c == b'+')) [
    | inl k ↦ rw (h, k) (positive-FitsOrNone (parse_uint s))
    | inr k ↦ rw (h, k) (positive-FitsOrNone (parse_uint (c ∷ s)))
  ]
]
