-- ===== src/Memory/Buckets.antt =====
-- The size of a hash table.
use redis_agent.Common.{
  ℕ, zero, suc, ◌+◌, ◌*◌, ◌%◌, ◌^◌, ◌<◌, ◌≤◌, leb, Bool-cases, inl, inr, ◌⊎◌, ◌≡◌, refl, ◌∙◌, ap,
  arith, leb→le,
}
use redis_agent.Memory.{next_power_from, next_power}
use native.Mathlib.Nat.{pow-suc, pow-le-pow_right}
use native.Mathlib.Decide.{dec_lt}

-- `power` is a power of two that the loop has reached, with `fuel` rounds left up to 2 ^ 64.
next_power_from_lem :
    (fuel k size : ℕ)
    → k + fuel ≡ 64
    → size < 2 ^ 63
    → 2 ^ k ≤ 2 * size + 1
    → (m : ℕ) × (next_power_from fuel (2 ^ k) size ≡ 2 ^ m)
      × (size < 2 ^ m)
      × (2 ^ m ≤ 2 * size + 1)
unfolding next_power_from
next_power_from_lem zero k size h fits low =
    let full : k ≡ 64 = omega arith in absurd (omega (arith, ap (λ (t : ℕ). 2 ^ t) full))
next_power_from_lem (suc fuel) k size h fits low = elim (Bool-cases (leb (2 ^ k) size)) [
  | inl small ↦
      let le : 2 ^ k ≤ size = leb→le _ _ small in
      let double : 2 ^ k * 2 % 2 ^ 64 ≡ 2 ^ suc k = rw (pow-suc 2 k) (omega arith) in
      rw (small, double)
        (next_power_from_lem fuel (suc k) size (omega arith) fits (rw (pow-suc 2 k) (omega arith)))
  | inr large ↦ rw large (k, refl, ground arith, low)
]

-- Below 2 ^ 63 the loop of `NextPower` ends, at a power of two above the size that is at most twice
-- the size (and 1 for no element).
pub next_power_bounds :
    (size : ℕ)
    → size < 2 ^ 63
    → (m : ℕ) × (next_power size ≡ 2 ^ m) × (size < 2 ^ m) × (2 ^ m ≤ 2 * size + 1)
unfolding next_power
next_power_bounds size h = next_power_from_lem 64 0 size (omega arith) h (omega arith)

-- What the loop can reach: a divisor of 2 ^ 63, or 0.
abbrev Reached : ℕ → Type 0
Reached p = ((j : ℕ) × (p * 2 ^ j ≡ 2 ^ 63)) ⊎ (p ≡ 0)

pow-pos : (j : ℕ) → 1 ≤ 2 ^ j
pow-pos zero = omega arith
pow-pos (suc j) = rw (pow-suc 2 j) (omega (arith, pow-pos j))

factor-le : (p q n : ℕ) → 1 ≤ q → p * q ≡ n → p ≤ n
factor-le p q n h e = grind arith

Reached-le : (p : ℕ) → Reached p → p ≤ 2 ^ 63
Reached-le p (inl (j, e)) = factor-le p (2 ^ j) (2 ^ 63) (pow-pos j) e
Reached-le p (inr e) = omega arith

Reached-double : (p : ℕ) → Reached p → Reached (p * 2 % 2 ^ 64)
Reached-double p (inl (zero, e)) = inr (omega (arith, e))
Reached-double p (inl (suc j, e)) =
    let e' : p * 2 * 2 ^ j ≡ 2 ^ 63 = omega (arith, e, ap (λ t. p * t) (pow-suc 2 j)) in
    let fits : p * 2 ≤ 2 ^ 63 = factor-le (p * 2) (2 ^ j) (2 ^ 63) (pow-pos j) e' in
    let same : p * 2 % 2 ^ 64 ≡ p * 2 = omega arith in inl (j, rw same e')
Reached-double p (inr e) = inr (omega arith)

next_power_from-endless :
    (fuel p size : ℕ) → 2 ^ 63 ≤ size → Reached p → next_power_from fuel p size ≤ size
unfolding next_power_from
next_power_from-endless zero p size h r = omega (arith, Reached-le p r)
next_power_from-endless (suc fuel) p size h r = elim (Bool-cases (leb p size)) [
  | inl small ↦ rw small (next_power_from-endless fuel (p * 2 % 2 ^ 64) size h (Reached-double p r))
  | inr large ↦ absurd (ground (arith, Reached-le p r))
]

-- From 2 ^ 63 on the loop of `NextPower` has no exit: after any number of rounds the power is still
-- no more than the size.
pub next_power_endless : (fuel size : ℕ) → 2 ^ 63 ≤ size → next_power_from fuel 1 size ≤ size
next_power_endless fuel size h = next_power_from-endless fuel 1 size h (inl (63, refl))

exponent-lt : (k m : ℕ) → 2 ^ k < 2 ^ m → k < m
exponent-lt k m h = elim (dec_lt k m) [
  | yes lt ↦ lt
  | no ge ↦
      absurd
        (omega (arith, ge, pow-le-pow_right {n = 2} (omega arith) {i = m} {j = k} (omega arith)))
]

-- A power of two above 2 ^ k and at most 2 * 2 ^ k + 1 is the next one.
next_exponent : (k m : ℕ) → 2 ^ k < 2 ^ m → 2 ^ m ≤ 2 * 2 ^ k + 1 → 2 ^ m ≡ 2 ^ suc k
next_exponent k zero h low = absurd (omega (arith, pow-pos k))
next_exponent k (suc m) h low =
    let up =
      pow-le-pow_right {n = 2} (omega arith) {i = suc k} {j = suc m} (exponent-lt k (suc m) h) in
    omega (arith, up, pow-suc 2 k, pow-suc 2 m, low)

-- A size that is a power of two, below 2 ^ 63, gets twice its own number of buckets, although that
-- number would hold it.
pub next_power-pow : (k : ℕ) → k < 63 → next_power (2 ^ k) ≡ 2 ^ (k + 1)
next_power-pow k h =
    let fits : 2 ^ k < 2 ^ 63 = omega (arith, double, pow-suc 2 k, pow-pos k) in
    let (m, e, above, low) = next_power_bounds (2 ^ k) fits in
    let more : k + 1 ≡ suc k = omega arith in rw more (e ∙ next_exponent k m above low)
  where
    double : 2 ^ suc k ≤ 2 ^ 63
    double = pow-le-pow_right {n = 2} (omega arith) {i = suc k} {j = 63} h
