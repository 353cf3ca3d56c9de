-- ===== src/Common/Bits.antt =====
-- Masks on one byte as arithmetic: each fact is a table of 256 entries, checked by evaluation.
use Prim.Native.Nat.{ℕ, zero, suc, ◌*◌, ◌/◌, ◌%◌, ◌<◌, bit_and}
use mathlib.Core.Path.{◌≡◌, refl}
use mathlib.Core.Bool.{Bool, true, ◌&&◌}
use native.Mathlib.Omega.{arith}
use redis_agent.Common.Tests.{◌==◌, ==_iff}

unfoldable pub holds_below : ℕ → (ℕ → Bool) → Bool
holds_below zero test = true
holds_below (suc bound) test = holds_below bound test && test bound

pub holds_below_at :
    (bound : ℕ) (test : ℕ → Bool) (v : ℕ)
    → holds_below bound test ≡ true
    → v < bound
    → test v ≡ true
unfolding holds_below
holds_below_at zero test v all inside = absurd (omega arith)
holds_below_at (suc bound) test v all inside = ground (arith, holds_below_at bound test v)

-- Two functions that agree by evaluation below a bound.
pub agree_below :
    (f g : ℕ → ℕ) (n : ℕ) → holds_below n (λ x. f x == g x) ≡ true → (x : ℕ) → x < n → f x ≡ g x
agree_below f g n h x lt = (==_iff (f x) (g x)).0 (holds_below_at n (λ x. f x == g x) x h lt)

pub top_two : (b : ℕ) → b < 256 → bit_and b 0xc0 / 64 ≡ b / 64
unfolding holds_below
top_two = agree_below (λ b. bit_and b 0xc0 / 64) (λ b. b / 64) 256 refl

pub low_six : (b : ℕ) → b < 256 → bit_and b 0x3f ≡ b % 64
unfolding holds_below
low_six = agree_below (λ b. bit_and b 0x3f) (λ b. b % 64) 256 refl

pub mask_80 : (b : ℕ) → b < 256 → bit_and b 0x80 ≡ b / 128 * 128
unfolding holds_below
mask_80 = agree_below (λ b. bit_and b 0x80) (λ b. b / 128 * 128) 256 refl

pub mask_c0 : (b : ℕ) → b < 256 → bit_and b 0xc0 ≡ b / 64 * 64
unfolding holds_below
mask_c0 = agree_below (λ b. bit_and b 0xc0) (λ b. b / 64 * 64) 256 refl

pub mask_e0 : (b : ℕ) → b < 256 → bit_and b 0xe0 ≡ b / 32 * 32
unfolding holds_below
mask_e0 = agree_below (λ b. bit_and b 0xe0) (λ b. b / 32 * 32) 256 refl

pub mask_f0 : (b : ℕ) → b < 256 → bit_and b 0xf0 ≡ b / 16 * 16
unfolding holds_below
mask_f0 = agree_below (λ b. bit_and b 0xf0) (λ b. b / 16 * 16) 256 refl

pub mask_ff : (b : ℕ) → b < 256 → bit_and b 0xff ≡ b
unfolding holds_below
mask_ff = agree_below (λ b. bit_and b 0xff) (λ b. b) 256 refl

pub low_seven : (b : ℕ) → b < 256 → bit_and b 0x7f ≡ b % 128
unfolding holds_below
low_seven = agree_below (λ b. bit_and b 0x7f) (λ b. b % 128) 256 refl

pub low_five : (b : ℕ) → b < 256 → bit_and b 0x1f ≡ b % 32
unfolding holds_below
low_five = agree_below (λ b. bit_and b 0x1f) (λ b. b % 32) 256 refl

pub low_four : (b : ℕ) → b < 256 → bit_and b 0xf ≡ b % 16
unfolding holds_below
low_four = agree_below (λ b. bit_and b 0xf) (λ b. b % 16) 256 refl
