-- ===== src/Length/Bounds.antt =====
-- What a length prefix can be, and how many bytes it takes.
use redis_agent.Common.{
  ℕ, ◌+◌, ◌*◌, ◌%◌, ◌^◌, ◌<◌, ◌≤◌, ◌-◌, Bytes, [], ◌∷◌, length, length-append, ◌≡◌, refl, arith,
  All, IsByte, Bool-cases, inl, inr, ltb, ltb→lt, if◌then◌else◌,
}
use redis_agent.Common.Bits.{top_two, low_six}
use mathlib.Core.Path.{subst}
use native.Mathlib.Nat.{pow-suc}
use redis_agent.Reader.{Result, ok, panic, stuck, illegal_length, illegal_special}
use redis_agent.Reader.{read_full}
use redis_agent.Reader.Laws.{bind_ok, read_full_sound, All-split}
use redis_agent.Numbers.{be_from}
use redis_agent.Length.{
  plain_length, plain, special, failed, read_encoded_from, read_encoded_length, read_length,
  read_word, word_of,
}
use redis_agent.Length.RoundTrip.{join_bytes}

be_from-lt :
    (bs : Bytes) (acc m : ℕ) → acc < m → All IsByte bs → be_from acc bs < m * 256 ^ length bs
be_from-lt [] acc m h hs = omega arith
be_from-lt (b ∷ bs) acc m h (hb, hs) =
    let ih = be_from-lt bs (acc * 256 + b) (m * 256) (omega arith) hs in
    rw (pow-suc 256 (length bs)) (omega arith)

-- A word of a length prefix: the value is below 256 ^ k, and the reader gives up k bytes.
read_word_bounds :
    (k : ℕ) (s s' : Bytes) (n : ℕ)
    → All IsByte s
    → read_word k s ≡ ok (plain n, s')
    → (n < 256 ^ k) × (length s ≡ length s' + k)
unfolding read_word
read_word_bounds k s s' n hs h = step (read_full k s) refl h
  where
    step :
        (r : Result (Bytes × Bytes))
        → read_full k s ≡ r
        → word_of r ≡ ok (plain n, s')
        → (n < 256 ^ k) × (length s ≡ length s' + k)
    step (ok (buf, t)) e g =
        let (whole, size) = read_full_sound k s buf t e in
        let bytes = All-split buf t (subst (All IsByte) whole hs) in
        let top = be_from-lt buf 0 1 (omega arith) bytes.0 in
        ground (arith, whole, size, top, length-append buf t)
    step (panic x) e g = cc
    step stuck e g = cc

-- A plain length is a uint64, and its prefix takes one to nine bytes.
pub read_encoded_length_plain :
    (b : ℕ) (s s' : Bytes) (n : ℕ)
    → All IsByte (b ∷ s)
    → read_encoded_length (b ∷ s) ≡ ok (plain n, s')
    → (n < 2 ^ 64) × (length s' < length (b ∷ s)) × (length (b ∷ s) ≤ length s' + 9)
unfolding read_encoded_length read_encoded_from
read_encoded_length_plain b [] s' n (hb, hs) h =
    ground
      (arith, top_two b, low_six b, read_word_bounds 4 [] s' n hs, read_word_bounds 8 [] s' n hs)
read_encoded_length_plain b (c ∷ s) s' n (hb, hs) h = ground (
  arith,
  top_two b,
  low_six b,
  join_bytes (b % 64) c,
  read_word_bounds 4 (c ∷ s) s' n hs,
  read_word_bounds 8 (c ∷ s) s' n hs,
)

-- The first byte decides.
pub read_encoded_length_special :
    (b : ℕ) (s : Bytes)
    → b < 256
    → 192 ≤ b
    → read_encoded_length (b ∷ s) ≡ ok (special (b - 192), s)
unfolding read_encoded_length read_encoded_from
read_encoded_length_special b s h k = ground (arith, top_two b, low_six b)

read_encoded_length_illegal :
    (b : ℕ) (s : Bytes)
    → 0x82 ≤ b
    → b < 192
    → read_encoded_length (b ∷ s) ≡ ok (failed (illegal_length b), s)
unfolding read_encoded_length read_encoded_from
read_encoded_length_illegal b s h k = ground (arith, top_two b, low_six b)

-- `ReadLength` panics on every first byte from 0x82 on: up to 0xbf the prefix is illegal, and from
-- 0xc0 on it is a special encoding.
pub read_length_refuses :
    (b : ℕ) (s : Bytes)
    → 0x82 ≤ b
    → b < 256
    → read_length (b ∷ s)
      ≡ panic (if ltb b 192 then illegal_length b else illegal_special (b - 192))
unfolding read_length
read_length_refuses b s h k = elim (Bool-cases (ltb b 192)) [
  | inl low ↦ rw low (
      bind_ok read_encoded_length plain_length (b ∷ s)
        (read_encoded_length_illegal b s h (ltb→lt b 192 low)))
  | inr high ↦ rw high (
      bind_ok read_encoded_length plain_length (b ∷ s)
        (read_encoded_length_special b s k (ground arith)))
]
