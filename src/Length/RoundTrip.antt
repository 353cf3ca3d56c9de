-- ===== src/Length/RoundTrip.antt =====
-- Length prefixes as Redis writes them (`rdbSaveLen`), and what length.go reads back.
use redis_agent.Common.{
  ℕ, ◌+◌, ◌*◌, ◌/◌, ◌%◌, ◌^◌, ◌<◌, ltb, ◌==◌, if◌then◌else◌, bit_or, Bytes, ◌∷◌, ◌≡◌, refl, arith,
  true, ==_iff,
}
use redis_agent.Common.Bits.{top_two, low_six, holds_below, holds_below_at}
use redis_agent.Reader.{ok}
use redis_agent.Numbers.Laws.{be_bytes}
use redis_agent.Reader.Laws.{bind_ok}
use redis_agent.Length.{
  plain_length, plain, read_encoded_from, read_encoded_length, read_length, rdb_32_byte_len,
  rdb_64_byte_len, read_word,
}

-- The shortest prefix for n, in front of s.
abbrev pub put_length : ℕ → Bytes → Bytes
put_length n s =
    if ltb n 64
    then n ∷ s
    else if ltb n 16384
    then (64 + n / 256) ∷ (n % 256) ∷ s
    else if ltb n (2 ^ 32)
    then rdb_32_byte_len ∷ be_bytes 4 n s
    else rdb_64_byte_len ∷ be_bytes 8 n s

-- `x<<8 | y` of six bits and a byte.
join_table : holds_below 64 (λ x. holds_below 256 (λ y. bit_or (x * 256) y == x * 256 + y)) ≡ true
unfolding holds_below
join_table = refl

pub join_bytes : (x y : ℕ) → x < 64 → y < 256 → bit_or (x * 256) y ≡ x * 256 + y
join_bytes x y hx hy = (==_iff _ _).0 (
    holds_below_at 256 (λ y. bit_or (x * 256) y == x * 256 + y) y
      (holds_below_at 64 (λ x. holds_below 256 (λ y. bit_or (x * 256) y == x * 256 + y)) x
        join_table hx)
      hy)

pub read_word_four :
    (n : ℕ) (s : Bytes) → n < 2 ^ 32 → read_word 4 (be_bytes 4 n s) ≡ ok (plain n, s)
unfolding read_word
read_word_four n s h = ground arith

pub read_word_eight :
    (n : ℕ) (s : Bytes) → n < 2 ^ 64 → read_word 8 (be_bytes 8 n s) ≡ ok (plain n, s)
unfolding read_word
read_word_eight n s h = ground arith

pub read_encoded_length-put_length :
    (n : ℕ) (s : Bytes) → n < 2 ^ 64 → read_encoded_length (put_length n s) ≡ ok (plain n, s)
unfolding read_encoded_length read_encoded_from
read_encoded_length-put_length n s h = ground (
  arith,
  top_two n,
  low_six n,
  top_two (64 + n / 256),
  low_six (64 + n / 256),
  join_bytes (n / 256) (n % 256),
  read_word_four n s,
  read_word_eight n s,
)

-- Every uint64 written as a length prefix is read back, and what follows the prefix is left.
pub read_length-put_length :
    (n : ℕ) (s : Bytes) → n < 2 ^ 64 → read_length (put_length n s) ≡ ok (n, s)
unfolding read_length
read_length-put_length n s h =
    bind_ok read_encoded_length plain_length (put_length n s) (read_encoded_length-put_length n s h)
