-- ===== src/Numbers/Laws.antt =====
-- Words written byte by byte, and what the reads of int.go make of them.
use redis_agent.Common.{ℕ, ◌/◌, ◌%◌, ◌^◌, ◌<◌, Bytes, [], ◌∷◌, ◌++◌, ◌≡◌, arith}
use redis_agent.Common.{zero, suc, ◌-◌}
use redis_agent.Common.Int.{ℤ, pos, negsuc}
use redis_agent.Reader.{ok, Reader}
use redis_agent.Numbers.{read_uint16, read_uint24, read_uint32}
use redis_agent.Numbers.{read_uint64, read_int8, read_int16, read_int24, read_int32, read_int64}

-- The k low bytes of n, lowest first.
abbrev pub le_bytes : ℕ → ℕ → Bytes
le_bytes zero n = []
le_bytes (suc k) n = (n % 256) ∷ le_bytes k (n / 256)

-- The k low bytes of n in front of s, highest first.
abbrev pub be_bytes : ℕ → ℕ → Bytes → Bytes
be_bytes zero n s = s
be_bytes (suc k) n s = be_bytes k (n / 256) ((n % 256) ∷ s)

pub read_uint16-le_bytes :
    (n : ℕ) (s : Bytes) → n < 2 ^ 16 → read_uint16 (le_bytes 2 n ++ s) ≡ ok (n, s)
unfolding read_uint16
read_uint16-le_bytes n s h = ground arith

pub read_uint32-le_bytes :
    (n : ℕ) (s : Bytes) → n < 2 ^ 32 → read_uint32 (le_bytes 4 n ++ s) ≡ ok (n, s)
unfolding read_uint32
read_uint32-le_bytes n s h = ground arith

pub read_uint64-le_bytes :
    (n : ℕ) (s : Bytes) → n < 2 ^ 64 → read_uint64 (le_bytes 8 n ++ s) ≡ ok (n, s)
unfolding read_uint64
read_uint64-le_bytes n s h = ground arith

-- The two's complement pattern of z in w bits.
abbrev pub pattern_of : ℕ → ℤ → ℕ
pattern_of w (pos n) = n
pattern_of w (negsuc n) = 2 ^ w - n - 1

-- z is a w-bit signed number.
abbrev pub Fits : ℕ → ℤ → Type 0
Fits w (pos n) = n < 2 ^ (w - 1)
Fits w (negsuc n) = n < 2 ^ (w - 1)

pub read_int8-le_bytes :
    (z : ℤ) (s : Bytes) → Fits 8 z → read_int8 (le_bytes 1 (pattern_of 8 z) ++ s) ≡ ok (z, s)
unfolding read_int8
read_int8-le_bytes (pos n) s h = ground arith
read_int8-le_bytes (negsuc n) s h = ground arith

pub read_int32-le_bytes :
    (z : ℤ) (s : Bytes) → Fits 32 z → read_int32 (le_bytes 4 (pattern_of 32 z) ++ s) ≡ ok (z, s)
unfolding read_int32
read_int32-le_bytes (pos n) s h = ground arith
read_int32-le_bytes (negsuc n) s h = ground arith

pub read_int16-le_bytes :
    (z : ℤ) (s : Bytes) → Fits 16 z → read_int16 (le_bytes 2 (pattern_of 16 z) ++ s) ≡ ok (z, s)
unfolding read_int16
read_int16-le_bytes (pos n) s h = ground arith
read_int16-le_bytes (negsuc n) s h = ground arith

pub read_int24-le_bytes :
    (z : ℤ) (s : Bytes) → Fits 24 z → read_int24 (le_bytes 3 (pattern_of 24 z) ++ s) ≡ ok (z, s)
unfolding read_int24
read_int24-le_bytes (pos n) s h = ground arith
read_int24-le_bytes (negsuc n) s h = ground arith

pub read_int64-le_bytes :
    (z : ℤ) (s : Bytes) → Fits 64 z → read_int64 (le_bytes 8 (pattern_of 64 z) ++ s) ≡ ok (z, s)
unfolding read_int64
read_int64-le_bytes (pos n) s h = ground arith
read_int64-le_bytes (negsuc n) s h = ground arith

pub read_uint24-le_bytes :
    (n : ℕ) (s : Bytes) → n < 2 ^ 24 → read_uint24 (le_bytes 3 n ++ s) ≡ ok (n, s)
unfolding read_uint24
read_uint24-le_bytes n s h = ground arith

-- The signed reads of int.go, by the number of their bytes.
pub data Width : Type 0 where
  one two three four eight : Width

abbrev pub width_bytes : Width → ℕ
width_bytes one = 1
width_bytes two = 2
width_bytes three = 3
width_bytes four = 4
width_bytes eight = 8

abbrev pub width_bits : Width → ℕ
width_bits one = 8
width_bits two = 16
width_bits three = 24
width_bits four = 32
width_bits eight = 64

abbrev pub read_signed : Width → Reader ℤ
read_signed one = read_int8
read_signed two = read_int16
read_signed three = read_int24
read_signed four = read_int32
read_signed eight = read_int64

-- Each signed read of int.go, 8, 16, 24, 32 or 64 bits wide, gives back every number that fits its
-- width from the little-endian bytes of its two's complement, and leaves what follows them.
pub read_signed-le_bytes :
    (w : Width) (z : ℤ) (s : Bytes)
    → Fits (width_bits w) z
    → read_signed w (le_bytes (width_bytes w) (pattern_of (width_bits w) z) ++ s) ≡ ok (z, s)
read_signed-le_bytes one z s h = read_int8-le_bytes z s h
read_signed-le_bytes two z s h = read_int16-le_bytes z s h
read_signed-le_bytes three z s h = read_int24-le_bytes z s h
read_signed-le_bytes four z s h = read_int32-le_bytes z s h
read_signed-le_bytes eight z s h = read_int64-le_bytes z s h
