-- ===== src/Numbers.antt =====
-- internal/rdb/structure/int.go, and the byte orders of encoding/binary that it uses.
pub mod Laws
pub mod Ends
use redis_agent.Common.{ℕ, zero, suc, ◌+◌, ◌*◌, ◌/◌, ◌%◌, ◌^◌, Bytes, [], ◌∷◌, ◌++◌}
use redis_agent.Common.Int.{ℤ, pos, signed}
use redis_agent.Reader.{Reader, ◌>>=◌, pure, read_byte, read_bytes}

-- `binary.LittleEndian` and `binary.BigEndian` on the bytes of one word.
abbrev pub le_value : Bytes → ℕ
le_value [] = 0
le_value (b ∷ bs) = b + 256 * le_value bs

abbrev pub be_from : ℕ → Bytes → ℕ
be_from acc [] = acc
be_from acc (b ∷ bs) = be_from (acc * 256 + b) bs

abbrev pub be_value : Bytes → ℕ
be_value = be_from 0

unfoldable pub read_uint8 : Reader ℕ
unfolding read_byte
read_uint8 = read_byte

unfoldable pub read_uint16 : Reader ℕ
unfolding read_bytes
read_uint16 = do buf ← read_bytes (pos 2); pure (le_value buf)

-- Three bytes and a zero on top, read as a little-endian `uint32`.
unfoldable pub read_uint24 : Reader ℕ
unfolding read_bytes
read_uint24 = do buf ← read_bytes (pos 3); pure (le_value (buf ++ 0 ∷ []))

unfoldable pub read_uint32 : Reader ℕ
unfolding read_bytes
read_uint32 = do buf ← read_bytes (pos 4); pure (le_value buf)

unfoldable pub read_uint64 : Reader ℕ
unfolding read_bytes
read_uint64 = do buf ← read_bytes (pos 8); pure (le_value buf)

unfoldable pub read_int8 : Reader ℤ
unfolding read_byte
read_int8 = do b ← read_byte; pure (signed 8 b)

unfoldable pub read_int16 : Reader ℤ
unfolding read_bytes
read_int16 = do buf ← read_bytes (pos 2); pure (signed 16 (le_value buf))

-- `int32(v) >> 8`: the arithmetic shift of a 32-bit pattern.
abbrev pub shift_right_8 : ℤ → ℤ
shift_right_8 (ℤ.pos n) = pos (n / 256)
shift_right_8 (ℤ.negsuc n) = ℤ.negsuc (n / 256)

-- A zero below three bytes, so that the sign bit is that of an `int32`; the shift takes it off.
unfoldable pub read_int24 : Reader ℤ
unfolding read_bytes
read_int24 = do buf ← read_bytes (pos 3); pure (shift_right_8 (signed 32 (le_value (0 ∷ buf))))

unfoldable pub read_int32 : Reader ℤ
unfolding read_bytes
read_int32 = do buf ← read_bytes (pos 4); pure (signed 32 (le_value buf))

unfoldable pub read_int64 : Reader ℤ
unfolding read_bytes
read_int64 = do buf ← read_bytes (pos 8); pure (signed 64 (le_value buf))
