-- ===== src/Numbers/Ends.antt =====
-- Reading numbers ends on every input.
use redis_agent.Common.{[], ◌∷◌, ◌++◌}
use redis_agent.Common.Int.{pos, signed}
use redis_agent.Reader.{read_byte, read_bytes}
use redis_agent.Reader.Tame.{
  Tame, Tame-of_Brisk, pure-Tame, bind-Tame, read_byte-Brisk, read_bytes-Tame,
}
use redis_agent.Numbers.{
  le_value, shift_right_8, read_uint16, read_uint24, read_uint32, read_uint64, read_int8,
  read_int16, read_int24, read_int32, read_int64,
}

pub read_byte-Tame : Tame read_byte
read_byte-Tame = Tame-of_Brisk read_byte read_byte-Brisk

pub read_int8-Tame : Tame read_int8
unfolding read_int8
read_int8-Tame = bind-Tame read_byte _ read_byte-Tame (λ b. pure-Tame (signed 8 b))

pub read_uint16-Tame : Tame read_uint16
unfolding read_uint16
read_uint16-Tame =
    bind-Tame (read_bytes (pos 2)) _ (read_bytes-Tame (pos 2)) (λ buf. pure-Tame (le_value buf))

pub read_uint24-Tame : Tame read_uint24
unfolding read_uint24
read_uint24-Tame =
    bind-Tame (read_bytes (pos 3)) _ (read_bytes-Tame (pos 3))
      (λ buf. pure-Tame (le_value (buf ++ 0 ∷ [])))

pub read_uint32-Tame : Tame read_uint32
unfolding read_uint32
read_uint32-Tame =
    bind-Tame (read_bytes (pos 4)) _ (read_bytes-Tame (pos 4)) (λ buf. pure-Tame (le_value buf))

pub read_uint64-Tame : Tame read_uint64
unfolding read_uint64
read_uint64-Tame =
    bind-Tame (read_bytes (pos 8)) _ (read_bytes-Tame (pos 8)) (λ buf. pure-Tame (le_value buf))

pub read_int16-Tame : Tame read_int16
unfolding read_int16
read_int16-Tame =
    bind-Tame (read_bytes (pos 2)) _ (read_bytes-Tame (pos 2))
      (λ buf. pure-Tame (signed 16 (le_value buf)))

pub read_int24-Tame : Tame read_int24
unfolding read_int24
read_int24-Tame =
    bind-Tame (read_bytes (pos 3)) _ (read_bytes-Tame (pos 3))
      (λ buf. pure-Tame (shift_right_8 (signed 32 (le_value (0 ∷ buf)))))

pub read_int32-Tame : Tame read_int32
unfolding read_int32
read_int32-Tame =
    bind-Tame (read_bytes (pos 4)) _ (read_bytes-Tame (pos 4))
      (λ buf. pure-Tame (signed 32 (le_value buf)))

pub read_int64-Tame : Tame read_int64
unfolding read_int64
read_int64-Tame =
    bind-Tame (read_bytes (pos 8)) _ (read_bytes-Tame (pos 8))
      (λ buf. pure-Tame (signed 64 (le_value buf)))
