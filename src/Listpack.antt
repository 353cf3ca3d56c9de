-- ===== src/Listpack.antt =====
-- internal/rdb/structure/listpack.go: the packed list of Redis 7.
pub mod Entry
pub mod RoundTrip
pub mod Ends
use redis_agent.Common.{
  ℕ, ◌+◌, ◌-◌, ◌*◌, ◌%◌, ◌^◌, ltb, leb, ◌==◌, if◌then◌else◌, bit_and, Bytes, List,
}
use redis_agent.Common.Int.{ℤ, pos, negsuc, signed}
use redis_agent.Reader.{
  Reader, ◌>>=◌, ◌>>◌, pure, raise, within, repeat_read, bad_listpack_end, bad_listpack_entry,
  read_byte, read_bytes,
}
use redis_agent.Numbers.{read_uint16, read_uint24, read_uint32, read_uint64}
use redis_agent.Decimal.{format_int}
use redis_agent.Text.{read_string}

-- The masks and tags of listpack.go.
abbrev pub lp_encoding_7_bit_uint_mask : ℕ
lp_encoding_7_bit_uint_mask = 0x80

abbrev pub lp_encoding_6_bit_str_mask : ℕ
lp_encoding_6_bit_str_mask = 0xc0

abbrev pub lp_encoding_13_bit_int_mask : ℕ
lp_encoding_13_bit_int_mask = 0xe0

abbrev pub lp_encoding_12_bit_str_mask : ℕ
lp_encoding_12_bit_str_mask = 0xf0

abbrev pub lp_encoding_whole_mask : ℕ
lp_encoding_whole_mask = 0xff

-- How many bytes the length of an entry takes behind it.
unfoldable pub lp_encode_backlen : ℕ → ℕ
lp_encode_backlen n =
    if leb n 127
    then 1
    else if ltb n 16383
    then 2
    else if ltb n 2097151
    then 3
    else if ltb n 268435455
    then 4
    else 5

-- `-val - 1`
abbrev pub complement : ℤ → ℤ
complement (pos n) = negsuc n
complement (negsuc n) = pos n

-- The two's complement reading of `uval`; the subtraction is that of `uint64`.
unfoldable pub to_signed : ℕ → ℕ → ℕ → ℤ
to_signed uval negstart negmax =
    if leb negstart uval
    then complement (signed 64 ((negmax + 2 ^ 64 - uval) % 2 ^ 64))
    else signed 64 uval

-- The branches for a number: its bytes, the bytes of the back length, and the decimal print.
unfoldable pub number_entry : Reader ℕ → ℕ → ℕ → ℕ → Reader Bytes
number_entry read negstart negmax size = do
  uval ← read
  read_bytes (pos (lp_encode_backlen size))
  pure (format_int (to_signed uval negstart negmax))

-- The branches for a string of a known length behind a header.
unfoldable pub string_entry : ℕ → ℕ → Reader Bytes
string_entry header size = do
  ele ← read_bytes (pos size)
  read_bytes (pos (lp_encode_backlen (header + size)))
  pure ele

unfoldable pub read_entry_from : ℕ → Reader Bytes
read_entry_from b s =
    if bit_and b lp_encoding_7_bit_uint_mask == 0x00
    then number_entry (pure (bit_and b 0x7f)) (2 ^ 64 - 1) 0 1 s
    else if bit_and b lp_encoding_6_bit_str_mask == 0x80
    then string_entry 1 (bit_and b 0x3f) s
    else if bit_and b lp_encoding_13_bit_int_mask == 0xc0
    then number_entry (do second ← read_byte; pure (bit_and b 0x1f * 2 ^ 8 + second)) (2 ^ 12) 8191
        2 s
    else if bit_and b lp_encoding_whole_mask == 0xf1
    then number_entry read_uint16 (2 ^ 15) 65535 2 s
    else if bit_and b lp_encoding_whole_mask == 0xf2
    then number_entry read_uint24 (2 ^ 23) (2 ^ 24 - 1) (1 + 3) s
    else if bit_and b lp_encoding_whole_mask == 0xf3
    then number_entry read_uint32 (2 ^ 31) (2 ^ 32 - 1) (1 + 4) s
    else if bit_and b lp_encoding_whole_mask == 0xf4
    then number_entry read_uint64 (2 ^ 63) (2 ^ 64 - 1) (1 + 8) s
    else if bit_and b lp_encoding_12_bit_str_mask == 0xe0
    then (do second ← read_byte; string_entry 2 (bit_and b 0x0f * 2 ^ 8 + second)) s
    else if bit_and b lp_encoding_whole_mask == 0xf0
    then (do size ← read_uint32; string_entry 5 size) s
    else raise (bad_listpack_entry b) s

unfoldable pub read_listpack_entry : Reader Bytes
read_listpack_entry = do b ← read_byte; read_entry_from b

-- The last byte must be 0xFF.
abbrev pub check_end : List Bytes → ℕ → Reader (List Bytes)
check_end elements last s =
    if last == 0xff then pure elements s else raise (bad_listpack_end last) s

-- The content of the string: the size in bytes, the number of entries, the entries and the end.
unfoldable pub read_packed : Reader (List Bytes)
read_packed = do
  read_uint32
  size ← read_uint16
  elements ← repeat_read size read_listpack_entry
  last ← read_byte
  check_end elements last

unfoldable pub read_listpack : Reader (List Bytes)
read_listpack = do inner ← read_string; within read_packed inner
