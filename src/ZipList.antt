-- ===== src/ZipList.antt =====
-- internal/rdb/structure/ziplist.go: the packed list of Redis before version 7.
pub mod Entry
pub mod RoundTrip
pub mod Unknown
pub mod Ends
use redis_agent.Common.{
  ℕ, zero, suc, ◌+◌, ◌-◌, ◌*◌, ◌/◌, ◌^◌, ltb, ◌==◌, if◌then◌else◌, bit_and, bit_or, Bytes, List, [],
  ◌∷◌, length, true, false,
}
use redis_agent.Common.Int.{pos, negsuc, int_of_u64}
use redis_agent.Reader.{
  Reader, Result, stuck, ◌>>=◌, ◌>>◌, pure, raise, within, repeat_read, bad_ziplist_end,
  bad_ziplist_immediate, bad_ziplist_entry, read_byte, read_bytes,
}
use redis_agent.Numbers.{
  read_uint16, read_uint32, read_int8, read_int16, read_int24, read_int32, read_int64, be_value,
}
use redis_agent.Decimal.{format_int}
use redis_agent.Text.{read_string}

abbrev pub zip_str_06b : ℕ
zip_str_06b = 0x00

abbrev pub zip_str_14b : ℕ
zip_str_14b = 0x01

abbrev pub zip_str_32b : ℕ
zip_str_32b = 0x02

abbrev pub zip_int_04b : ℕ
zip_int_04b = 0x0f

abbrev pub zip_int_08b : ℕ
zip_int_08b = 0xfe

abbrev pub zip_int_16b : ℕ
zip_int_16b = 0xc0

abbrev pub zip_int_24b : ℕ
zip_int_24b = 0xf0

abbrev pub zip_int_32b : ℕ
zip_int_32b = 0xd0

abbrev pub zip_int_64b : ℕ
zip_int_64b = 0xe0

-- Four bits that hold 1 to 13 for the numbers 0 to 12.
unfoldable pub read_immediate : ℕ → Reader Bytes
read_immediate b s =
    let v = bit_and b 0x0f in
    if v == 0
    then raise (bad_ziplist_immediate b) s
    else if ltb 12 (v - 1)
    then raise (bad_ziplist_immediate b) s
    else pure (format_int (pos (v - 1))) s

-- The `switch firstByte` over the numbers.
unfoldable pub read_zip_number : ℕ → Reader Bytes
read_zip_number b s =
    if b == zip_int_08b
    then (do v ← read_int8; pure (format_int v)) s
    else if b == zip_int_16b
    then (do v ← read_int16; pure (format_int v)) s
    else if b == zip_int_24b
    then (do v ← read_int24; pure (format_int v)) s
    else if b == zip_int_32b
    then (do v ← read_int32; pure (format_int v)) s
    else if b == zip_int_64b
    then (do v ← read_int64; pure (format_int v)) s
    else if b / 2 ^ 4 == zip_int_04b
    then read_immediate b s
    else raise (bad_ziplist_entry b) s

-- The entry behind its encoding byte: the `switch first2bits`, then the numbers.
unfoldable pub read_zip_content : ℕ → Reader Bytes
read_zip_content b s =
    let top = bit_and b 0xc0 / 2 ^ 6 in
    if top == zip_str_06b
    then read_bytes (pos (bit_and b 0x3f)) s
    else if top == zip_str_14b
    then (do second ← read_byte; read_bytes (pos (bit_or (bit_and b 0x3f * 2 ^ 8) second))) s
    else if top == zip_str_32b
    then (do len_bytes ← read_bytes (pos 4); read_bytes (pos (be_value len_bytes))) s
    else read_zip_number b s

-- The length of the entry before: one byte, already read, or 0xFE and four bytes.
unfoldable pub skip_prevlen : ℕ → Reader (Unit {0})
skip_prevlen first s = if first == 0xfe then (do read_uint32; pure tt) s else pure tt s

unfoldable pub read_zip_list_entry : ℕ → Reader Bytes
read_zip_list_entry first = do skip_prevlen first; b ← read_byte; read_zip_content b

unfoldable pub read_next : Reader Bytes
read_next = do first ← read_byte; read_zip_list_entry first

-- One round of the loop below, behind the read of `firstByte`; `more` is the rest of the loop.
unfoldable pub read_until_from : Reader (List Bytes) → ℕ → Reader (List Bytes)
read_until_from more first s =
    if first == 0xfe
    then pure [] s
    else (do ele ← read_zip_list_entry first; rest ← more; pure (ele ∷ rest)) s

-- `for firstByte := ReadByte(rd); firstByte != 0xFE; firstByte = ReadByte(rd)`. Every round takes
-- a byte at least, so one round more than there are bytes is enough.
unfoldable pub read_until : ℕ → Reader (List Bytes)
read_until zero s = stuck
read_until (suc fuel) s = (read_byte >>= read_until_from (read_until fuel)) s

-- The last byte must be 0xFF.
abbrev pub check_zip_end : List Bytes → ℕ → Reader (List Bytes)
check_zip_end elements last s =
    if last == 0xff then pure elements s else raise (bad_ziplist_end last) s

unfoldable pub read_counted : ℕ → Reader (List Bytes)
read_counted size = do
  elements ← repeat_read size read_next
  last ← read_byte
  check_zip_end elements last

-- The content of the string: two words that are skipped, the number of entries, the entries.
-- With 65535 for the number the entries have to be counted on the way.
unfoldable pub read_zip_entries : ℕ → Reader (List Bytes)
read_zip_entries size s =
    if size == 65535 then read_until (suc (length s)) s else read_counted size s

unfoldable pub read_zip_packed : Reader (List Bytes)
read_zip_packed = do read_uint32; read_uint32; size ← read_uint16; read_zip_entries size

unfoldable pub read_zip_list : Reader (List Bytes)
read_zip_list = do inner ← read_string; within read_zip_packed inner
