-- ===== src/Intset.antt =====
-- internal/rdb/structure/intset.go: the sorted array of integers of one width.
pub mod RoundTrip
pub mod Ends
use redis_agent.Common.{ℕ, ◌==◌, if◌then◌else◌, Bytes, List, []}
use redis_agent.Common.Int.{pos, signed, rounds}
use redis_agent.Reader.{Reader, ◌>>=◌, ◌>>◌, pure, within, repeat_read, read_bytes}
use redis_agent.Numbers.{read_uint32, le_value}
use redis_agent.Decimal.{format_int}
use redis_agent.Text.{read_string}

-- The `switch encodingType`; any other width leaves the string empty.
unfoldable pub int_string : ℕ → Bytes → Bytes
int_string encoding_type int_bytes =
    if encoding_type == 2
    then format_int (signed 16 (le_value int_bytes))
    else if encoding_type == 4
    then format_int (signed 32 (le_value int_bytes))
    else if encoding_type == 8
    then format_int (signed 64 (le_value int_bytes))
    else []

unfoldable pub read_member : ℕ → Reader Bytes
read_member encoding_type = do
  int_bytes ← read_bytes (pos encoding_type)
  pure (int_string encoding_type int_bytes)

-- The content of the string: the width, the number of members and the members.
unfoldable pub read_int_members : Reader (List Bytes)
read_int_members = do
  encoding_type ← read_uint32
  size ← read_uint32
  repeat_read size (read_member encoding_type)

unfoldable pub read_intset : Reader (List Bytes)
read_intset = do inner ← read_string; within read_int_members inner
