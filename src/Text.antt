-- ===== src/Text.antt =====
-- internal/rdb/structure/string.go `ReadString`: a string of RDB in one of its encodings.
pub mod RoundTrip
pub mod Ends
use redis_agent.Common.{ℕ, ◌==◌, if◌then◌else◌, Bytes}
use redis_agent.Common.Int.{int_of_u64}
use redis_agent.Reader.{Reader, ◌>>=◌, pure, raise, lift, unknown_string_type, read_bytes}
use redis_agent.Numbers.{read_int8, read_int16, read_int32}
use redis_agent.Length.{Encoded, plain, special, failed, read_encoded_length, read_length}
use redis_agent.Decimal.{format_int}
use redis_agent.Lzf.{lzf_decompress}

abbrev pub rdb_enc_int8 : ℕ
rdb_enc_int8 = 0

abbrev pub rdb_enc_int16 : ℕ
rdb_enc_int16 = 1

abbrev pub rdb_enc_int32 : ℕ
rdb_enc_int32 = 2

abbrev pub rdb_enc_lzf : ℕ
rdb_enc_lzf = 3

-- The compressed length, the length of the result and the compressed bytes.
unfoldable pub read_lzf : Reader Bytes
read_lzf = do
  in_len ← read_length
  out_len ← read_length
  input ← read_bytes (int_of_u64 in_len)
  lift (lzf_decompress input (int_of_u64 out_len))

-- The `switch length` of a special encoding.
unfoldable pub read_special : ℕ → Reader Bytes
read_special n s =
    if n == rdb_enc_int8
    then (do v ← read_int8; pure (format_int v)) s
    else if n == rdb_enc_int16
    then (do v ← read_int16; pure (format_int v)) s
    else if n == rdb_enc_int32
    then (do v ← read_int32; pure (format_int v)) s
    else if n == rdb_enc_lzf
    then read_lzf s
    else raise (unknown_string_type n) s

abbrev pub read_body : Encoded → Reader Bytes
read_body (plain n) = read_bytes (int_of_u64 n)
read_body (special n) = read_special n
read_body (failed e) = raise e

unfoldable pub read_string : Reader Bytes
read_string = do e ← read_encoded_length; read_body e
