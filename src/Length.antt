-- ===== src/Length.antt =====
-- internal/rdb/structure/length.go: the length prefix of RDB.
pub mod RoundTrip
pub mod Bounds
pub mod Counted
use redis_agent.Common.{ℕ, ◌+◌, ◌*◌, ◌/◌, ◌^◌, ◌==◌, if◌then◌else◌, bit_and, bit_or, Bytes, []}
use redis_agent.Reader.{
  Fault, illegal_special, illegal_length, Result, ok, panic, stuck, Reader, ◌>>=◌, pure, raise,
  read_byte, read_full,
}
use redis_agent.Numbers.{be_value}

-- The constants of length.go: the two top bits of the first byte, and two whole first bytes.
abbrev pub rdb_6_byte_len : ℕ
rdb_6_byte_len = 0

abbrev pub rdb_14_byte_len : ℕ
rdb_14_byte_len = 1

abbrev pub len_32or64_bit : ℕ
len_32or64_bit = 2

abbrev pub len_special : ℕ
len_special = 3

abbrev pub rdb_32_byte_len : ℕ
rdb_32_byte_len = 0x80

abbrev pub rdb_64_byte_len : ℕ
rdb_64_byte_len = 0x81

-- The results `(length, special, err)`: a plain length, a special encoding, or an error.
pub data Encoded : Type 0 where
  plain : ℕ → Encoded
  special : ℕ → Encoded
  failed : Fault → Encoded

-- `io.ReadFull(rd, lengthBuffer[0:n])` and its error; a failed read drains the reader.
abbrev pub word_of : Result (Bytes × Bytes) → Result (Encoded × Bytes)
word_of (ok (buf, s)) = ok (plain (be_value buf), s)
word_of (panic e) = ok (failed e, [])
word_of stuck = stuck

unfoldable pub read_word : ℕ → Reader Encoded
unfolding read_full
read_word n s = word_of (read_full n s)

-- The `switch first2bits`.
unfoldable pub read_encoded_from : ℕ → Reader Encoded
unfolding read_byte
read_encoded_from b s =
    let top = bit_and b 0xc0 / 64 in
    if top == rdb_6_byte_len
    then pure (plain (bit_and b 0x3f)) s
    else if top == rdb_14_byte_len
    then (do next ← read_byte; pure (plain (bit_or (bit_and b 0x3f * 2 ^ 8) next))) s
    else if top == len_32or64_bit
    then (if b == rdb_32_byte_len
        then read_word 4 s
        else if b == rdb_64_byte_len
        then read_word 8 s
        else pure (failed (illegal_length b)) s)
    else if top == len_special
    then pure (special (bit_and b 0x3f)) s
    else pure (plain 0) s

unfoldable pub read_encoded_length : Reader Encoded
unfolding read_byte read_encoded_from
read_encoded_length = do b ← read_byte; read_encoded_from b

abbrev pub plain_length : Encoded → Reader ℕ
plain_length (plain n) = pure n
plain_length (special n) = raise (illegal_special n)
plain_length (failed e) = raise e

-- `ReadLength`
unfoldable pub read_length : Reader ℕ
read_length = do e ← read_encoded_length; plain_length e
