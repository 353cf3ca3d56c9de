-- ===== src/Text/RoundTrip.antt =====
-- Strings as Redis writes them (`rdbSaveRawString`), and what `ReadString` makes of them.
use redis_agent.Common.{ℕ, ◌^◌, ◌<◌, Bytes, List, [], ◌∷◌, ◌++◌, length, ◌≡◌, ap, ◌∙◌, arith}
use redis_agent.Common.Int.{ℤ, pos}
use redis_agent.Reader.{ok, lift, read_bytes, pure}
use redis_agent.Reader.Laws.{bind_ok, read_bytes_append}
use redis_agent.Numbers.{read_int8, read_int16, read_int32}
use redis_agent.Numbers.Laws.{
  le_bytes, pattern_of, Fits, read_int8-le_bytes, read_int16-le_bytes, read_int32-le_bytes,
}
use redis_agent.Length.{read_encoded_length, read_length}
use redis_agent.Length.RoundTrip.{
  put_length, read_encoded_length-put_length, read_length-put_length,
}
use redis_agent.Length.Counted.{int_of_small}
use redis_agent.Length.Bounds.{read_encoded_length_special}
use redis_agent.Decimal.{format_int}
use redis_agent.Lzf.{lzf_decompress}
use redis_agent.Lzf.Tokens
use redis_agent.Lzf.Tokens.{Token, put_tokens, expand, lzf_decompress-put_tokens}
use redis_agent.Text.{read_body, read_string, read_special, read_lzf}

-- A string with its length in front.
abbrev pub put_raw : Bytes → Bytes → Bytes
put_raw t s = put_length (length t) (t ++ s)

-- Every string shorter than 2 ^ 63 bytes is read back, and what follows it is left.
pub read_string-put_raw : (t s : Bytes) → length t < 2 ^ 63 → read_string (put_raw t s) ≡ ok (t, s)
unfolding read_string
read_string-put_raw t s h =
    bind_ok read_encoded_length read_body (put_raw t s)
      (read_encoded_length-put_length (length t) (t ++ s) (omega arith))
    ∙ rw (int_of_small (length t) h) (read_bytes_append t s)

-- The widths of a number that is written as a string.
pub data SmallWidth : Type 0 where
  one two four : SmallWidth

abbrev pub bits : SmallWidth → ℕ
bits one = 8
bits two = 16
bits four = 32

abbrev pub put_number : SmallWidth → ℤ → Bytes → Bytes
put_number one z s = 0xc0 ∷ le_bytes 1 (pattern_of 8 z) ++ s
put_number two z s = 0xc1 ∷ le_bytes 2 (pattern_of 16 z) ++ s
put_number four z s = 0xc2 ∷ le_bytes 4 (pattern_of 32 z) ++ s

-- A string that is stored as a signed number of 8, 16 or 32 bits, which the number must fit, is
-- read as that number's decimal print, and what follows it is left.
pub read_string-put_number :
    (w : SmallWidth) (z : ℤ) (s : Bytes)
    → Fits (bits w) z
    → read_string (put_number w z s) ≡ ok (format_int z, s)
unfolding read_string read_special
read_string-put_number one z s h =
    bind_ok read_encoded_length read_body (put_number one z s)
      (read_encoded_length_special 0xc0 _ (omega arith) (omega arith))
    ∙ bind_ok read_int8 (λ v. pure (format_int v)) (le_bytes 1 (pattern_of 8 z) ++ s)
        (read_int8-le_bytes z s h)
read_string-put_number two z s h =
    bind_ok read_encoded_length read_body (put_number two z s)
      (read_encoded_length_special 0xc1 _ (omega arith) (omega arith))
    ∙ bind_ok read_int16 (λ v. pure (format_int v)) (le_bytes 2 (pattern_of 16 z) ++ s)
        (read_int16-le_bytes z s h)
read_string-put_number four z s h =
    bind_ok read_encoded_length read_body (put_number four z s)
      (read_encoded_length_special 0xc2 _ (omega arith) (omega arith))
    ∙ bind_ok read_int32 (λ v. pure (format_int v)) (le_bytes 4 (pattern_of 32 z) ++ s)
        (read_int32-le_bytes z s h)

-- A compressed string: both lengths, then the tokens.
abbrev pub put_lzf : List Token → Bytes → Bytes
put_lzf ts s =
    0xc3
    ∷ put_length (length (put_tokens ts)) (put_length (length (expand ts [])) (put_tokens ts ++ s))

-- A compressed string is read as what its tokens mean, and what follows it is left: runs of 1 to 32
-- bytes and matches of 3 to 264 bytes that start at most 8192 bytes back, within the output; both
-- the compressed and the plain length are below 2 ^ 63.
pub read_string-put_lzf :
    (ts : List Token) (s : Bytes)
    → Tokens.Fits ts []
    → length (put_tokens ts) < 2 ^ 63
    → length (expand ts []) < 2 ^ 63
    → read_string (put_lzf ts s) ≡ ok (expand ts [], s)
unfolding read_string read_special read_lzf
read_string-put_lzf ts s h hin hout =
    let n = length (put_tokens ts) in
    let m = length (expand ts []) in
    let body = put_length m (put_tokens ts ++ s) in
    bind_ok read_encoded_length read_body (put_lzf ts s)
      (read_encoded_length_special 0xc3 _ (omega arith) (omega arith))
    ∙ bind_ok read_length _ (put_length n body) (read_length-put_length n body (omega arith))
    ∙ bind_ok read_length _ body (read_length-put_length m (put_tokens ts ++ s) (omega arith))
    ∙ rw (int_of_small n hin, int_of_small m hout)
        (bind_ok (read_bytes (pos n)) (λ input. lift (lzf_decompress input (pos m)))
            (put_tokens ts ++ s) (read_bytes_append (put_tokens ts) s)
          ∙ ap (λ r. lift r s) (lzf_decompress-put_tokens ts h))
