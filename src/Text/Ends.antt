-- ===== src/Text/Ends.antt =====
-- Reading lengths and strings ends on every input, and gives no bytes back.
use redis_agent.Common.{ℕ, ◌*◌, ◌^◌, ◌/◌, ◌==◌, bit_and, bit_or, Bytes, length, ◌≢◌, arith}
use redis_agent.Common.Int.{ℤ, pos, negsuc, int_of_u64}
use redis_agent.Reader.{
  Result, ok, panic, stuck, read_byte, read_bytes, read_full, illegal_length, illegal_special,
  unknown_string_type,
}
use redis_agent.Reader.Tame.{
  BriskAt, TameAt, Tame, Brisk, Tame-of_Brisk, pure-Tame, raise-Tame, lift-Tame, if-Tame, bind-Tame,
  bind-Brisk, read_byte-Brisk, read_full-Tame, read_bytes-Tame,
}
use redis_agent.Numbers.{read_int8, read_int16, read_int32}
use redis_agent.Decimal.{format_int}
use redis_agent.Length.{
  Encoded, plain, special, failed, word_of, read_word, read_encoded_from, read_encoded_length,
  plain_length, read_length,
}
use redis_agent.Lzf.{lzf_decompress}
use redis_agent.Lzf.Safety.{Fills, lzf_decompress-Fills}
use redis_agent.Numbers.Ends.{read_int8-Tame, read_int16-Tame, read_int32-Tame}
use redis_agent.Text.{read_lzf, read_special, read_body, read_string}

word_of_at : (r : Result (Bytes × Bytes)) (n : ℕ) → TameAt n r → TameAt n (word_of r)
word_of_at (ok (buf, s)) n h = h
word_of_at (panic e) n h = omega arith
word_of_at stuck n h = h

read_word-Tame : (k : ℕ) → Tame (read_word k)
unfolding read_word
read_word-Tame k = record {
  at = λ s. word_of_at (read_full k s) (length s) ((read_full-Tame k).at s);
}

read_encoded_from-Tame : (b : ℕ) → Tame (read_encoded_from b)
unfolding read_encoded_from
read_encoded_from-Tame b =
    let top = bit_and b 0xc0 / 64 in
    if-Tame (top == 0) _ _ (pure-Tame (plain (bit_and b 0x3f))) (
      if-Tame (top == 1) _ _
        (bind-Tame read_byte _ (Tame-of_Brisk read_byte read_byte-Brisk)
          (λ next. pure-Tame (plain (bit_or (bit_and b 0x3f * 2 ^ 8) next))))
        (if-Tame (top == 2) _ _
          (if-Tame (b == 0x80) _ _ (read_word-Tame 4)
            (if-Tame (b == 0x81) _ _ (read_word-Tame 8) (pure-Tame (failed (illegal_length b)))))
          (if-Tame (top == 3) _ _ (pure-Tame (special (bit_and b 0x3f))) (pure-Tame (plain 0)))))

pub read_encoded_length-Brisk : Brisk read_encoded_length
unfolding read_encoded_length
read_encoded_length-Brisk =
    bind-Brisk read_byte read_encoded_from read_byte-Brisk read_encoded_from-Tame

plain_length-Tame : (e : Encoded) → Tame (plain_length e)
plain_length-Tame (plain n) = pure-Tame n
plain_length-Tame (special n) = raise-Tame (illegal_special n)
plain_length-Tame (failed e) = raise-Tame e

pub read_length-Brisk : Brisk read_length
unfolding read_length
read_length-Brisk =
    bind-Brisk read_encoded_length plain_length read_encoded_length-Brisk plain_length-Tame

pub read_length-Tame : Tame read_length
read_length-Tame = Tame-of_Brisk read_length read_length-Brisk

Fills-not_stuck : (n : ℕ) (r : Result Bytes) → Fills n r → r ≢ stuck
Fills-not_stuck n (ok bs) h e = ground arith
Fills-not_stuck n (panic x) h e = ground arith
Fills-not_stuck n stuck h e = absurd h

lzf_decompress-not_stuck : (input : Bytes) (z : ℤ) → lzf_decompress input z ≢ stuck
lzf_decompress-not_stuck input (pos n) =
    Fills-not_stuck n (lzf_decompress input (pos n)) (lzf_decompress-Fills input n)
lzf_decompress-not_stuck input (negsuc n) = unfold lzf_decompress in λ e. ground arith

read_lzf-Tame : Tame read_lzf
unfolding read_lzf
read_lzf-Tame = bind-Tame read_length _ read_length-Tame (λ in_len.
    bind-Tame read_length _ read_length-Tame (λ out_len.
      bind-Tame (read_bytes (int_of_u64 in_len)) _ (read_bytes-Tame (int_of_u64 in_len)) (λ input.
        lift-Tame (lzf_decompress input (int_of_u64 out_len))
          (lzf_decompress-not_stuck input (int_of_u64 out_len)))))

read_special-Tame : (n : ℕ) → Tame (read_special n)
unfolding read_special
read_special-Tame n =
    if-Tame (n == 0) _ _ (bind-Tame read_int8 _ read_int8-Tame (λ v. pure-Tame (format_int v))) (
      if-Tame (n == 1) _ _ (bind-Tame read_int16 _ read_int16-Tame (λ v. pure-Tame (format_int v)))
        (if-Tame (n == 2) _ _
          (bind-Tame read_int32 _ read_int32-Tame (λ v. pure-Tame (format_int v)))
          (if-Tame (n == 3) _ _ read_lzf-Tame (raise-Tame (unknown_string_type n)))))

read_body-Tame : (e : Encoded) → Tame (read_body e)
read_body-Tame (plain n) = read_bytes-Tame (int_of_u64 n)
read_body-Tame (special n) = read_special-Tame n
read_body-Tame (failed e) = raise-Tame e

pub read_string-Brisk : Brisk read_string
unfolding read_string
read_string-Brisk =
    bind-Brisk read_encoded_length read_body read_encoded_length-Brisk read_body-Tame

pub read_string-Tame : Tame read_string
read_string-Tame = Tame-of_Brisk read_string read_string-Brisk

-- On every input `ReadString` ends: it panics, or it gives a string and has taken a byte at least.
pub read_string-BriskAt : (s : Bytes) → BriskAt (length s) (read_string s)
read_string-BriskAt s = read_string-Brisk.at s
