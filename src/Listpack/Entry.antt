-- ===== src/Listpack/Entry.antt =====
-- The entries of a packed list as Redis writes them (`lpEncodeIntegerGetType`, `lpEncodeString`),
-- and what listpack.go reads back.
use redis_agent.Common.{
  ℕ, ◌+◌, ◌-◌, ◌*◌, ◌/◌, ◌%◌, ◌^◌, ◌<◌, ◌≤◌, bit_and, Bytes, [], ◌∷◌, ◌++◌, length, ◌≡◌, refl, ◌∙◌,
  arith, ap,
}
use redis_agent.Common.Bits.{
  mask_80, mask_c0, mask_e0, mask_f0, mask_ff, low_seven, low_six, low_five, low_four,
}
use redis_agent.Common.Int.{ℤ, pos, negsuc}
use redis_agent.Reader.{ok, Reader, ◌>>=◌, pure, read_byte, read_bytes}
use redis_agent.Reader.Laws.{bind_ok, read_bytes_append}
use redis_agent.Numbers.{read_uint16, read_uint24, read_uint32, read_uint64}
use redis_agent.Numbers.Laws.{
  le_bytes, pattern_of, Fits, read_uint16-le_bytes, read_uint24-le_bytes, read_uint32-le_bytes,
  read_uint64-le_bytes,
}
use redis_agent.Decimal.{format_int}
use redis_agent.Listpack.{
  lp_encode_backlen, to_signed, number_entry, string_entry, read_entry_from, read_listpack_entry,
}

-- The encodings of an entry.
pub data Encoding : Type 0 where
  uint7 int13 int16 int24 int32 int64 : ℤ → Encoding
  str6 str12 str32 : Bytes → Encoding

abbrev pub header : Encoding → Bytes
header (uint7 z) = le_bytes 1 (pattern_of 7 z)
header (int13 z) = (0xc0 + pattern_of 13 z / 256) ∷ (pattern_of 13 z % 256) ∷ []
header (int16 z) = 0xf1 ∷ le_bytes 2 (pattern_of 16 z)
header (int24 z) = 0xf2 ∷ le_bytes 3 (pattern_of 24 z)
header (int32 z) = 0xf3 ∷ le_bytes 4 (pattern_of 32 z)
header (int64 z) = 0xf4 ∷ le_bytes 8 (pattern_of 64 z)
header (str6 t) = (0x80 + length t) ∷ t
header (str12 t) = (0xe0 + length t / 256) ∷ (length t % 256) ∷ t
header (str32 t) = 0xf0 ∷ le_bytes 4 (length t) ++ t

-- What the entry stands for, in the form in which listpack.go gives it out.
abbrev pub meaning : Encoding → Bytes
meaning (uint7 z) = format_int z
meaning (int13 z) = format_int z
meaning (int16 z) = format_int z
meaning (int24 z) = format_int z
meaning (int32 z) = format_int z
meaning (int64 z) = format_int z
meaning (str6 t) = t
meaning (str12 t) = t
meaning (str32 t) = t

abbrev pub EncodingFits : Encoding → Type 0
EncodingFits (uint7 (pos n)) = n < 128
EncodingFits (uint7 (negsuc n)) = ⊥
EncodingFits (int13 z) = Fits 13 z
EncodingFits (int16 z) = Fits 16 z
EncodingFits (int24 z) = Fits 24 z
EncodingFits (int32 z) = Fits 32 z
EncodingFits (int64 z) = Fits 64 z
EncodingFits (str6 t) = length t < 64
EncodingFits (str12 t) = length t < 4096
EncodingFits (str32 t) = length t < 2 ^ 32

-- The length whose encoded length stands behind the entry: that of its header and content.
abbrev pub entry_size : Encoding → ℕ
entry_size e = length (header e)

to_signed_7 : (n : ℕ) → n < 128 → to_signed n (2 ^ 64 - 1) 0 ≡ pos n
unfolding to_signed
to_signed_7 n h = ground arith

to_signed_13 : (z : ℤ) → Fits 13 z → to_signed (pattern_of 13 z) (2 ^ 12) 8191 ≡ z
unfolding to_signed
to_signed_13 (pos n) h = ground arith
to_signed_13 (negsuc n) h = ground arith

to_signed_16 : (z : ℤ) → Fits 16 z → to_signed (pattern_of 16 z) (2 ^ 15) 65535 ≡ z
unfolding to_signed
to_signed_16 (pos n) h = ground arith
to_signed_16 (negsuc n) h = ground arith

to_signed_24 : (z : ℤ) → Fits 24 z → to_signed (pattern_of 24 z) (2 ^ 23) (2 ^ 24 - 1) ≡ z
unfolding to_signed
to_signed_24 (pos n) h = ground arith
to_signed_24 (negsuc n) h = ground arith

to_signed_32 : (z : ℤ) → Fits 32 z → to_signed (pattern_of 32 z) (2 ^ 31) (2 ^ 32 - 1) ≡ z
unfolding to_signed
to_signed_32 (pos n) h = ground arith
to_signed_32 (negsuc n) h = ground arith

to_signed_64 : (z : ℤ) → Fits 64 z → to_signed (pattern_of 64 z) (2 ^ 63) (2 ^ 64 - 1) ≡ z
unfolding to_signed
to_signed_64 (pos n) h = ground arith
to_signed_64 (negsuc n) h = ground arith

-- A pattern is a word of its width.
pattern_of-lt :
    (w : ℕ) (z : ℤ) → 0 < 2 ^ (w - 1) → 2 ^ (w - 1) ≤ 2 ^ w → Fits w z → pattern_of w z < 2 ^ w
pattern_of-lt w (pos n) p q h = omega arith
pattern_of-lt w (negsuc n) p q h = omega arith

number_entry_ok :
    (read : Reader ℕ) (negstart negmax size uval : ℕ) (s back rest : Bytes)
    → read s ≡ ok (uval, back ++ rest)
    → length back ≡ lp_encode_backlen size
    → number_entry read negstart negmax size s
      ≡ ok (format_int (to_signed uval negstart negmax), rest)
unfolding number_entry
number_entry_ok read negstart negmax size uval s back rest h k =
    bind_ok read _ s h
    ∙ rw (← k)
        (bind_ok (read_bytes (pos (length back))) _ (back ++ rest) (read_bytes_append back rest))

string_entry_ok :
    (n : ℕ) (t back rest : Bytes)
    → length back ≡ lp_encode_backlen (n + length t)
    → string_entry n (length t) (t ++ (back ++ rest)) ≡ ok (t, rest)
unfolding string_entry
string_entry_ok n t back rest k =
    bind_ok (read_bytes (pos (length t))) _ (t ++ (back ++ rest))
      (read_bytes_append t (back ++ rest))
    ∙ rw (← k)
        (bind_ok (read_bytes (pos (length back))) _ (back ++ rest) (read_bytes_append back rest))

-- The dispatch on the first byte, where that is not a fixed one.
dispatch_uint7 :
    (b : ℕ) (s : Bytes) → b < 128 → read_entry_from b s ≡ number_entry (pure b) (2 ^ 64 - 1) 0 1 s
unfolding read_entry_from
dispatch_uint7 b s h =
    let m : bit_and b 0x80 ≡ 0 = mask_80 b (omega arith) ∙ omega arith in
    let v : bit_and b 0x7f ≡ b = low_seven b (omega arith) ∙ omega arith in rw (m, v)

dispatch_str6 : (n : ℕ) (s : Bytes) → n < 64 → read_entry_from (0x80 + n) s ≡ string_entry 1 n s
unfolding read_entry_from
dispatch_str6 n s h = ground (arith, mask_80 (0x80 + n), mask_c0 (0x80 + n), low_six (0x80 + n))

dispatch_int13 :
    (hi : ℕ) (s : Bytes)
    → hi < 32
    → read_entry_from (0xc0 + hi) s
      ≡ number_entry (do second ← read_byte; pure (hi * 2 ^ 8 + second)) (2 ^ 12) 8191 2 s
unfolding read_entry_from
dispatch_int13 hi s h =
    let b = 0xc0 + hi in
    let m : bit_and b 0x80 ≡ 128 = mask_80 b (omega arith) ∙ omega arith in
    let c : bit_and b 0xc0 ≡ 192 = mask_c0 b (omega arith) ∙ omega arith in
    let e : bit_and b 0xe0 ≡ 192 = mask_e0 b (omega arith) ∙ omega arith in
    let v : bit_and b 0x1f ≡ hi = low_five b (omega arith) ∙ omega arith in rw (m, c, e, v)

dispatch_str12 :
    (hi lo : ℕ) (s : Bytes)
    → hi < 16
    → read_entry_from (0xe0 + hi) (lo ∷ s) ≡ string_entry 2 (hi * 2 ^ 8 + lo) s
unfolding read_entry_from read_byte
dispatch_str12 hi lo s h = ground (
  arith,
  mask_80 (0xe0 + hi),
  mask_c0 (0xe0 + hi),
  mask_e0 (0xe0 + hi),
  mask_f0 (0xe0 + hi),
  mask_ff (0xe0 + hi),
  low_four (0xe0 + hi),
)

two_bytes :
    (hi lo : ℕ) (s : Bytes)
    → (do second ← read_byte; pure (hi * 2 ^ 8 + second)) (lo ∷ s) ≡ ok (hi * 2 ^ 8 + lo, s)
unfolding read_byte
two_bytes hi lo s = refl

-- An entry in any of the nine encodings, its number or length within the encoding's range, is read
-- back as its meaning: a number as its decimal print, a string as it is. The back length, which
-- must be as long as `lp_encode_backlen` says, is skipped whatever it holds, and what follows is
-- left.
pub read_listpack_entry-header :
    (e : Encoding) (back rest : Bytes)
    → EncodingFits e
    → length back ≡ lp_encode_backlen (entry_size e)
    → read_listpack_entry (header e ++ (back ++ rest)) ≡ ok (meaning e, rest)
unfolding read_listpack_entry read_byte
read_listpack_entry-header (uint7 (negsuc n)) back rest h k = absurd h
read_listpack_entry-header (uint7 (pos n)) back rest h k =
    let same : n % 256 ≡ n = omega arith in
    rw same (
      dispatch_uint7 n (back ++ rest) h
      ∙ number_entry_ok (pure n) _ _ 1 n (back ++ rest) back rest refl k
      ∙ ap (λ v. ok (format_int v, rest)) (to_signed_7 n h))
read_listpack_entry-header (int13 z) back rest h k =
    let p = pattern_of 13 z in
    let small = pattern_of-lt 13 z (omega arith) (omega arith) h in
    let whole : p / 256 * 2 ^ 8 + p % 256 ≡ p = omega arith in
    dispatch_int13 (p / 256) ((p % 256) ∷ (back ++ rest)) (omega arith)
    ∙ number_entry_ok _ _ _ 2 (p / 256 * 2 ^ 8 + p % 256) _ back rest
        (two_bytes (p / 256) (p % 256) (back ++ rest)) k
    ∙ rw whole (ap (λ v. ok (format_int v, rest)) (to_signed_13 z h))
read_listpack_entry-header (int16 z) back rest h k =
    unfold read_entry_from in
    number_entry_ok read_uint16 _ _ 2 (pattern_of 16 z) _ back rest
      (read_uint16-le_bytes (pattern_of 16 z) (back ++ rest)
        (pattern_of-lt 16 z (omega arith) (omega arith) h))
      (k ∙ unfold lp_encode_backlen in refl)
    ∙ ap (λ v. ok (format_int v, rest)) (to_signed_16 z h)
read_listpack_entry-header (int24 z) back rest h k =
    unfold read_entry_from in
    number_entry_ok read_uint24 _ _ 4 (pattern_of 24 z) _ back rest
      (read_uint24-le_bytes (pattern_of 24 z) (back ++ rest)
        (pattern_of-lt 24 z (omega arith) (omega arith) h))
      k
    ∙ ap (λ v. ok (format_int v, rest)) (to_signed_24 z h)
read_listpack_entry-header (int32 z) back rest h k =
    unfold read_entry_from in
    number_entry_ok read_uint32 _ _ 5 (pattern_of 32 z) _ back rest
      (read_uint32-le_bytes (pattern_of 32 z) (back ++ rest)
        (pattern_of-lt 32 z (omega arith) (omega arith) h))
      k
    ∙ ap (λ v. ok (format_int v, rest)) (to_signed_32 z h)
read_listpack_entry-header (int64 z) back rest h k =
    unfold read_entry_from in
    number_entry_ok read_uint64 _ _ 9 (pattern_of 64 z) _ back rest
      (read_uint64-le_bytes (pattern_of 64 z) (back ++ rest)
        (pattern_of-lt 64 z (omega arith) (omega arith) h))
      k
    ∙ ap (λ v. ok (format_int v, rest)) (to_signed_64 z h)
read_listpack_entry-header (str6 t) back rest h k =
    dispatch_str6 (length t) (t ++ (back ++ rest)) h
    ∙ string_entry_ok 1 t back rest (k ∙ ap lp_encode_backlen (omega arith))
read_listpack_entry-header (str12 t) back rest h k =
    let n = length t in
    let whole : n / 256 * 2 ^ 8 + n % 256 ≡ n = omega arith in
    dispatch_str12 (n / 256) (n % 256) (t ++ (back ++ rest)) (omega arith)
    ∙ rw whole (string_entry_ok 2 t back rest (k ∙ ap lp_encode_backlen (omega arith)))
read_listpack_entry-header (str32 t) back rest h k =
    unfold read_entry_from in
    bind_ok read_uint32 (λ size. string_entry 5 size) _
      (read_uint32-le_bytes (length t) (t ++ (back ++ rest)) h)
    ∙ string_entry_ok 5 t back rest (k ∙ ap lp_encode_backlen (omega arith))
