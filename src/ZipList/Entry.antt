-- ===== src/ZipList/Entry.antt =====
-- The entries of a ziplist as Redis writes them, and what ziplist.go reads back.
use redis_agent.Common.{
  ℕ, ◌+◌, ◌*◌, ◌/◌, ◌%◌, ◌^◌, ◌<◌, ◌≤◌, bit_and, Bytes, [], ◌∷◌, ◌++◌, length, ◌≡◌, refl, ◌∙◌,
  arith,
}
use redis_agent.Common.Bits.{top_two, low_six, low_four}
use redis_agent.Common.Int.{ℤ, pos}
use redis_agent.Reader.{ok, Reader, ◌>>=◌, pure, read_byte, read_bytes}
use redis_agent.Reader.Laws.{bind_ok, read_bytes_append}
use redis_agent.Numbers.{
  read_uint32, read_int8, read_int16, read_int24, read_int32, read_int64, be_value,
}
use redis_agent.Numbers.Laws.{
  le_bytes, be_bytes, pattern_of, Fits, read_uint32-le_bytes, read_int8-le_bytes,
  read_int16-le_bytes, read_int24-le_bytes, read_int32-le_bytes, read_int64-le_bytes,
}
use redis_agent.Length.RoundTrip.{join_bytes}
use redis_agent.Decimal.{format_int}
use redis_agent.ZipList.{
  read_immediate, read_zip_number, read_zip_content, skip_prevlen, read_zip_list_entry, read_next,
}

-- The length of the entry before: a byte below 254, or a word behind 0xFE.
pub data Prevlen : Type 0 where
  short long : ℕ → Prevlen

abbrev pub put_prevlen : Prevlen → Bytes → Bytes
put_prevlen (short n) s = n ∷ s
put_prevlen (long n) s = 0xfe ∷ le_bytes 4 n ++ s

abbrev pub PrevlenFits : Prevlen → Type 0
PrevlenFits (short n) = n < 254
PrevlenFits (long n) = n < 2 ^ 32

-- The encodings of an entry.
pub data Content : Type 0 where
  immediate : ℕ → Content
  int8 int16 int24 int32 int64 : ℤ → Content
  str6 str14 str32 : Bytes → Content

abbrev pub put_content : Content → Bytes → Bytes
put_content (immediate n) s = (0xf1 + n) ∷ s
put_content (int8 z) s = 0xfe ∷ le_bytes 1 (pattern_of 8 z) ++ s
put_content (int16 z) s = 0xc0 ∷ le_bytes 2 (pattern_of 16 z) ++ s
put_content (int24 z) s = 0xf0 ∷ le_bytes 3 (pattern_of 24 z) ++ s
put_content (int32 z) s = 0xd0 ∷ le_bytes 4 (pattern_of 32 z) ++ s
put_content (int64 z) s = 0xe0 ∷ le_bytes 8 (pattern_of 64 z) ++ s
put_content (str6 t) s = length t ∷ t ++ s
put_content (str14 t) s = (0x40 + length t / 256) ∷ (length t % 256) ∷ t ++ s
put_content (str32 t) s = 0x80 ∷ be_bytes 4 (length t) (t ++ s)

abbrev pub shown : Content → Bytes
shown (immediate n) = format_int (pos n)
shown (int8 z) = format_int z
shown (int16 z) = format_int z
shown (int24 z) = format_int z
shown (int32 z) = format_int z
shown (int64 z) = format_int z
shown (str6 t) = t
shown (str14 t) = t
shown (str32 t) = t

abbrev pub ContentFits : Content → Type 0
ContentFits (immediate n) = n ≤ 12
ContentFits (int8 z) = Fits 8 z
ContentFits (int16 z) = Fits 16 z
ContentFits (int24 z) = Fits 24 z
ContentFits (int32 z) = Fits 32 z
ContentFits (int64 z) = Fits 64 z
ContentFits (str6 t) = length t < 64
ContentFits (str14 t) = length t < 16384
ContentFits (str32 t) = length t < 2 ^ 32

-- The dispatch on the encoding byte, where that is not a fixed one.
dispatch_str6 : (n : ℕ) (s : Bytes) → n < 64 → read_zip_content n s ≡ read_bytes (pos n) s
unfolding read_zip_content
dispatch_str6 n s h =
    let t : bit_and n 0xc0 / 64 ≡ 0 = top_two n (omega arith) ∙ omega arith in
    let v : bit_and n 0x3f ≡ n = low_six n (omega arith) ∙ omega arith in rw (t, v)

dispatch_str14 :
    (hi lo : ℕ) (s : Bytes)
    → hi < 64
    → lo < 256
    → read_zip_content (0x40 + hi) (lo ∷ s) ≡ read_bytes (pos (hi * 256 + lo)) s
unfolding read_zip_content read_byte
dispatch_str14 hi lo s h k =
    let b = 0x40 + hi in
    let t : bit_and b 0xc0 / 64 ≡ 1 = top_two b (omega arith) ∙ omega arith in
    let v : bit_and b 0x3f ≡ hi = low_six b (omega arith) ∙ omega arith in
    rw (t, v, join_bytes hi lo h k)

dispatch_immediate :
    (n : ℕ) (s : Bytes) → n ≤ 12 → read_zip_content (0xf1 + n) s ≡ ok (format_int (pos n), s)
unfolding read_zip_content read_zip_number read_immediate
dispatch_immediate n s h =
    let b = 0xf1 + n in
    let t : bit_and b 0xc0 / 64 ≡ 3 = top_two b (omega arith) ∙ omega arith in
    let v : bit_and b 0x0f ≡ n + 1 = low_four b (omega arith) ∙ omega arith in
    rw (t, v) (ground arith)

be_word :
    (n : ℕ) (s : Bytes) → n < 2 ^ 32 → read_bytes (pos 4) (be_bytes 4 n s) ≡ ok (be_bytes 4 n [], s)
unfolding read_bytes
be_word n s h = refl

be_value-be_bytes : (n : ℕ) → n < 2 ^ 32 → be_value (be_bytes 4 n []) ≡ n
be_value-be_bytes n h = omega arith

printed :
    (read : Reader ℤ) (s s' : Bytes) (z : ℤ)
    → read s ≡ ok (z, s')
    → (do v ← read; pure (format_int v)) s ≡ ok (format_int z, s')
printed read s s' z h = bind_ok read (λ v. pure (format_int v)) s h

pub read_content :
    (c : Content) (s : Bytes)
    → ContentFits c
    → (read_byte >>= read_zip_content) (put_content c s) ≡ ok (shown c, s)
unfolding read_byte
read_content (immediate n) s h = dispatch_immediate n s h
read_content (int8 z) s h =
    unfold read_zip_content read_zip_number in printed read_int8 _ s z (read_int8-le_bytes z s h)
read_content (int16 z) s h =
    unfold read_zip_content read_zip_number in printed read_int16 _ s z (read_int16-le_bytes z s h)
read_content (int24 z) s h =
    unfold read_zip_content read_zip_number in printed read_int24 _ s z (read_int24-le_bytes z s h)
read_content (int32 z) s h =
    unfold read_zip_content read_zip_number in printed read_int32 _ s z (read_int32-le_bytes z s h)
read_content (int64 z) s h =
    unfold read_zip_content read_zip_number in printed read_int64 _ s z (read_int64-le_bytes z s h)
read_content (str6 t) s h = dispatch_str6 (length t) (t ++ s) h ∙ read_bytes_append t s
read_content (str14 t) s h =
    let n = length t in
    let whole : n / 256 * 256 + n % 256 ≡ n = omega arith in
    dispatch_str14 (n / 256) (n % 256) (t ++ s) (omega arith) (omega arith)
    ∙ rw whole (read_bytes_append t s)
read_content (str32 t) s h =
    unfold read_zip_content in
    bind_ok (read_bytes (pos 4)) (λ bs. read_bytes (pos (be_value bs))) _
      (be_word (length t) (t ++ s) h)
    ∙ rw (be_value-be_bytes (length t) h) (read_bytes_append t s)

skip_prevlen-long :
    (n : ℕ) (s : Bytes) → n < 2 ^ 32 → skip_prevlen 0xfe (le_bytes 4 n ++ s) ≡ ok (tt, s)
unfolding skip_prevlen
skip_prevlen-long n s h = bind_ok read_uint32 _ _ (read_uint32-le_bytes n s h)

skip_prevlen-short : (n : ℕ) (s : Bytes) → n < 254 → skip_prevlen n s ≡ ok (tt, s)
unfolding skip_prevlen
skip_prevlen-short n s h = ground arith

-- The rest of an entry behind the first byte of its previous length.
pub read_zip_list_entry_short :
    (n : ℕ) (c : Content) (s : Bytes)
    → n < 254
    → ContentFits c
    → read_zip_list_entry n (put_content c s) ≡ ok (shown c, s)
unfolding read_zip_list_entry
read_zip_list_entry_short n c s h k =
    bind_ok (skip_prevlen n) _ _ (skip_prevlen-short n (put_content c s) h) ∙ read_content c s k

-- An entry in any of the nine encodings, its number or length within the encoding's range, behind
-- the length of the one before it, in either form, is read back as what it shows: a number as its
-- decimal print, a string as it is; what follows the entry is left.
pub read_next-put :
    (p : Prevlen) (c : Content) (s : Bytes)
    → PrevlenFits p
    → ContentFits c
    → read_next (put_prevlen p (put_content c s)) ≡ ok (shown c, s)
unfolding read_next
read_next-put (short n) c s h k = unfold read_byte in read_zip_list_entry_short n c s h k
read_next-put (long n) c s h k =
    unfold read_byte read_zip_list_entry in
    bind_ok (skip_prevlen 0xfe) _ _ (skip_prevlen-long n (put_content c s) h)
    ∙ unfold read_byte in read_content c s k
