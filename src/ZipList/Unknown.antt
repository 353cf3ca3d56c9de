-- ===== src/ZipList/Unknown.antt =====
-- The loop of `ReadZipList` for a ziplist that does not know its number of entries.
use redis_agent.Common.{
  ℕ, zero, suc, ◌+◌, ◌^◌, ◌<◌, ◌≤◌, ◌==◌, Bytes, List, [], ◌∷◌, length, length-append, ◌≡◌, refl,
  ◌∙◌, arith, All, false,
}
use redis_agent.Reader.{ok, panic, short_read, ◌>>=◌, pure, within, read_byte}
use redis_agent.Reader.Laws.{bind_ok, bind_panic}
use redis_agent.Text.{read_string}
use redis_agent.Text.RoundTrip.{put_raw, read_string-put_raw}
use redis_agent.ZipList.{
  read_zip_list_entry, read_until, read_until_from, read_zip_entries, read_zip_packed,
  read_zip_list, skip_prevlen,
}
use redis_agent.ZipList.Entry.{
  Content, put_content, shown, ContentFits, read_zip_list_entry_short, short, long, immediate, int8,
  int16, int24, int32, int64, str6, str14, str32,
}
use redis_agent.ZipList.RoundTrip.{
  Stored, put_entries, all_shown, put_zip_list, read_zip_packed_front,
}

-- Entries whose predecessors are all shorter than 254 bytes.
abbrev pub ShortStored : Stored → Type 0
ShortStored (short n, c) = (n < 254) × ContentFits c
ShortStored (long n, c) = ⊥

not_mark : (n : ℕ) → n < 254 → (n == 0xfe) ≡ false
not_mark n h = ground arith

-- A round of the loop on such an entry.
read_until_step :
    (fuel n : ℕ) (c : Content) (s : Bytes)
    → n < 254
    → ContentFits c
    → read_until (suc fuel) (n ∷ put_content c s)
      ≡ (read_until fuel >>= λ rest. pure (shown c ∷ rest)) s
unfolding read_until read_byte read_until_from
read_until_step fuel n c s h k =
    rw (not_mark n h) (bind_ok (read_zip_list_entry n) _ _ (read_zip_list_entry_short n c s h k))

read_until-long :
    (es : List Stored) (fuel : ℕ) (rest : Bytes)
    → All ShortStored es
    → length es < fuel
    → read_until fuel (put_entries es (0xfe ∷ rest)) ≡ ok (all_shown es, rest)
read_until-long [] zero rest h k = absurd (omega arith)
read_until-long [] (suc fuel) rest h k = unfold read_until read_until_from read_byte in refl
read_until-long (e ∷ es) zero rest h k = absurd (omega arith)
read_until-long ((long n, c) ∷ es) (suc fuel) rest h k = absurd h.0
read_until-long ((short n, c) ∷ es) (suc fuel) rest (h, hs) k =
    read_until_step fuel n c (put_entries es (0xfe ∷ rest)) h.0 h.1
    ∙ bind_ok (read_until fuel) _ _ (read_until-long es fuel rest hs (omega arith))

read_until-end :
    (es : List Stored) (fuel : ℕ)
    → All ShortStored es
    → length es < fuel
    → read_until fuel (put_entries es (0xff ∷ [])) ≡ panic short_read
read_until-end [] zero h k = absurd (omega arith)
read_until-end [] (suc fuel) h k =
    unfold read_until read_until_from read_byte read_zip_list_entry skip_prevlen in refl
read_until-end (e ∷ es) zero h k = absurd (omega arith)
read_until-end ((long n, c) ∷ es) (suc fuel) h k = absurd h.0
read_until-end ((short n, c) ∷ es) (suc fuel) (h, hs) k =
    read_until_step fuel n c (put_entries es (0xff ∷ [])) h.0 h.1
    ∙ bind_panic (read_until fuel) _ _ (read_until-end es fuel hs (omega arith))

read_zip_entries_unknown : (s : Bytes) → read_zip_entries 65535 s ≡ read_until (suc (length s)) s
unfolding read_zip_entries
read_zip_entries_unknown s = refl

length-put_content : (c : Content) (s : Bytes) → length s < length (put_content c s)
length-put_content (immediate n) s = omega arith
length-put_content (int8 z) s = omega arith
length-put_content (int16 z) s = omega arith
length-put_content (int24 z) s = omega arith
length-put_content (int32 z) s = omega arith
length-put_content (int64 z) s = omega arith
length-put_content (str6 t) s = omega (arith, length-append t s)
length-put_content (str14 t) s = omega (arith, length-append t s)
length-put_content (str32 t) s = omega (arith, length-append t s)

length-put_entries :
    (es : List Stored) (s : Bytes) → length es + length s ≤ length (put_entries es s)
length-put_entries [] s = omega arith
length-put_entries ((short n, c) ∷ es) s =
    omega (arith, length-put_entries es s, length-put_content c (put_entries es s))
length-put_entries ((long n, c) ∷ es) s =
    omega (arith, length-put_entries es s, length-put_content c (put_entries es s))

-- A ziplist that carries 65535 for its number of entries is cut off before the first entry whose
-- predecessor is 254 bytes long or longer: `ReadZipList` answers with the entries before that one,
-- and with no error.
pub read_zip_list_cut :
    (zlbytes zltail : ℕ) (es : List Stored) (more s : Bytes)
    → zlbytes < 2 ^ 32
    → zltail < 2 ^ 32
    → All ShortStored es
    → length (put_zip_list zlbytes zltail 65535 (put_entries es (0xfe ∷ more))) < 2 ^ 63
    → read_zip_list (put_raw (put_zip_list zlbytes zltail 65535 (put_entries es (0xfe ∷ more))) s)
      ≡ ok (all_shown es, s)
unfolding read_zip_list
read_zip_list_cut zlbytes zltail es more s hb ht fits size =
    let entries = put_entries es (0xfe ∷ more) in
    let run =
      read_zip_packed_front zlbytes zltail 65535 entries hb ht (omega arith)
      ∙ read_zip_entries_unknown entries
      ∙ read_until-long es (suc (length entries)) more fits
          (omega (arith, length-put_entries es (0xfe ∷ more))) in
    bind_ok read_string (within read_zip_packed) _
      (read_string-put_raw (put_zip_list zlbytes zltail 65535 entries) s size)
    ∙ rw (run, within)

-- Where no entry of a ziplist that carries 65535 for its number of entries has a predecessor of 254
-- bytes or more, the end mark 0xFF is taken for an entry, and `ReadZipList` panics at the end of
-- the string.
pub read_zip_list_no_end :
    (zlbytes zltail : ℕ) (es : List Stored) (s : Bytes)
    → zlbytes < 2 ^ 32
    → zltail < 2 ^ 32
    → All ShortStored es
    → length (put_zip_list zlbytes zltail 65535 (put_entries es (0xff ∷ []))) < 2 ^ 63
    → read_zip_list (put_raw (put_zip_list zlbytes zltail 65535 (put_entries es (0xff ∷ []))) s)
      ≡ panic short_read
unfolding read_zip_list
read_zip_list_no_end zlbytes zltail es s hb ht fits size =
    let entries = put_entries es (0xff ∷ []) in
    let run =
      read_zip_packed_front zlbytes zltail 65535 entries hb ht (omega arith)
      ∙ read_zip_entries_unknown entries
      ∙ read_until-end es (suc (length entries)) fits
          (omega (arith, length-put_entries es (0xff ∷ []))) in
    bind_ok read_string (within read_zip_packed) _
      (read_string-put_raw (put_zip_list zlbytes zltail 65535 entries) s size)
    ∙ rw (run, within)
