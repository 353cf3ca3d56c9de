-- ===== src/ZipList/RoundTrip.antt =====
-- A whole ziplist, written as Redis writes it, and what `ReadZipList` gives out.
use redis_agent.Common.{ℕ, ◌^◌, ◌<◌, Bytes, List, [], ◌∷◌, ◌++◌, length, ◌≡◌, refl, ◌∙◌, arith, All}
use redis_agent.Reader.{ok, within, repeat_read, read_byte}
use redis_agent.Reader.Laws.{bind_ok}
use redis_agent.Numbers.{read_uint16, read_uint32}
use redis_agent.Numbers.Laws.{le_bytes, read_uint16-le_bytes, read_uint32-le_bytes}
use redis_agent.Text.{read_string}
use redis_agent.Text.RoundTrip.{put_raw, read_string-put_raw}
use redis_agent.ZipList.{read_next, read_counted, read_zip_entries, read_zip_packed, read_zip_list}
use redis_agent.ZipList.Entry.{
  Prevlen, put_prevlen, PrevlenFits, Content, put_content, shown, ContentFits, read_next-put,
}

abbrev pub Stored : Type 0
Stored = Prevlen × Content

abbrev pub StoredFits : Stored → Type 0
StoredFits (p, c) = PrevlenFits p × ContentFits c

abbrev pub put_entries : List Stored → Bytes → Bytes
put_entries [] s = s
put_entries ((p, c) ∷ es) s = put_prevlen p (put_content c (put_entries es s))

abbrev pub all_shown : List Stored → List Bytes
all_shown [] = []
all_shown ((p, c) ∷ es) = shown c ∷ all_shown es

-- The size in bytes and the offset of the last entry are words that the reader skips.
abbrev pub put_zip_list : ℕ → ℕ → ℕ → Bytes → Bytes
put_zip_list zlbytes zltail count entries =
    le_bytes 4 zlbytes ++ (le_bytes 4 zltail ++ (le_bytes 2 count ++ entries))

repeat_read-put_entries :
    (es : List Stored) (s : Bytes)
    → All StoredFits es
    → repeat_read (length es) read_next (put_entries es s) ≡ ok (all_shown es, s)
unfolding repeat_read
repeat_read-put_entries [] s h = refl
repeat_read-put_entries ((p, c) ∷ es) s ((hp, hc), rest) =
    bind_ok read_next _ _ (read_next-put p c (put_entries es s) hp hc)
    ∙ bind_ok (repeat_read (length es) read_next) _ _ (repeat_read-put_entries es s rest)

read_counted-put_entries :
    (es : List Stored)
    → All StoredFits es
    → read_counted (length es) (put_entries es (0xff ∷ [])) ≡ ok (all_shown es, [])
unfolding read_counted read_byte
read_counted-put_entries es fits =
    bind_ok (repeat_read (length es) read_next) _ _ (repeat_read-put_entries es (0xff ∷ []) fits)

read_zip_entries_counted : (n : ℕ) (s : Bytes) → n < 65535 → read_zip_entries n s ≡ read_counted n s
unfolding read_zip_entries
read_zip_entries_counted n s h = ground arith

-- The three words at the front.
pub read_zip_packed_front :
    (zlbytes zltail count : ℕ) (s : Bytes)
    → zlbytes < 2 ^ 32
    → zltail < 2 ^ 32
    → count < 2 ^ 16
    → read_zip_packed (put_zip_list zlbytes zltail count s) ≡ read_zip_entries count s
unfolding read_zip_packed
read_zip_packed_front zlbytes zltail count s hb ht hc =
    bind_ok read_uint32 _ _ (read_uint32-le_bytes zlbytes _ hb)
    ∙ bind_ok read_uint32 _ _ (read_uint32-le_bytes zltail _ ht)
    ∙ bind_ok read_uint16 read_zip_entries _ (read_uint16-le_bytes count s hc)

-- A ziplist of fewer than 65535 entries, each in range, stored as a plain string shorter than 2 ^
-- 63 bytes, is read as the list of what its entries show, in order, and what follows the string is
-- left.
pub read_zip_list-put_zip_list :
    (zlbytes zltail : ℕ) (es : List Stored) (s : Bytes)
    → zlbytes < 2 ^ 32
    → zltail < 2 ^ 32
    → length es < 65535
    → All StoredFits es
    → length (put_zip_list zlbytes zltail (length es) (put_entries es (0xff ∷ []))) < 2 ^ 63
    → read_zip_list
        (put_raw (put_zip_list zlbytes zltail (length es) (put_entries es (0xff ∷ []))) s)
      ≡ ok (all_shown es, s)
unfolding read_zip_list
read_zip_list-put_zip_list zlbytes zltail es s hb ht n fits size =
    let body = put_zip_list zlbytes zltail (length es) (put_entries es (0xff ∷ [])) in
    let run =
      read_zip_packed_front zlbytes zltail (length es) (put_entries es (0xff ∷ [])) hb ht
        (omega arith)
      ∙ read_zip_entries_counted (length es) _ n
      ∙ read_counted-put_entries es fits in
    bind_ok read_string (within read_zip_packed) _ (read_string-put_raw body s size)
    ∙ rw (run, within)
