-- ===== src/Listpack/RoundTrip.antt =====
-- A whole packed list, written as Redis writes it, and what `ReadListpack` gives out.
use redis_agent.Common.{ℕ, ◌^◌, ◌<◌, Bytes, List, [], ◌∷◌, ◌++◌, length, ◌≡◌, refl, ◌∙◌, All}
use redis_agent.Reader.{ok, within, repeat_read, read_byte}
use redis_agent.Reader.Laws.{bind_ok}
use redis_agent.Numbers.{read_uint16, read_uint32}
use redis_agent.Numbers.Laws.{le_bytes, read_uint16-le_bytes, read_uint32-le_bytes}
use redis_agent.Text.{read_string}
use redis_agent.Text.RoundTrip.{put_raw, read_string-put_raw}
use redis_agent.Listpack.{lp_encode_backlen, read_listpack_entry, read_packed, read_listpack}
use redis_agent.Listpack.Entry.{
  Encoding, header, meaning, EncodingFits, entry_size, read_listpack_entry-header,
}

-- An entry and the bytes of its back length.
abbrev pub Stored : Type 0
Stored = Encoding × Bytes

abbrev pub StoredFits : Stored → Type 0
StoredFits (e, back) = EncodingFits e × (length back ≡ lp_encode_backlen (entry_size e))

abbrev pub put_entries : List Stored → Bytes → Bytes
put_entries [] s = s
put_entries ((e, back) ∷ es) s = header e ++ (back ++ put_entries es s)

abbrev pub meanings : List Stored → List Bytes
meanings [] = []
meanings ((e, back) ∷ es) = meaning e ∷ meanings es

-- The size in bytes is `total`; the reader skips it.
abbrev pub put_listpack : ℕ → List Stored → Bytes
put_listpack total es = le_bytes 4 total ++ (le_bytes 2 (length es) ++ put_entries es (0xff ∷ []))

repeat_read-put_entries :
    (es : List Stored) (s : Bytes)
    → All StoredFits es
    → repeat_read (length es) read_listpack_entry (put_entries es s) ≡ ok (meanings es, s)
unfolding repeat_read
repeat_read-put_entries [] s h = refl
repeat_read-put_entries ((e, back) ∷ es) s ((fits, size), rest) =
    bind_ok read_listpack_entry _ _ (read_listpack_entry-header e back (put_entries es s) fits size)
    ∙ bind_ok (repeat_read (length es) read_listpack_entry) _ _ (repeat_read-put_entries es s rest)

read_packed-put_listpack :
    (total : ℕ) (es : List Stored)
    → total < 2 ^ 32
    → length es < 2 ^ 16
    → All StoredFits es
    → read_packed (put_listpack total es) ≡ ok (meanings es, [])
unfolding read_packed read_byte
read_packed-put_listpack total es h n fits =
    bind_ok read_uint32 _ _ (read_uint32-le_bytes total _ h)
    ∙ bind_ok read_uint16 _ _ (read_uint16-le_bytes (length es) _ n)
    ∙ bind_ok (repeat_read (length es) read_listpack_entry) _ _
        (repeat_read-put_entries es (0xff ∷ []) fits)

pub read_listpack-put_listpack :
    (total : ℕ) (es : List Stored) (s : Bytes)
    → total < 2 ^ 32
    → length es < 2 ^ 16
    → All StoredFits es
    → length (put_listpack total es) < 2 ^ 63
    → read_listpack (put_raw (put_listpack total es) s) ≡ ok (meanings es, s)
unfolding read_listpack
read_listpack-put_listpack total es s h n fits size =
    bind_ok read_string (within read_packed) _ (read_string-put_raw (put_listpack total es) s size)
    ∙ rw (read_packed-put_listpack total es h n fits, within)
