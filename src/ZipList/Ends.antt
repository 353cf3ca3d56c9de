-- ===== src/ZipList/Ends.antt =====
-- Reading a ziplist ends on every input, its loop over an unknown number of entries included.
use redis_agent.Common.{
  ℕ, zero, suc, ◌*◌, ◌-◌, ◌^◌, ◌/◌, ◌<◌, ◌==◌, ltb, bit_and, bit_or, Bytes, List, [], ◌∷◌, length,
  arith,
}
use redis_agent.Common.Int.{pos}
use redis_agent.Reader.{
  ◌>>=◌, pure, repeat_read, read_byte, read_bytes, bad_ziplist_end, bad_ziplist_immediate,
  bad_ziplist_entry,
}
use redis_agent.Reader.Tame.{
  TameAt, TameAt-weaken, Tame, pure-Tame, raise-Tame, if-Tame, if-TameAt, bind-Tame, bind_within,
  repeat_read-Tame, within-Tame, read_bytes-Tame,
}
use redis_agent.Numbers.{
  be_value, read_uint16, read_uint32, read_int8, read_int16, read_int24, read_int32, read_int64,
}
use redis_agent.Decimal.{format_int}
use redis_agent.Numbers.Ends.{
  read_byte-Tame, read_uint16-Tame, read_uint32-Tame, read_int8-Tame, read_int16-Tame,
  read_int24-Tame, read_int32-Tame, read_int64-Tame,
}
use redis_agent.Text.{read_string}
use redis_agent.Text.Ends.{read_string-Tame}
use redis_agent.ZipList.{
  read_immediate, read_zip_number, read_zip_content, skip_prevlen, read_zip_list_entry, read_next,
  read_until_from, read_until, check_zip_end, read_counted, read_zip_entries, read_zip_packed,
  read_zip_list,
}

read_immediate-Tame : (b : ℕ) → Tame (read_immediate b)
unfolding read_immediate
read_immediate-Tame b =
    let v = bit_and b 0x0f in
    if-Tame (v == 0) _ _ (raise-Tame (bad_ziplist_immediate b)) (
      if-Tame (ltb 12 (v - 1)) _ _ (raise-Tame (bad_ziplist_immediate b))
        (pure-Tame (format_int (pos (v - 1)))))

read_zip_number-Tame : (b : ℕ) → Tame (read_zip_number b)
unfolding read_zip_number
read_zip_number-Tame b =
    if-Tame (b == 0xfe) _ _ (bind-Tame read_int8 _ read_int8-Tame (λ v. pure-Tame (format_int v))) (
      if-Tame (b == 0xc0) _ _
        (bind-Tame read_int16 _ read_int16-Tame (λ v. pure-Tame (format_int v)))
        (if-Tame (b == 0xf0) _ _
          (bind-Tame read_int24 _ read_int24-Tame (λ v. pure-Tame (format_int v)))
          (if-Tame (b == 0xd0) _ _
            (bind-Tame read_int32 _ read_int32-Tame (λ v. pure-Tame (format_int v)))
            (if-Tame (b == 0xe0) _ _
              (bind-Tame read_int64 _ read_int64-Tame (λ v. pure-Tame (format_int v)))
              (if-Tame (b / 2 ^ 4 == 0x0f) _ _ (read_immediate-Tame b)
                (raise-Tame (bad_ziplist_entry b)))))))

read_zip_content-Tame : (b : ℕ) → Tame (read_zip_content b)
unfolding read_zip_content
read_zip_content-Tame b =
    let top = bit_and b 0xc0 / 2 ^ 6 in
    if-Tame (top == 0) _ _ (read_bytes-Tame (pos (bit_and b 0x3f))) (
      if-Tame (top == 1) _ _
        (bind-Tame read_byte _ read_byte-Tame
          (λ second. read_bytes-Tame (pos (bit_or (bit_and b 0x3f * 2 ^ 8) second))))
        (if-Tame (top == 2) _ _
          (bind-Tame (read_bytes (pos 4)) _ (read_bytes-Tame (pos 4))
            (λ len_bytes. read_bytes-Tame (pos (be_value len_bytes))))
          (read_zip_number-Tame b)))

skip_prevlen-Tame : (first : ℕ) → Tame (skip_prevlen first)
unfolding skip_prevlen
skip_prevlen-Tame first =
    if-Tame (first == 0xfe) _ _ (bind-Tame read_uint32 _ read_uint32-Tame (λ n. pure-Tame tt))
      (pure-Tame tt)

read_zip_list_entry-Tame : (first : ℕ) → Tame (read_zip_list_entry first)
unfolding read_zip_list_entry
read_zip_list_entry-Tame first =
    bind-Tame (skip_prevlen first) _ (skip_prevlen-Tame first)
      (λ _. bind-Tame read_byte _ read_byte-Tame read_zip_content-Tame)

read_next-Tame : Tame read_next
unfolding read_next
read_next-Tame = bind-Tame read_byte _ read_byte-Tame read_zip_list_entry-Tame

-- With more rounds than bytes the loop does not run out of them.
read_until-TameAt : (fuel : ℕ) (s : Bytes) → length s < fuel → TameAt (length s) (read_until fuel s)
unfolding read_until read_until_from read_byte
read_until-TameAt zero s h = absurd (omega arith)
read_until-TameAt (suc fuel) [] h = tt
read_until-TameAt (suc fuel) (b ∷ s) h = TameAt-weaken _ (length s) (suc (length s)) (omega arith) (
    if-TameAt (b == 0xfe) (pure [] s) _ (length s) (omega arith) (
      bind_within (read_zip_list_entry b) (λ ele. read_until fuel >>= λ rest. pure (ele ∷ rest))
        (read_zip_list_entry b s) (length s)
        (λ ele s' k.
          bind_within (read_until fuel) (λ rest. pure (ele ∷ rest)) (read_until fuel s') (length s')
            (λ rest s'' k'. omega arith) (read_until-TameAt fuel s' (omega arith)))
        ((read_zip_list_entry-Tame b).at s)))

check_zip_end-Tame : (es : List Bytes) (last : ℕ) → Tame (check_zip_end es last)
check_zip_end-Tame es last =
    if-Tame (last == 0xff) _ _ (pure-Tame es) (raise-Tame (bad_ziplist_end last))

read_counted-Tame : (size : ℕ) → Tame (read_counted size)
unfolding read_counted
read_counted-Tame size =
    bind-Tame (repeat_read size read_next) _ (repeat_read-Tame size read_next read_next-Tame)
      (λ es. bind-Tame read_byte _ read_byte-Tame (check_zip_end-Tame es))

read_zip_entries-Tame : (size : ℕ) → Tame (read_zip_entries size)
unfolding read_zip_entries
read_zip_entries-Tame size =
    if-Tame (size == 65535) (λ s. read_until (suc (length s)) s) (read_counted size)
      (record { at = λ s. read_until-TameAt (suc (length s)) s (omega arith) })
      (read_counted-Tame size)

read_zip_packed-Tame : Tame read_zip_packed
unfolding read_zip_packed
read_zip_packed-Tame = bind-Tame read_uint32 _ read_uint32-Tame (λ _.
    bind-Tame read_uint32 _ read_uint32-Tame
      (λ _. bind-Tame read_uint16 _ read_uint16-Tame read_zip_entries-Tame))

pub read_zip_list-Tame : Tame read_zip_list
unfolding read_zip_list
read_zip_list-Tame =
    bind-Tame read_string _ read_string-Tame
      (λ inner. within-Tame read_zip_packed inner read_zip_packed-Tame)

-- On every input `ReadZipList` ends: it panics, or it gives a list and no more bytes are left than
-- before.
pub read_zip_list-TameAt : (s : Bytes) → TameAt (length s) (read_zip_list s)
read_zip_list-TameAt s = read_zip_list-Tame.at s
