-- ===== src/Listpack/Ends.antt =====
-- Reading a packed list ends on every input.
use redis_agent.Common.{ℕ, ◌+◌, ◌-◌, ◌*◌, ◌^◌, ◌==◌, bit_and, Bytes, List}
use redis_agent.Common.Int.{pos}
use redis_agent.Reader.{
  Reader, pure, read_byte, read_bytes, repeat_read, bad_listpack_end, bad_listpack_entry,
}
use redis_agent.Reader.Tame.{
  Tame, pure-Tame, raise-Tame, if-Tame, bind-Tame, repeat_read-Tame, within-Tame, read_bytes-Tame,
}
use redis_agent.Numbers.{read_uint16, read_uint24, read_uint32, read_uint64}
use redis_agent.Numbers.Ends.{
  read_byte-Tame, read_uint16-Tame, read_uint24-Tame, read_uint32-Tame, read_uint64-Tame,
}
use redis_agent.Decimal.{format_int}
use redis_agent.Text.{read_string}
use redis_agent.Text.Ends.{read_string-Tame}
use redis_agent.Listpack.{
  lp_encode_backlen, to_signed, number_entry, string_entry, read_entry_from, read_listpack_entry,
  check_end, read_packed, read_listpack,
}

number_entry-Tame :
    (read : Reader ℕ) (negstart negmax size : ℕ)
    → Tame read
    → Tame (number_entry read negstart negmax size)
unfolding number_entry
number_entry-Tame read negstart negmax size h = bind-Tame read _ h (λ uval.
    bind-Tame (read_bytes (pos (lp_encode_backlen size))) _
      (read_bytes-Tame (pos (lp_encode_backlen size)))
      (λ back. pure-Tame (format_int (to_signed uval negstart negmax))))

string_entry-Tame : (header size : ℕ) → Tame (string_entry header size)
unfolding string_entry
string_entry-Tame header size =
    bind-Tame (read_bytes (pos size)) _ (read_bytes-Tame (pos size)) (λ ele.
      bind-Tame (read_bytes (pos (lp_encode_backlen (header + size)))) _
        (read_bytes-Tame (pos (lp_encode_backlen (header + size)))) (λ back. pure-Tame ele))

read_entry_from-Tame : (b : ℕ) → Tame (read_entry_from b)
unfolding read_entry_from
read_entry_from-Tame b =
    if-Tame (bit_and b 0x80 == 0x00) _ _
      (number_entry-Tame (pure (bit_and b 0x7f)) (2 ^ 64 - 1) 0 1 (pure-Tame (bit_and b 0x7f)))
      (if-Tame (bit_and b 0xc0 == 0x80) _ _ (string_entry-Tame 1 (bit_and b 0x3f)) (
        if-Tame (bit_and b 0xe0 == 0xc0) _ _
          (number_entry-Tame _ (2 ^ 12) 8191 2 (
            bind-Tame read_byte _ read_byte-Tame
              (λ second. pure-Tame (bit_and b 0x1f * 2 ^ 8 + second))))
          (if-Tame (bit_and b 0xff == 0xf1) _ _
            (number_entry-Tame read_uint16 (2 ^ 15) 65535 2 read_uint16-Tame)
            (if-Tame (bit_and b 0xff == 0xf2) _ _
              (number_entry-Tame read_uint24 (2 ^ 23) (2 ^ 24 - 1) (1 + 3) read_uint24-Tame)
              (if-Tame (bit_and b 0xff == 0xf3) _ _
                (number_entry-Tame read_uint32 (2 ^ 31) (2 ^ 32 - 1) (1 + 4) read_uint32-Tame)
                (if-Tame (bit_and b 0xff == 0xf4) _ _
                  (number_entry-Tame read_uint64 (2 ^ 63) (2 ^ 64 - 1) (1 + 8) read_uint64-Tame)
                  (if-Tame (bit_and b 0xf0 == 0xe0) _ _
                    (bind-Tame read_byte _ read_byte-Tame
                      (λ second. string_entry-Tame 2 (bit_and b 0x0f * 2 ^ 8 + second)))
                    (if-Tame (bit_and b 0xff == 0xf0) _ _
                      (bind-Tame read_uint32 _ read_uint32-Tame (λ size. string_entry-Tame 5 size))
                      (raise-Tame (bad_listpack_entry b))))))))))

read_listpack_entry-Tame : Tame read_listpack_entry
unfolding read_listpack_entry
read_listpack_entry-Tame = bind-Tame read_byte _ read_byte-Tame read_entry_from-Tame

check_end-Tame : (es : List Bytes) (last : ℕ) → Tame (check_end es last)
check_end-Tame es last =
    if-Tame (last == 0xff) _ _ (pure-Tame es) (raise-Tame (bad_listpack_end last))

read_packed-Tame : Tame read_packed
unfolding read_packed
read_packed-Tame = bind-Tame read_uint32 _ read_uint32-Tame (λ total.
    bind-Tame read_uint16 _ read_uint16-Tame (λ size.
      bind-Tame (repeat_read size read_listpack_entry) _
        (repeat_read-Tame size read_listpack_entry read_listpack_entry-Tame)
        (λ es. bind-Tame read_byte _ read_byte-Tame (check_end-Tame es))))

pub read_listpack-Tame : Tame read_listpack
unfolding read_listpack
read_listpack-Tame =
    bind-Tame read_string _ read_string-Tame
      (λ inner. within-Tame read_packed inner read_packed-Tame)
