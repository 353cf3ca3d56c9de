-- ===== src/Intset/RoundTrip.antt =====
-- An intset as Redis writes it, and what `ReadIntset` gives out.
use redis_agent.Common.{
  ℕ, zero, suc, ◌^◌, ◌<◌, Bytes, List, [], ◌∷◌, ◌++◌, length, ◌≡◌, refl, ◌∙◌, ap, arith, All, map,
}
use mathlib.Core.Path.{subst}
use redis_agent.Common.{◌/◌}
use redis_agent.Common.Int.{ℤ, pos, negsuc}
use redis_agent.Reader.{ok, within, repeat_read, read_bytes}
use redis_agent.Reader.Laws.{bind_ok, read_bytes_append}
use redis_agent.Numbers.{read_uint32}
use redis_agent.Numbers.Laws.{le_bytes, pattern_of, Fits, read_uint32-le_bytes}
use redis_agent.Decimal.{format_int}
use redis_agent.Text.{read_string}
use redis_agent.Text.RoundTrip.{put_raw, read_string-put_raw}
use redis_agent.Intset.{int_string, read_member, read_int_members, read_intset}

-- The widths of an intset.
pub data IntWidth : Type 0 where
  two four eight : IntWidth

abbrev pub bytes_of : IntWidth → ℕ
bytes_of two = 2
bytes_of four = 4
bytes_of eight = 8

abbrev pub bits_of : IntWidth → ℕ
bits_of two = 16
bits_of four = 32
bits_of eight = 64

abbrev pub put_members : IntWidth → List ℤ → Bytes → Bytes
put_members w [] s = s
put_members w (z ∷ zs) s = le_bytes (bytes_of w) (pattern_of (bits_of w) z) ++ put_members w zs s

abbrev pub put_intset : IntWidth → List ℤ → Bytes
put_intset w zs = le_bytes 4 (bytes_of w) ++ (le_bytes 4 (length zs) ++ put_members w zs [])

int_string-pattern_of :
    (w : IntWidth) (z : ℤ)
    → Fits (bits_of w) z
    → int_string (bytes_of w) (le_bytes (bytes_of w) (pattern_of (bits_of w) z)) ≡ format_int z
unfolding int_string
int_string-pattern_of two (pos n) h = ap format_int (ground arith)
int_string-pattern_of two (negsuc n) h = ap format_int (ground arith)
int_string-pattern_of four (pos n) h = ap format_int (ground arith)
int_string-pattern_of four (negsuc n) h = ap format_int (ground arith)
int_string-pattern_of eight (pos n) h = ap format_int (ground arith)
int_string-pattern_of eight (negsuc n) h = ap format_int (ground arith)

length-le_bytes : (k n : ℕ) → length (le_bytes k n) ≡ k
length-le_bytes zero n = refl
length-le_bytes (suc k) n = ap suc (length-le_bytes k (n / 256))

read_member-le_bytes :
    (w : IntWidth) (z : ℤ) (s : Bytes)
    → Fits (bits_of w) z
    → read_member (bytes_of w) (le_bytes (bytes_of w) (pattern_of (bits_of w) z) ++ s)
      ≡ ok (format_int z, s)
unfolding read_member
read_member-le_bytes w z s h =
    let p = le_bytes (bytes_of w) (pattern_of (bits_of w) z) in
    let size : length p ≡ bytes_of w = length-le_bytes (bytes_of w) (pattern_of (bits_of w) z) in
    bind_ok (read_bytes (pos (bytes_of w))) _ (p ++ s)
      (subst (λ k. read_bytes (pos k) (p ++ s) ≡ ok (p, s)) size (read_bytes_append p s))
    ∙ ap (λ v. ok (v, s)) (int_string-pattern_of w z h)

repeat_read-put_members :
    (w : IntWidth) (zs : List ℤ) (s : Bytes)
    → All (Fits (bits_of w)) zs
    → repeat_read (length zs) (read_member (bytes_of w)) (put_members w zs s)
      ≡ ok (map format_int zs, s)
unfolding repeat_read
repeat_read-put_members w [] s h = refl
repeat_read-put_members w (z ∷ zs) s (h, hs) =
    bind_ok (read_member (bytes_of w)) _ _ (read_member-le_bytes w z (put_members w zs s) h)
    ∙ bind_ok (repeat_read (length zs) (read_member (bytes_of w))) _ _
        (repeat_read-put_members w zs s hs)

width_small : (w : IntWidth) → bytes_of w < 2 ^ 32
width_small two = omega arith
width_small four = omega arith
width_small eight = omega arith

read_int_members-put_intset :
    (w : IntWidth) (zs : List ℤ)
    → length zs < 2 ^ 32
    → All (Fits (bits_of w)) zs
    → read_int_members (put_intset w zs) ≡ ok (map format_int zs, [])
unfolding read_int_members
read_int_members-put_intset w zs n h =
    bind_ok read_uint32 _ _ (read_uint32-le_bytes (bytes_of w) _ (width_small w))
    ∙ bind_ok read_uint32 _ _ (read_uint32-le_bytes (length zs) _ n)
    ∙ repeat_read-put_members w zs [] h

-- An intset of 16, 32 or 64 bits, of fewer than 2 ^ 32 members, each within the width, stored as a
-- plain string shorter than 2 ^ 63 bytes, is read as the decimal prints of its members, in order,
-- and what follows the string is left.
pub read_intset-put_intset :
    (w : IntWidth) (zs : List ℤ) (s : Bytes)
    → length zs < 2 ^ 32
    → All (Fits (bits_of w)) zs
    → length (put_intset w zs) < 2 ^ 63
    → read_intset (put_raw (put_intset w zs) s) ≡ ok (map format_int zs, s)
unfolding read_intset
read_intset-put_intset w zs s n h size =
    bind_ok read_string (within read_int_members) _ (read_string-put_raw (put_intset w zs) s size)
    ∙ rw (read_int_members-put_intset w zs n h, within)
