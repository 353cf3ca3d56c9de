-- ===== src/Tests/Decoder.antt =====
-- Strings, packed lists and intsets: the theorems at small inputs.
use redis_agent.Common.{[], ◌∷◌, ◌≡◌, refl, arith}
use redis_agent.Common.Int.{pos, negsuc}
use redis_agent.Reader.Tame.{BriskAt, TameAt}
use redis_agent.Text.Ends.{read_string-BriskAt}
use redis_agent.ZipList.Ends.{read_zip_list-TameAt}
use redis_agent.Reader.{lzf_mismatch, ok, panic, short_read, index_out_of_range}
use redis_agent.Text.{read_string}
use redis_agent.Text.RoundTrip.{
  two, read_string-put_raw, read_string-put_number, read_string-put_lzf,
}
use redis_agent.Decimal.{format_int, format_uint}
use redis_agent.Lzf.{lzf_decompress, loop, round, copy_back, back_reference}
use redis_agent.Lzf.Tokens.{
  lzf_decompress_too_long, literal, repeat, expand_one, expand, lzf_decompress-put_tokens,
}
use redis_agent.Lzf.Safety.{Fills, lzf_decompress-Fills}
use redis_agent.Listpack.{lp_encode_backlen, read_listpack_entry}
use redis_agent.Listpack.Entry.{int13, str6, read_listpack_entry-header}
use redis_agent.ZipList.{read_next, read_zip_list}
use redis_agent.ZipList.Entry as Zip
use redis_agent.ZipList.RoundTrip.{read_zip_list-put_zip_list}
use redis_agent.ZipList.Unknown.{read_zip_list_cut, read_zip_list_no_end}
use redis_agent.Intset.{read_intset}
use redis_agent.Intset.RoundTrip as Ints

-- "hi", and one byte behind it.
read_string-put_raw_test : read_string (2 ∷ 104 ∷ 105 ∷ 7 ∷ []) ≡ ok (104 ∷ 105 ∷ [], 7 ∷ [])
read_string-put_raw_test = read_string-put_raw (104 ∷ 105 ∷ []) (7 ∷ []) (omega arith)

-- The number -2 in two bytes.
read_string-put_number_test : read_string (0xc1 ∷ 254 ∷ 255 ∷ 7 ∷ []) ≡ ok (45 ∷ 50 ∷ [], 7 ∷ [])
unfolding format_int format_uint
read_string-put_number_test = read_string-put_number two (negsuc 1) (7 ∷ []) (omega arith)

-- "ab", then four bytes that start two bytes back.
read_string-put_lzf_test :
    read_string (0xc3 ∷ 5 ∷ 6 ∷ 1 ∷ 97 ∷ 98 ∷ 64 ∷ 1 ∷ 7 ∷ [])
    ≡ ok (97 ∷ 98 ∷ 97 ∷ 98 ∷ 97 ∷ 98 ∷ [], 7 ∷ [])
unfolding expand_one expand
read_string-put_lzf_test =
    read_string-put_lzf (literal (97 ∷ 98 ∷ []) ∷ repeat 4 2 ∷ []) (7 ∷ []) (omega arith)
      (omega arith) (omega arith)

lzf_decompress-put_tokens_example :
    lzf_decompress (1 ∷ 97 ∷ 98 ∷ 64 ∷ 1 ∷ []) (pos 6) ≡ ok (97 ∷ 98 ∷ 97 ∷ 98 ∷ 97 ∷ 98 ∷ [])
unfolding expand_one expand
lzf_decompress-put_tokens_example =
    lzf_decompress-put_tokens (literal (97 ∷ 98 ∷ []) ∷ repeat 4 2 ∷ []) (omega arith)

lzf_decompress-Fills_test : Fills 6 (lzf_decompress (1 ∷ 97 ∷ 98 ∷ 64 ∷ 1 ∷ []) (pos 6))
lzf_decompress-Fills_test = lzf_decompress-Fills (1 ∷ 97 ∷ 98 ∷ 64 ∷ 1 ∷ []) 6

lzf_decompress_too_long_example :
    lzf_decompress (1 ∷ 97 ∷ 98 ∷ 64 ∷ 1 ∷ []) (pos 8) ≡ panic (lzf_mismatch 8 6)
unfolding expand_one expand
lzf_decompress_too_long_example =
    lzf_decompress_too_long (literal (97 ∷ 98 ∷ []) ∷ repeat 4 2 ∷ []) 1 (omega arith)

-- A reference to before the start of the output.
lzf_decompress_before_start : lzf_decompress (32 ∷ 5 ∷ []) (pos 3) ≡ panic index_out_of_range
unfolding lzf_decompress loop round copy_back back_reference
lzf_decompress_before_start = refl

-- The number -3 in 13 bits.
read_listpack_entry-header_test :
    read_listpack_entry (0xdf ∷ 253 ∷ 2 ∷ 7 ∷ []) ≡ ok (45 ∷ 51 ∷ [], 7 ∷ [])
unfolding format_int format_uint lp_encode_backlen
read_listpack_entry-header_test =
    read_listpack_entry-header (int13 (negsuc 2)) (2 ∷ []) (7 ∷ []) (omega arith) refl

read_next-put_test : read_next (3 ∷ 0xf6 ∷ 7 ∷ []) ≡ ok (53 ∷ [], 7 ∷ [])
unfolding format_int format_uint
read_next-put_test =
    Zip.read_next-put (Zip.short 3) (Zip.immediate 5) (7 ∷ []) (omega arith) (omega arith)

-- "a" and 5.
read_zip_list-put_zip_list_example :
    read_zip_list (16 ∷ 16 ∷ 0 ∷ 0 ∷ 0 ∷ 13 ∷ 0 ∷ 0 ∷ 0 ∷ 2 ∷ 0 ∷ 0 ∷ 1 ∷ 97 ∷ 3 ∷ 0xf6 ∷ 0xff ∷ [])
    ≡ ok ((97 ∷ []) ∷ (53 ∷ []) ∷ [], [])
unfolding format_int format_uint
read_zip_list-put_zip_list_example =
    read_zip_list-put_zip_list 16 13
      ((Zip.short 0, Zip.str6 (97 ∷ [])) ∷ (Zip.short 3, Zip.immediate 5) ∷ []) [] (omega arith)
      (omega arith) (omega arith) ((omega arith, omega arith), ((omega arith, omega arith), tt))
      (omega arith)

-- The second entry is lost.
read_zip_list_cut_example :
    read_zip_list (
      20 ∷ 20 ∷ 0 ∷ 0 ∷ 0 ∷ 13 ∷ 0 ∷ 0 ∷ 0 ∷ 255 ∷ 255 ∷ 0 ∷ 1 ∷ 97 ∷ 0xfe ∷ 0 ∷ 1 ∷ 0 ∷ 0 ∷ 0xf6
      ∷ 0xff ∷ [])
    ≡ ok ((97 ∷ []) ∷ [], [])
read_zip_list_cut_example =
    read_zip_list_cut 20 13 ((Zip.short 0, Zip.str6 (97 ∷ [])) ∷ [])
      (0 ∷ 1 ∷ 0 ∷ 0 ∷ 0xf6 ∷ 0xff ∷ []) [] (omega arith) (omega arith)
      ((omega arith, omega arith), tt) (omega arith)

read_zip_list_no_end_example :
    read_zip_list (14 ∷ 14 ∷ 0 ∷ 0 ∷ 0 ∷ 10 ∷ 0 ∷ 0 ∷ 0 ∷ 255 ∷ 255 ∷ 0 ∷ 1 ∷ 97 ∷ 0xff ∷ [])
    ≡ panic short_read
read_zip_list_no_end_example =
    read_zip_list_no_end 14 10 ((Zip.short 0, Zip.str6 (97 ∷ [])) ∷ []) [] (omega arith)
      (omega arith) ((omega arith, omega arith), tt) (omega arith)

read_intset-put_intset_test :
    read_intset (12 ∷ 2 ∷ 0 ∷ 0 ∷ 0 ∷ 2 ∷ 0 ∷ 0 ∷ 0 ∷ 255 ∷ 255 ∷ 9 ∷ 0 ∷ [])
    ≡ ok ((45 ∷ 49 ∷ []) ∷ (57 ∷ []) ∷ [], [])
unfolding format_int format_uint
read_intset-put_intset_test =
    Ints.read_intset-put_intset Ints.two (negsuc 0 ∷ pos 9 ∷ []) [] (omega arith)
      (omega arith, (omega arith, tt)) (omega arith)

read_string-BriskAt_test : BriskAt 3 (read_string (0xc3 ∷ 5 ∷ 6 ∷ []))
read_string-BriskAt_test = read_string-BriskAt (0xc3 ∷ 5 ∷ 6 ∷ [])

read_zip_list-TameAt_test :
    TameAt 13 (read_zip_list (12 ∷ 12 ∷ 0 ∷ 0 ∷ 0 ∷ 10 ∷ 0 ∷ 0 ∷ 0 ∷ 255 ∷ 255 ∷ 0 ∷ 1 ∷ []))
read_zip_list-TameAt_test =
    read_zip_list-TameAt (12 ∷ 12 ∷ 0 ∷ 0 ∷ 0 ∷ 10 ∷ 0 ∷ 0 ∷ 0 ∷ 255 ∷ 255 ∷ 0 ∷ 1 ∷ [])
