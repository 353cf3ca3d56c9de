-- ===== src/Lzf.antt =====
-- internal/rdb/structure/string.go `lzfDecompress`: the LZF decoder over a buffer of fixed size.
pub mod Tokens
pub mod Safety
use redis_agent.Common.{
  ℕ, zero, suc, ◌+◌, ◌-◌, ◌*◌, ◌/◌, ◌%◌, ◌^◌, ltb, leb, ◌==◌, if◌then◌else◌, bit_and, Bytes, [],
  ◌∷◌, length, get_elem?, set, replicate, Option, none, some,
}
use redis_agent.Common.{◌≡◌, refl}
use redis_agent.Common.Int.{ℤ, pos, negsuc}
use redis_agent.Reader.{Result, ok, panic, stuck, index_out_of_range, bad_alloc, lzf_mismatch}

-- The variables of the loop: what `in[i:]` holds, the buffer and `o`.
pub record State : Type 0 where
  pub input : Bytes
  pub out : Bytes
  pub o : ℕ

-- `out[o] = in[i]; i++; o++`, that many times. An index out of range panics.
unfoldable pub copy_literal : ℕ → State → Result State
copy_literal zero st = ok st
copy_literal (suc n) st = elim st.input [
  | [] ↦ panic index_out_of_range
  | b ∷ rest ↦
      if ltb st.o (length st.out)
      then copy_literal n (record { input = rest; out = set st.out st.o b; o = st.o + 1 })
      else panic index_out_of_range
]

-- `out[o] = out[ref]; ref++; o++`, that many times; `ref` has been found to be no negative number.
unfoldable pub copy_match : ℕ → ℕ → State → Result State
copy_match zero ref st = ok st
copy_match (suc n) ref st = elim (get_elem? st.out ref) [
  | none ↦ panic index_out_of_range
  | some b ↦
      if ltb st.o (length st.out)
      then copy_match n (ref + 1) (record st { out = set st.out st.o b; o = st.o + 1 })
      else panic index_out_of_range
]

-- The back reference with the low byte of its offset still to be read.
unfoldable pub back_reference : ℕ → ℕ → State → Result State
back_reference ctrl len st = elim st.input [
  | [] ↦ panic index_out_of_range
  | low ∷ rest ↦
      let back = bit_and ctrl 0x1f * 2 ^ 8 + low + 1 in
      if ltb st.o back
      then panic index_out_of_range
      else copy_match (len + 2) (st.o - back) (record st { input = rest })
]

-- `length := ctrl >> 5`, extended by one byte if it is seven.
unfoldable pub copy_back : ℕ → State → Result State
copy_back ctrl st =
    if ctrl / 2 ^ 5 == 7
    then elim st.input [
      | [] ↦ panic index_out_of_range
      | more ∷ rest ↦ back_reference ctrl (7 + more) (record st { input = rest })
    ]
    else back_reference ctrl (ctrl / 2 ^ 5) st

-- One round of `for i < len(in)`, behind the read of `ctrl`.
unfoldable pub round : ℕ → State → Result State
round ctrl st = if ltb ctrl 32 then copy_literal (ctrl + 1) st else copy_back ctrl st

-- Every round takes a byte at least, so `len(in)` rounds are enough.
unfoldable pub loop : ℕ → State → Result State
loop zero st = elim st.input [ [] ↦ ok st | _ ∷ _ ↦ stuck ]
loop (suc fuel) st = elim st.input [
  | [] ↦ ok st
  | ctrl ∷ rest ↦ elim (round ctrl (record st { input = rest })) [
    | ok st' ↦ loop fuel st'
    | panic e ↦ panic e
    | stuck ↦ stuck
  ]
]

abbrev pub finish : ℕ → Result State → Result Bytes
finish out_len (ok st) = if st.o == out_len then ok st.out else panic (lzf_mismatch out_len st.o)
finish out_len (panic e) = panic e
finish out_len stuck = stuck

-- `make([]byte, outLen)` panics on a negative length.
unfoldable pub lzf_decompress : Bytes → ℤ → Result Bytes
lzf_decompress input (pos n) =
    finish n (loop (length input) (record { input = input; out = replicate n 0; o = 0 }))
lzf_decompress input (negsuc n) = panic bad_alloc
