-- ===== src/Objects/StreamEntries.antt =====
-- internal/rdb/types/stream.go: the entries of one listpack of a stream. The index `inx` only
-- grows, so the elements from it on stand for it.
pub mod Ends
pub mod Replay
use redis_agent.Common.{
  ℕ, zero, suc, ◌+◌, leb, ◌==◌, ◌&&◌, if◌then◌else◌, bit_and, Bytes, List, [], ◌∷◌, ◌++◌, length,
  take, drop, codes, same_bytes, Option, none, some,
}
use redis_agent.Common.Int.{ℤ, pos, negsuc, word64, add64, is_zero}
use redis_agent.Reader.{Result, ok, panic, stuck, bad_integer, bad_master_end, index_out_of_range}
use redis_agent.Decimal.{format_int, parse_int}
use redis_agent.Objects.{RedisCmd}

abbrev pub Cursor : Type 0 → Type 0
Cursor A = List Bytes → Result (A × List Bytes)

abbrev pub give : {A : Type 0} → A → Cursor A
give a es = ok (a, es)

infixl 5 ◌>>=◌
abbrev pub ◌>>=◌ : {A B : Type 0} → Cursor A → (A → Cursor B) → Cursor B
◌>>=◌ m f es = elim (m es) [ ok (a, es') ↦ f a es' | panic e ↦ panic e | stuck ↦ stuck ]

unfoldable pub next_string : Cursor Bytes
next_string [] = panic index_out_of_range
next_string (ele ∷ es) = ok (ele, es)

abbrev pub number_of : Option ℤ → Cursor ℤ
number_of none es = panic bad_integer
number_of (some n) es = ok (n, es)

unfoldable pub next_integer : Cursor ℤ
unfolding next_string
next_integer = do ele ← next_string; number_of (parse_int ele)

-- `elements[inx:inx+n]`. Go bounds the end by the capacity, which may be above the length, but the
-- next read is past the end then.
unfoldable pub next_slice : ℤ → Cursor (List Bytes)
next_slice (pos n) es =
    if leb n (length es) then ok (take n es, drop n es) else panic index_out_of_range
next_slice (negsuc n) es = panic index_out_of_range

-- The fields of the master entry, each with a value of the entry.
unfoldable pub same_fields : List Bytes → Cursor (List Bytes)
same_fields [] = give []
same_fields (f ∷ fs) = do v ← next_string; rest ← same_fields fs; give (f ∷ v ∷ rest)

unfoldable pub own_fields : Cursor (List Bytes)
own_fields = do num ← next_integer; next_slice (add64 num num)

unfoldable pub entry_fields : ℤ → List Bytes → Cursor (List Bytes)
entry_fields flags fields es =
    if bit_and (word64 flags) 2 == 2 then same_fields fields es else own_fields es

-- The master entry: the id of the listpack and the shared fields.
pub record Master : Type 0 where
  pub master_ms : ℤ
  pub master_seq : ℤ
  pub fields : List Bytes

abbrev pub stream_id : ℤ → ℤ → Bytes
stream_id ms seq = format_int ms ++ (codes "-" ++ format_int seq)

abbrev pub xadd : Bytes → Master → ℤ → ℤ → List Bytes → RedisCmd
xadd master_key m ms seq args =
    codes "xadd" ∷ master_key ∷ stream_id (add64 ms m.master_ms) (add64 seq m.master_seq) ∷ args

-- One round of the loop up to `lp_count`: the flags and the command.
unfoldable pub read_entry : Bytes → Master → Cursor (ℤ × RedisCmd)
read_entry master_key m = do
  flags ← next_integer
  entry_ms ← next_integer
  entry_seq ← next_integer
  args ← entry_fields flags m.fields
  lp_count ← next_string
  give (flags, xadd master_key m entry_ms entry_seq args)

-- The rest of the round: `more` is the loop, called with the new counts.
unfoldable pub count_entry :
    (ℤ → ℤ → Cursor (List RedisCmd)) → ℤ → ℤ → ℤ × RedisCmd → Cursor (List RedisCmd)
count_entry more count deleted (flags, cmd) es =
    if bit_and (word64 flags) 1 == 1
    then more count (add64 deleted (negsuc 0)) es
    else (do rest ← more (add64 count (negsuc 0)) deleted; give (cmd ∷ rest)) es

-- `for count != 0 || deleted != 0`. Every round takes an element at least, so one round more than
-- there are elements is enough.
unfoldable pub read_entries : ℕ → Bytes → Master → ℤ → ℤ → Cursor (List RedisCmd)
read_entries zero master_key m count deleted es = stuck
read_entries (suc fuel) master_key m count deleted es =
    let more =
      (read_entry master_key m >>= count_entry (read_entries fuel master_key m) count deleted) es in
    if is_zero count && is_zero deleted then give [] es else more

abbrev pub with_fuel : Bytes → Master → ℤ → ℤ → Cursor (List RedisCmd)
with_fuel master_key m count deleted es =
    read_entries (suc (length es)) master_key m count deleted es

abbrev pub check_master_end : Bytes → Cursor (List RedisCmd) → Cursor (List RedisCmd)
check_master_end last_entry entries es =
    if same_bytes last_entry (codes "0") then entries es else panic bad_master_end

-- The elements of one listpack.
unfoldable pub read_elements : Bytes → ℤ → ℤ → Cursor (List RedisCmd)
read_elements master_key ms seq = do
  count ← next_integer
  deleted ← next_integer
  num_fields ← next_integer
  fields ← next_slice num_fields
  last_entry ← next_string
  check_master_end last_entry (
      with_fuel master_key (record { master_ms = ms; master_seq = seq; fields = fields }) count
        deleted)
