-- ===== src/Objects/ZsetObject.antt =====
-- internal/rdb/types/zset.go, and internal/rdb/structure/float.go, which only this decoder and that
-- of the modules call. Floating point numbers are a parameter: their type, and what the code does
-- with them.
pub mod Load
use redis_agent.Common.{
  ℕ, ◌+◌, ◌*◌, ◌%◌, ◌^◌, ◌==◌, if◌then◌else◌, Bytes, List, [], ◌∷◌, map, length, codes, Option,
  none, some,
}
use redis_agent.Common.Int.{pos, int_of_u64, rounds}
use redis_agent.Reader.{
  Result, ok, panic, stuck, Reader, ◌>>=◌, ◌>>◌, pure, raise, lift, repeat_read, unknown_type,
  odd_size, bad_float, read_full, read_bytes,
}
use redis_agent.Numbers.{read_uint8, le_value}
use redis_agent.Length.{read_length}
use redis_agent.Text.{read_string}
use redis_agent.ZipList.{read_zip_list}
use redis_agent.Listpack.{read_listpack}
use redis_agent.Memory.{
  dict_entry_overhead, sds_overhead, redis_obj_overhead, dict_overhead, field_bucket_overhead,
  zset_overhead, zskiplist_overhead, zskiplist_node_overhead, gen_level_and_level_size,
}
use redis_agent.Objects.{
  RedisCmd, alloc, pairs, sum64, rdb_type_zset, rdb_type_zset2, rdb_type_zset_ziplist,
  rdb_type_zset_listpack,
}

-- `float64`: its special values, `strconv.ParseFloat`, `math.Float64frombits` and `Sprintf("%f",
-- …)`.
pub record FloatOps : Type 1 where
  pub Float : Type 0
  pub nan : Float
  pub pos_inf : Float
  pub neg_inf : Float
  pub zero_float : Float
  pub parse_float : Bytes → Option Float
  pub from_bits : ℕ → Float
  pub format_float : Float → Bytes

pub record ZsetEntry : Type 0 where
  pub member : Bytes
  pub score : Bytes

pub record ZsetObject : Type 0 where
  pub key : Bytes
  pub elements : List ZsetEntry

abbrev pub entry_of : Bytes × Bytes → ZsetEntry
entry_of (m, s) = record { member = m; score = s }

module _ (ops : FloatOps) where
  open ops use {Float, nan, pos_inf, neg_inf, zero_float, parse_float, from_bits, format_float}

  abbrev pub parsed : Option Float → Result Float
  parsed none = panic bad_float
  parsed (some v) = ok v

  -- A failed read of the digits gives 0, and drains the reader.
  abbrev pub digits_of : Result (Bytes × Bytes) → Result (Float × Bytes)
  digits_of (ok (buf, s)) = lift (parsed (parse_float buf)) s
  digits_of (panic e) = ok (zero_float, [])
  digits_of stuck = stuck

  unfoldable pub read_float_from : ℕ → Reader Float
  unfolding read_full
  read_float_from u s =
      if u == 253
      then pure nan s
      else if u == 254
      then pure pos_inf s
      else if u == 255
      then pure neg_inf s
      else digits_of (read_full u s)

  unfoldable pub read_float : Reader Float
  read_float = do u ← read_uint8; read_float_from u

  unfoldable pub read_double : Reader Float
  read_double = do buf ← read_bytes (pos 8); pure (from_bits (le_value buf))

  unfoldable pub read_scored : Reader Float → Reader ZsetEntry
  read_scored read = do
    m ← read_string
    v ← read
    pure (record { member = m; score = format_float v })

  unfoldable pub read_zset : Reader Float → Reader (List ZsetEntry)
  read_zset read = do
    size ← read_length
    alloc (int_of_u64 size)
    repeat_read (rounds (int_of_u64 size)) (read_scored read)

  -- The size is tested before the pairs are taken.
  unfoldable pub even_pairs : List Bytes → Reader (List ZsetEntry)
  even_pairs list s =
      if length list % 2 == 0
      then (do ps ← lift (pairs list); pure (map entry_of ps)) s
      else raise (odd_size (length list)) s

  unfoldable pub read_zset_ziplist : Reader (List ZsetEntry)
  read_zset_ziplist = do list ← read_zip_list; even_pairs list

  unfoldable pub read_zset_listpack : Reader (List ZsetEntry)
  read_zset_listpack = do list ← read_listpack; even_pairs list

  unfoldable pub read_elements : ℕ → Reader (List ZsetEntry)
  read_elements type_byte s =
      if type_byte == rdb_type_zset
      then read_zset read_float s
      else if type_byte == rdb_type_zset2
      then read_zset read_double s
      else if type_byte == rdb_type_zset_ziplist
      then read_zset_ziplist s
      else if type_byte == rdb_type_zset_listpack
      then read_zset_listpack s
      else raise (unknown_type type_byte) s

  unfoldable pub load_from_buffer : Bytes → ℕ → Reader ZsetObject
  load_from_buffer key type_byte = do
    elements ← read_elements type_byte
    pure (record { key = key; elements = elements })

unfoldable pub rewrite : ZsetObject → List RedisCmd
rewrite o = map (λ ele. codes "zadd" ∷ o.key ∷ ele.score ∷ ele.member ∷ []) o.elements

unfoldable pub mem_overhead : ZsetObject → ℕ
mem_overhead o =
    let n = length o.elements in
    (dict_entry_overhead
      + sds_overhead o.key
      + redis_obj_overhead
      + zset_overhead
      + dict_overhead
      + field_bucket_overhead n
      + zskiplist_overhead
      + sum64 (
          map (λ element. (dict_entry_overhead + zskiplist_node_overhead element.member) % 2 ^ 64)
            o.elements)
      + sum64 (map (λ size. size * 16 % 2 ^ 64) (gen_level_and_level_size n))
      + field_bucket_overhead n)
    % 2 ^ 64
