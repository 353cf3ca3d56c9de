-- ===== src/Objects/SetObject.antt =====
-- internal/rdb/types/set.go
pub mod Load
use redis_agent.Common.{
  ℕ, ◌+◌, ◌%◌, ◌^◌, ◌==◌, if◌then◌else◌, Bytes, List, [], ◌∷◌, map, length, codes,
}
use redis_agent.Common.Int.{int_of_u64, rounds}
use redis_agent.Reader.{Reader, ◌>>=◌, ◌>>◌, pure, raise, repeat_read, unknown_type}
use redis_agent.Length.{read_length}
use redis_agent.Text.{read_string}
use redis_agent.Intset.{read_intset}
use redis_agent.Memory.{
  dict_entry_overhead, sds_overhead, redis_obj_overhead, dict_overhead, field_bucket_overhead,
}
use redis_agent.Objects.{RedisCmd, alloc, sum64, rdb_type_set, rdb_type_set_intset}

pub record SetObject : Type 0 where
  pub key : Bytes
  pub elements : List Bytes

unfoldable pub read_set : Reader (List Bytes)
read_set = do
  size ← read_length
  alloc (int_of_u64 size)
  repeat_read (rounds (int_of_u64 size)) read_string

unfoldable pub read_elements : ℕ → Reader (List Bytes)
read_elements type_byte s =
    if type_byte == rdb_type_set
    then read_set s
    else if type_byte == rdb_type_set_intset
    then read_intset s
    else raise (unknown_type type_byte) s

unfoldable pub load_from_buffer : Bytes → ℕ → Reader SetObject
load_from_buffer key type_byte = do
  elements ← read_elements type_byte
  pure (record { key = key; elements = elements })

unfoldable pub rewrite : SetObject → List RedisCmd
rewrite o = map (λ ele. codes "sadd" ∷ o.key ∷ ele ∷ []) o.elements

unfoldable pub mem_overhead : SetObject → ℕ
mem_overhead o =
    (dict_entry_overhead
      + sds_overhead o.key
      + redis_obj_overhead
      + dict_overhead
      + sum64 (map (λ element. (dict_entry_overhead + sds_overhead element) % 2 ^ 64) o.elements)
      + field_bucket_overhead (length o.elements))
    % 2 ^ 64
