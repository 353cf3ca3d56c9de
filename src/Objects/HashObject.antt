-- ===== src/Objects/HashObject.antt =====
-- internal/rdb/types/hash.go. The Go map is an association list with one pair for each key; the
-- order of its pairs stands for the order, which Go leaves open, of `range` over the map.
pub mod Laws
use redis_agent.Common.{
  ℕ, zero, suc, ◌+◌, ◌%◌, ◌^◌, ◌==◌, if◌then◌else◌, Bytes, List, [], ◌∷◌, map, length, codes,
  same_bytes,
}
use redis_agent.Common.Int.{int_of_u64, rounds}
use redis_agent.Reader.{
  Reader, ◌>>=◌, pure, raise, lift, repeat_read, unknown_type, not_implemented,
}
use redis_agent.Length.{read_length}
use redis_agent.Text.{read_string}
use redis_agent.ZipList.{read_zip_list}
use redis_agent.Listpack.{read_listpack}
use redis_agent.Memory.{
  dict_entry_overhead, sds_overhead, redis_obj_overhead, dict_overhead, field_bucket_overhead,
}
use redis_agent.Objects.{
  RedisCmd, pairs, sum64, rdb_type_hash, rdb_type_hash_zipmap, rdb_type_hash_ziplist,
  rdb_type_hash_listpack,
}

abbrev pub Fields : Type 0
Fields = List (Bytes × Bytes)

pub record HashObject : Type 0 where
  pub key : Bytes
  pub value : Fields

-- `o.value[key] = value`
unfoldable pub insert : Bytes → Bytes → Fields → Fields
insert k v [] = (k, v) ∷ []
insert k v ((j, w) ∷ m) = if same_bytes j k then (k, v) ∷ m else (j, w) ∷ insert k v m

-- The assignments of a loop, one after the other.
unfoldable pub insert_all : Fields → Fields → Fields
insert_all [] m = m
insert_all ((k, v) ∷ ps) m = insert_all ps (insert k v m)

unfoldable pub read_pair : Reader (Bytes × Bytes)
read_pair = do k ← read_string; v ← read_string; pure (k, v)

unfoldable pub read_hash : Reader Fields
read_hash = do
  size ← read_length
  ps ← repeat_read (rounds (int_of_u64 size)) read_pair
  pure (insert_all ps [])

unfoldable pub read_hash_ziplist : Reader Fields
read_hash_ziplist = do list ← read_zip_list; ps ← lift (pairs list); pure (insert_all ps [])

unfoldable pub read_hash_listpack : Reader Fields
read_hash_listpack = do list ← read_listpack; ps ← lift (pairs list); pure (insert_all ps [])

unfoldable pub read_value : ℕ → Reader Fields
read_value type_byte s =
    if type_byte == rdb_type_hash
    then read_hash s
    else if type_byte == rdb_type_hash_zipmap
    then raise not_implemented s
    else if type_byte == rdb_type_hash_ziplist
    then read_hash_ziplist s
    else if type_byte == rdb_type_hash_listpack
    then read_hash_listpack s
    else raise (unknown_type type_byte) s

unfoldable pub load_from_buffer : Bytes → ℕ → Reader HashObject
load_from_buffer key type_byte = do
  value ← read_value type_byte
  pure (record { key = key; value = value })

unfoldable pub rewrite : HashObject → List RedisCmd
rewrite o = map (λ (k, v). codes "hset" ∷ o.key ∷ k ∷ v ∷ []) o.value

abbrev pub field_overhead : Bytes × Bytes → ℕ
field_overhead (field, value) =
    (dict_entry_overhead + sds_overhead field + sds_overhead value) % 2 ^ 64

unfoldable pub mem_overhead : HashObject → ℕ
mem_overhead o =
    (dict_entry_overhead
      + sds_overhead o.key
      + redis_obj_overhead
      + dict_overhead
      + sum64 (map field_overhead o.value)
      + field_bucket_overhead (length o.value))
    % 2 ^ 64
