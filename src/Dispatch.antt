-- ===== src/Dispatch.antt =====
-- internal/rdb/types/interface.go: the choice of an object by its type byte, and the methods of the
-- interface `RedisObject`.
pub mod Ends
pub mod RoundTrip
pub mod Order
use redis_agent.Common.{
  ℕ, zero, suc, ◌/◌, ◌^◌, ◌==◌, ◌||◌, Bool, if◌then◌else◌, bit_and, Bytes, List, [], ◌∷◌, codes,
  get_elem?, Option, none, some,
}
use redis_agent.Reader.{
  Result, ok, panic, stuck, Reader, ◌>>=◌, pure, raise, unknown_type, not_implemented,
  index_out_of_range,
}
use redis_agent.Objects.{
  RedisCmd, rdb_type_string, rdb_type_list, rdb_type_set, rdb_type_zset, rdb_type_hash,
  rdb_type_zset2, rdb_type_module, rdb_type_module2, rdb_type_hash_zipmap, rdb_type_list_ziplist,
  rdb_type_set_intset, rdb_type_zset_ziplist, rdb_type_hash_ziplist, rdb_type_list_quicklist,
  rdb_type_stream_listpacks, rdb_type_hash_listpack, rdb_type_zset_listpack,
  rdb_type_list_quicklist2, rdb_type_stream_listpacks2,
}
use redis_agent.Objects.StringObject as Strings
use redis_agent.Objects.ListObject as Lists
use redis_agent.Objects.SetObject as Sets
use redis_agent.Objects.HashObject as Hashes
use redis_agent.Objects.ZsetObject as Zsets
use redis_agent.Objects.ZsetObject.{FloatOps}
use redis_agent.Objects.StreamObject as Streams
use redis_agent.Objects.ModuleObject as Modules

-- The implementations of the interface. A module object has no fields.
pub data RedisObject : Type 0 where
  string_object : Strings.StringObject → RedisObject
  list_object : Lists.ListObject → RedisObject
  set_object : Sets.SetObject → RedisObject
  zset_object : Zsets.ZsetObject → RedisObject
  hash_object : Hashes.HashObject → RedisObject
  stream_object : Streams.StreamObject → RedisObject
  module_object : RedisObject

abbrev pub is_list : ℕ → Bool
is_list t =
    t == rdb_type_list
    || (t == rdb_type_list_ziplist
        || (t == rdb_type_list_quicklist || t == rdb_type_list_quicklist2))

abbrev pub is_set : ℕ → Bool
is_set t = t == rdb_type_set || t == rdb_type_set_intset

abbrev pub is_zset : ℕ → Bool
is_zset t =
    t == rdb_type_zset
    || (t == rdb_type_zset2 || (t == rdb_type_zset_ziplist || t == rdb_type_zset_listpack))

abbrev pub is_hash : ℕ → Bool
is_hash t =
    t == rdb_type_hash
    || (t == rdb_type_hash_zipmap || (t == rdb_type_hash_ziplist || t == rdb_type_hash_listpack))

abbrev pub is_stream : ℕ → Bool
is_stream t = t == rdb_type_stream_listpacks || t == rdb_type_stream_listpacks2

abbrev pub is_module : ℕ → Bool
is_module t = t == rdb_type_module || t == rdb_type_module2

-- `ParseObject`
unfoldable pub parse_object : FloatOps → ℕ → Bytes → Reader RedisObject
parse_object ops type_byte key s =
    if type_byte == rdb_type_string
    then (do o ← Strings.load_from_buffer key; pure (string_object o)) s
    else if is_list type_byte
    then (do o ← Lists.load_from_buffer key type_byte; pure (list_object o)) s
    else if is_set type_byte
    then (do o ← Sets.load_from_buffer key type_byte; pure (set_object o)) s
    else if is_zset type_byte
    then (do o ← Zsets.load_from_buffer ops key type_byte; pure (zset_object o)) s
    else if is_hash type_byte
    then (do o ← Hashes.load_from_buffer key type_byte; pure (hash_object o)) s
    else if is_stream type_byte
    then (do o ← Streams.load_from_buffer key type_byte; pure (stream_object o)) s
    else if is_module type_byte
    then (do o ← Modules.load_from_buffer ops type_byte; pure module_object) s
    else raise (unknown_type type_byte) s

unfoldable pub mem_overhead : RedisObject → ℕ
mem_overhead (string_object o) = Strings.mem_overhead o
mem_overhead (list_object o) = Lists.mem_overhead o
mem_overhead (set_object o) = Sets.mem_overhead o
mem_overhead (zset_object o) = Zsets.mem_overhead o
mem_overhead (hash_object o) = Hashes.mem_overhead o
mem_overhead (stream_object o) = Streams.mem_overhead o
mem_overhead module_object = 0

unfoldable pub rewrite : RedisObject → Result (List RedisCmd)
rewrite (string_object o) = ok (Strings.rewrite o)
rewrite (list_object o) = ok (Lists.rewrite o)
rewrite (set_object o) = ok (Sets.rewrite o)
rewrite (zset_object o) = ok (Zsets.rewrite o)
rewrite (hash_object o) = ok (Hashes.rewrite o)
rewrite (stream_object o) = ok (Streams.rewrite o)
rewrite module_object = panic not_implemented

abbrev pub module_type_name_char_set : Bytes
module_type_name_char_set = codes "ABCDEFGHIJKLMNOPQRSTUVWXYZabcdefghijklmnopqrstuvwxyz0123456789-_"

-- `for i := 8; i >= 0; i--`: the characters are filled in from the last one to the first.
unfoldable pub name_from : ℕ → ℕ → Bytes → Result Bytes
name_from zero id name = ok name
name_from (suc n) id name = elim (get_elem? module_type_name_char_set (bit_and id 63)) [
  | none ↦ panic index_out_of_range
  | some c ↦ name_from n (id / 2 ^ 6) (c ∷ name)
]

unfoldable pub module_type_name_by_id : ℕ → Result Bytes
module_type_name_by_id module_id = name_from 9 (module_id / 2 ^ 10) []
