-- ===== src/Objects.antt =====
-- internal/rdb/types/interface.go: what the objects of RDB share.
pub mod Packed
pub mod StringObject
pub mod ListObject
pub mod SetObject
pub mod HashObject
pub mod ZsetObject
pub mod ModuleObject
pub mod Ends
pub mod StreamEntries
pub mod StreamObject
use redis_agent.Common.{ℕ, zero, suc, ◌+◌, ◌%◌, ◌^◌, Bytes, List, [], ◌∷◌, map, length}
use redis_agent.Common.Int.{ℤ, pos, negsuc}
use redis_agent.Reader.{
  Reader, ◌>>=◌, pure, raise, bad_alloc, Result, ok, panic, stuck, index_out_of_range,
}

-- `RedisCmd`: the words of a command.
abbrev pub RedisCmd : Type 0
RedisCmd = List Bytes

-- The type bytes of RDB.
abbrev pub rdb_type_string : ℕ
rdb_type_string = 0

abbrev pub rdb_type_list : ℕ
rdb_type_list = 1

abbrev pub rdb_type_set : ℕ
rdb_type_set = 2

abbrev pub rdb_type_zset : ℕ
rdb_type_zset = 3

abbrev pub rdb_type_hash : ℕ
rdb_type_hash = 4

abbrev pub rdb_type_zset2 : ℕ
rdb_type_zset2 = 5

abbrev pub rdb_type_module : ℕ
rdb_type_module = 6

abbrev pub rdb_type_hash_zipmap : ℕ
rdb_type_hash_zipmap = 9

abbrev pub rdb_type_list_ziplist : ℕ
rdb_type_list_ziplist = 10

abbrev pub rdb_type_set_intset : ℕ
rdb_type_set_intset = 11

abbrev pub rdb_type_zset_ziplist : ℕ
rdb_type_zset_ziplist = 12

abbrev pub rdb_type_hash_ziplist : ℕ
rdb_type_hash_ziplist = 13

abbrev pub rdb_type_list_quicklist : ℕ
rdb_type_list_quicklist = 14

abbrev pub rdb_type_hash_listpack : ℕ
rdb_type_hash_listpack = 16

abbrev pub rdb_type_zset_listpack : ℕ
rdb_type_zset_listpack = 17

abbrev pub rdb_type_list_quicklist2 : ℕ
rdb_type_list_quicklist2 = 18

abbrev pub rdb_type_stream_listpacks : ℕ
rdb_type_stream_listpacks = 15

abbrev pub rdb_type_stream_listpacks2 : ℕ
rdb_type_stream_listpacks2 = 19

abbrev pub rdb_type_module2 : ℕ
rdb_type_module2 = 7

-- `make([]T, size)` panics on a negative size.
abbrev pub alloc : ℤ → Reader (Unit {0})
alloc (pos n) = pure tt
alloc (negsuc n) = raise bad_alloc

-- `list[i]` and `list[i+1]` for i = 0, 2, 4, …: the last read of an odd list is out of range.
unfoldable pub pairs : List Bytes → Result (List (Bytes × Bytes))
pairs [] = ok []
pairs (a ∷ []) = panic index_out_of_range
pairs (a ∷ b ∷ rest) = elim (pairs rest) [
  | ok ps ↦ ok ((a, b) ∷ ps)
  | panic e ↦ panic e
  | stuck ↦ stuck
]

-- A sum of `uint64`s.
unfoldable pub sum64 : List ℕ → ℕ
sum64 [] = 0
sum64 (x ∷ xs) = (x + sum64 xs) % 2 ^ 64
