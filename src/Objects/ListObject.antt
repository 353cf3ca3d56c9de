-- ===== src/Objects/ListObject.antt =====
-- internal/rdb/types/list.go
pub mod Load
pub mod Overhead
use redis_agent.Common.{
  ℕ, zero, suc, ◌+◌, ◌*◌, ◌%◌, ◌^◌, ltb, ◌==◌, if◌then◌else◌, Bytes, List, [], ◌∷◌, ◌++◌, map,
  length, codes,
}
use redis_agent.Common.Int.{int_of_u64, rounds}
use redis_agent.Reader.{Reader, ◌>>=◌, pure, raise, repeat_read, unknown_type, unknown_container}
use redis_agent.Length.{read_length}
use redis_agent.Text.{read_string}
use redis_agent.ZipList.{read_zip_list}
use redis_agent.Listpack.{read_listpack}
use redis_agent.Memory.{
  dict_entry_overhead, sds_overhead, redis_obj_overhead, quicklist_overhead,
  quicklist_node_overhead, ziplist_overhead, zlentry_overhead, malloc_overhead,
}
use redis_agent.Objects.{
  RedisCmd, rdb_type_list, rdb_type_list_ziplist, rdb_type_list_quicklist, rdb_type_list_quicklist2,
}

pub record ListObject : Type 0 where
  pub key : Bytes
  pub elements : List Bytes

-- `o.elements = append(o.elements, nodeElements...)` over the nodes.
unfoldable pub concat : List (List Bytes) → List Bytes
concat [] = []
concat (xs ∷ xss) = xs ++ concat xss

unfoldable pub read_list : Reader (List Bytes)
read_list = do size ← read_length; repeat_read (rounds (int_of_u64 size)) read_string

unfoldable pub read_quick_list : Reader (List Bytes)
read_quick_list = do
  size ← read_length
  nodes ← repeat_read (rounds (int_of_u64 size)) read_zip_list
  pure (concat nodes)

abbrev pub quicklist_node_container_plain : ℕ
quicklist_node_container_plain = 1

abbrev pub quicklist_node_container_packed : ℕ
quicklist_node_container_packed = 2

unfoldable pub read_container : ℕ → Reader (List Bytes)
read_container container s =
    if container == quicklist_node_container_plain
    then (do ele ← read_string; pure (ele ∷ [])) s
    else if container == quicklist_node_container_packed
    then read_listpack s
    else raise (unknown_container container) s

unfoldable pub read_node : Reader (List Bytes)
read_node = do container ← read_length; read_container container

unfoldable pub read_quick_list2 : Reader (List Bytes)
read_quick_list2 = do
  size ← read_length
  nodes ← repeat_read (rounds (int_of_u64 size)) read_node
  pure (concat nodes)

-- The `switch typeByte`.
unfoldable pub read_elements : ℕ → Reader (List Bytes)
read_elements type_byte s =
    if type_byte == rdb_type_list
    then read_list s
    else if type_byte == rdb_type_list_ziplist
    then read_zip_list s
    else if type_byte == rdb_type_list_quicklist
    then read_quick_list s
    else if type_byte == rdb_type_list_quicklist2
    then read_quick_list2 s
    else raise (unknown_type type_byte) s

unfoldable pub load_from_buffer : Bytes → ℕ → Reader ListObject
load_from_buffer key type_byte = do
  elements ← read_elements type_byte
  pure (record { key = key; elements = elements })

unfoldable pub rewrite : ListObject → List RedisCmd
rewrite o = map (λ ele. codes "rpush" ∷ o.key ∷ ele ∷ []) o.elements

abbrev pub max_zip_list_size : ℕ
max_zip_list_size = 8192

-- The variables of the loop of `MemOverhead`.
pub record Packing : Type 0 where
  pub previous_entry_length : ℕ
  pub current_zip_list_size : ℕ
  pub quick_list_node_count : ℕ
  pub data_overhead : ℕ

-- One round, for one element.
unfoldable pub pack_element : Packing → Bytes → Packing
pack_element p element =
    let entry = zlentry_overhead p.previous_entry_length element in
    if ltb max_zip_list_size ((p.current_zip_list_size + entry) % 2 ^ 64)
    then record {
      previous_entry_length = length element;
      current_zip_list_size = ziplist_overhead;
      quick_list_node_count = (p.quick_list_node_count + 1) % 2 ^ 64;
      data_overhead = (p.data_overhead + malloc_overhead p.current_zip_list_size) % 2 ^ 64;
    }
    else record {
      previous_entry_length = length element;
      current_zip_list_size = (p.current_zip_list_size + entry) % 2 ^ 64;
      quick_list_node_count = p.quick_list_node_count;
      data_overhead = p.data_overhead;
    }

unfoldable pub pack_elements : Packing → List Bytes → Packing
pack_elements p [] = p
pack_elements p (element ∷ rest) = pack_elements (pack_element p element) rest

abbrev pub empty_packing : Packing
empty_packing = record {
  previous_entry_length = 0;
  current_zip_list_size = ziplist_overhead;
  quick_list_node_count = 0;
  data_overhead = 0;
}

abbrev pub top_level_overhead : Bytes → ℕ
top_level_overhead key =
    dict_entry_overhead + sds_overhead key + redis_obj_overhead + quicklist_overhead

unfoldable pub mem_overhead : ListObject → ℕ
mem_overhead o =
    let p = pack_elements empty_packing o.elements in
    (top_level_overhead o.key + quicklist_node_overhead * p.quick_list_node_count + p.data_overhead)
    % 2 ^ 64
