-- ===== src/Tests/Objects.antt =====
-- The objects of RDB: the theorems at small inputs.
use redis_agent.Common.{ℕ, ◌*◌, ◌≤◌, Bytes, [], ◌∷◌, none, ◌≡◌, arith}
use redis_agent.Reader.{ok, panic, unknown_opcode}
use redis_agent.Memory.{zlentry_overhead}
use redis_agent.Objects.ListObject as Lists
use redis_agent.Objects.ListObject.Load.{
  quicklist2, plain, load_from_buffer-put_list, replay, replay-rewrite,
}
use redis_agent.Objects.ListObject.Overhead.{mem_overhead_one_ziplist, pack_elements_bounds}
use redis_agent.Objects.HashObject as Hashes
use redis_agent.Objects.HashObject.Laws.{lookup, last_value, load_from_buffer-put_fields}
use redis_agent.Reader.Tame.{TameAt}
use redis_agent.Objects.ModuleObject.Ends.{load_from_buffer-TameAt}
use redis_agent.Objects.ModuleObject as Modules
use redis_agent.Objects.ModuleObject.Signed.{
  unsigned, string, load_from_buffer-put_items, load_from_buffer-signed,
}
use redis_agent.Objects.ZsetObject.{FloatOps}

-- A list of Redis 7 with one long element.
load_from_buffer-put_list_test :
    Lists.load_from_buffer (107 ∷ []) 18 (1 ∷ 1 ∷ 2 ∷ 104 ∷ 105 ∷ 7 ∷ [])
    ≡ ok (record { key = 107 ∷ []; elements = (104 ∷ 105 ∷ []) ∷ [] }, 7 ∷ [])
unfolding Lists.concat
load_from_buffer-put_list_test =
    load_from_buffer-put_list (107 ∷ []) (quicklist2 (plain (104 ∷ 105 ∷ []) ∷ [])) (7 ∷ [])
      (omega arith, (omega arith, tt))

abbrev two_elements : Lists.ListObject
two_elements = record { key = 107 ∷ []; elements = (97 ∷ []) ∷ (98 ∷ 99 ∷ []) ∷ [] }

replay-rewrite_test : replay (Lists.rewrite two_elements) ≡ (97 ∷ []) ∷ (98 ∷ 99 ∷ []) ∷ []
replay-rewrite_test = replay-rewrite two_elements

mem_overhead_one_ziplist_example :
    Lists.mem_overhead two_elements ≡ Lists.mem_overhead (record { key = 107 ∷ []; elements = [] })
unfolding zlentry_overhead
mem_overhead_one_ziplist_example =
    mem_overhead_one_ziplist (107 ∷ []) ((97 ∷ []) ∷ (98 ∷ 99 ∷ []) ∷ []) (omega arith)

pack_elements_bounds_test :
    ((Lists.pack_elements Lists.empty_packing two_elements.elements).quick_list_node_count ≤ 2)
    × ((Lists.pack_elements Lists.empty_packing two_elements.elements).data_overhead
        ≤ 8192
          * (Lists.pack_elements Lists.empty_packing two_elements.elements).quick_list_node_count)
pack_elements_bounds_test = pack_elements_bounds two_elements.elements (omega arith)

-- The field "a" twice: the second value counts.
load_from_buffer-put_fields_example :
    (o : Hashes.HashObject) × (Hashes.load_from_buffer
        (107 ∷ [])
        4
        (2 ∷ 1 ∷ 97 ∷ 1 ∷ 98 ∷ 1 ∷ 97 ∷ 1 ∷ 99 ∷ 7 ∷ [])
      ≡ ok (o, 7 ∷ []))
    × (o.key ≡ 107 ∷ [])
    × ((field : Bytes)
        → lookup field o.value
          ≡ last_value field ((97 ∷ [], 98 ∷ []) ∷ (97 ∷ [], 99 ∷ []) ∷ []) none)
load_from_buffer-put_fields_example =
    load_from_buffer-put_fields (107 ∷ []) ((97 ∷ [], 98 ∷ []) ∷ (97 ∷ [], 99 ∷ []) ∷ []) (7 ∷ [])
      (omega arith) ((omega arith, omega arith), ((omega arith, omega arith), tt))

-- Floating point numbers that the tests do not use.
abbrev pub no_floats : FloatOps
no_floats = record {
  Float = ℕ;
  nan = 1;
  pos_inf = 2;
  neg_inf = 3;
  zero_float = 0;
  parse_float = λ bs. none;
  from_bits = λ bits. bits;
  format_float = λ v. [];
}

load_from_buffer-put_items_test :
    Modules.load_from_buffer no_floats 7 (1 ∷ 2 ∷ 9 ∷ 5 ∷ 1 ∷ 97 ∷ 0 ∷ 7 ∷ []) ≡ ok (tt, 7 ∷ [])
load_from_buffer-put_items_test =
    load_from_buffer-put_items no_floats 1 (unsigned 9 ∷ string (97 ∷ []) ∷ []) (7 ∷ [])
      (omega arith) (omega arith, (omega arith, tt))

load_from_buffer-signed_example :
    Modules.load_from_buffer no_floats 7 (1 ∷ 1 ∷ 9 ∷ 0 ∷ []) ≡ panic (unknown_opcode 9)
load_from_buffer-signed_example =
    load_from_buffer-signed no_floats 1 9 (0 ∷ []) (omega arith) (omega arith) (omega arith)

load_from_buffer-TameAt_test : TameAt 4 (Modules.load_from_buffer no_floats 7 (1 ∷ 3 ∷ 1 ∷ 48 ∷ []))
load_from_buffer-TameAt_test = load_from_buffer-TameAt no_floats 7 (1 ∷ 3 ∷ 1 ∷ 48 ∷ [])
