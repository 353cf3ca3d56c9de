-- ===== src/Objects/ListObject/Overhead.antt =====
-- The estimate of `MemOverhead` for a list.
use redis_agent.Common.{
  ℕ, suc, ◌+◌, ◌*◌, ◌^◌, ◌<◌, ◌≤◌, Bytes, List, [], ◌∷◌, length, ◌≡◌, refl, arith,
}
use redis_agent.Memory.{ziplist_overhead, zlentry_overhead, malloc_overhead, malloc_in, sort_search}
use redis_agent.Memory.Malloc.{malloc_overhead_mono}
use redis_agent.Objects.ListObject.{
  Packing, pack_element, pack_elements, empty_packing, mem_overhead,
}

-- The entries of the elements, each with the length of the one before.
abbrev pub entries_size : ℕ → List Bytes → ℕ
entries_size previous [] = 0
entries_size previous (e ∷ es) = zlentry_overhead previous e + entries_size (length e) es

pack_element_fits :
    (p : Packing) (e : Bytes)
    → p.current_zip_list_size + zlentry_overhead p.previous_entry_length e ≤ 8192
    → pack_element p e ≡ record p {
      previous_entry_length = length e;
      current_zip_list_size = p.current_zip_list_size + zlentry_overhead p.previous_entry_length e;
    }
unfolding pack_element
pack_element_fits p e h = ground arith

-- As long as the entries fit into one ziplist, neither the nodes nor the bytes are counted.
pack_elements_fit :
    (p : Packing) (es : List Bytes)
    → p.current_zip_list_size + entries_size p.previous_entry_length es ≤ 8192
    → ((pack_elements p es).quick_list_node_count ≡ p.quick_list_node_count)
      × ((pack_elements p es).data_overhead ≡ p.data_overhead)
unfolding pack_elements
pack_elements_fit p [] h = (refl, refl)
pack_elements_fit p (e ∷ es) h =
    rw (pack_element_fits p e (omega arith), pack_elements)
      (pack_elements_fit
        (record p {
          previous_entry_length = length e;
          current_zip_list_size =
              p.current_zip_list_size + zlentry_overhead p.previous_entry_length e;
        })
        es (omega arith))

-- A list whose entries fit into one ziplist of 8192 bytes is estimated at the cost of an empty
-- list: the last ziplist, and its node, are never added.
pub mem_overhead_one_ziplist :
    (key : Bytes) (es : List Bytes)
    → ziplist_overhead + entries_size 0 es ≤ 8192
    → mem_overhead (record { key = key; elements = es })
      ≡ mem_overhead (record { key = key; elements = [] })
unfolding mem_overhead pack_elements
mem_overhead_one_ziplist key es h =
    let (nodes, bytes) = pack_elements_fit empty_packing es h in rw (nodes, bytes)

-- What the loop keeps.
pub record Bounded (limit : ℕ) (p : Packing) : Type 0 where
  pub current : p.current_zip_list_size ≤ 8192
  pub nodes : p.quick_list_node_count ≤ limit
  pub bytes : p.data_overhead ≤ 8192 * p.quick_list_node_count

malloc_full : malloc_overhead 8192 ≡ 8192
unfolding malloc_overhead malloc_in sort_search
malloc_full = refl

pack_element-Bounded :
    (p : Packing) (e : Bytes) (limit : ℕ)
    → limit < 2 ^ 48
    → Bounded limit p
    → Bounded (suc limit) (pack_element p e)
unfolding pack_element
pack_element-Bounded p e limit h b =
    ground (arith, malloc_overhead_mono p.current_zip_list_size 8192 b.current, malloc_full)

pack_elements-Bounded :
    (p : Packing) (es : List Bytes) (limit : ℕ)
    → limit + length es < 2 ^ 48
    → Bounded limit p
    → Bounded (limit + length es) (pack_elements p es)
unfolding pack_elements
pack_elements-Bounded p [] limit h b = record {
  current = b.current;
  nodes = omega arith;
  bytes = b.bytes;
}
pack_elements-Bounded p (e ∷ es) limit h b =
    let same : suc limit + length es ≡ limit + suc (length es) = omega arith in
    rw same at (
      pack_elements-Bounded (pack_element p e) es (suc limit) (omega arith)
        (pack_element-Bounded p e limit (omega arith) b))

-- Below 2 ^ 48 elements the loop counts at most one node for an element, and adds at most 8192
-- bytes for a node.
pub pack_elements_bounds :
    (es : List Bytes)
    → length es < 2 ^ 48
    → ((pack_elements empty_packing es).quick_list_node_count ≤ length es)
      × ((pack_elements empty_packing es).data_overhead
          ≤ 8192 * (pack_elements empty_packing es).quick_list_node_count)
pack_elements_bounds es h =
    let b =
      pack_elements-Bounded empty_packing es 0 (omega arith)
        (record { current = omega arith; nodes = omega arith; bytes = omega arith }) in
    (omega (arith, b.nodes), b.bytes)
