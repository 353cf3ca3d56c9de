-- ===== src/Objects/ListObject/Load.antt =====
-- What `LoadFromBuffer` makes of the encodings of a list, and the commands that give the list back.
use redis_agent.Common.{
  ℕ, ◌^◌, ◌<◌, Bytes, List, [], ◌∷◌, ◌++◌, map, length, codes, ◌≡◌, refl, ◌∙◌, ap, arith, All,
}
use redis_agent.Reader.{ok, repeat_read}
use redis_agent.Reader.Laws.{bind_ok, repeat_read-put_all}
use redis_agent.Length.{read_length}
use redis_agent.Length.RoundTrip.{put_length, read_length-put_length}
use redis_agent.Text.{read_string}
use redis_agent.Length.Counted.{put_counted, counted, rounds_of}
use redis_agent.Text.RoundTrip.{put_raw, read_string-put_raw}
use redis_agent.ZipList.{read_zip_list}
use redis_agent.ZipList.RoundTrip as Zip
use redis_agent.Listpack.RoundTrip as Pack
use redis_agent.Objects.{RedisCmd}
use redis_agent.Objects.ListObject.{
  ListObject, concat, read_list, read_quick_list, read_container, read_node, read_quick_list2,
  read_elements, load_from_buffer, rewrite,
}

pub map_id : (ts : List Bytes) → map (λ t. t) ts ≡ ts
map_id [] = refl
map_id (t ∷ ts) = ap (λ r. t ∷ r) (map_id ts)

abbrev pub IsShort : Bytes → Type 0
IsShort t = length t < 2 ^ 63

-- A ziplist with its two skipped words.
pub record Zipped : Type 0 where
  pub zlbytes : ℕ
  pub zltail : ℕ
  pub entries : List Zip.Stored

abbrev pub zip_bytes : Zipped → Bytes
zip_bytes z =
    Zip.put_zip_list z.zlbytes z.zltail (length z.entries) (Zip.put_entries z.entries (0xff ∷ []))

pub record ZippedFits (z : Zipped) : Type 0 where
  pub zlbytes_fits : z.zlbytes < 2 ^ 32
  pub zltail_fits : z.zltail < 2 ^ 32
  pub few : length z.entries < 65535
  pub entries_fit : All Zip.StoredFits z.entries
  pub short : length (zip_bytes z) < 2 ^ 63

abbrev pub put_zipped : Zipped → Bytes → Bytes
put_zipped z s = put_raw (zip_bytes z) s

abbrev pub zipped_elements : Zipped → List Bytes
zipped_elements z = Zip.all_shown z.entries

pub read_zip_list-put_zipped :
    (z : Zipped) (s : Bytes)
    → ZippedFits z
    → read_zip_list (put_zipped z s) ≡ ok (zipped_elements z, s)
read_zip_list-put_zipped z s h =
    Zip.read_zip_list-put_zip_list z.zlbytes z.zltail z.entries s h.zlbytes_fits h.zltail_fits h.few
      h.entries_fit h.short

-- A node of a list of Redis 7: one long element, or a packed list.
pub data Node : Type 0 where
  plain : Bytes → Node
  packed : ℕ → List Pack.Stored → Node

abbrev pub put_node : Node → Bytes → Bytes
put_node (plain t) s = put_length 1 (put_raw t s)
put_node (packed total es) s = put_length 2 (put_raw (Pack.put_listpack total es) s)

abbrev pub NodeFits : Node → Type 0
NodeFits (plain t) = IsShort t
NodeFits (packed total es) =
    (total < 2 ^ 32)
    × (length es < 2 ^ 16)
    × All Pack.StoredFits es
    × (length (Pack.put_listpack total es) < 2 ^ 63)

abbrev pub node_elements : Node → List Bytes
node_elements (plain t) = t ∷ []
node_elements (packed total es) = Pack.meanings es

read_node-put_node :
    (n : Node) (s : Bytes) → NodeFits n → read_node (put_node n s) ≡ ok (node_elements n, s)
unfolding read_node read_container
read_node-put_node (plain t) s h =
    bind_ok read_length read_container _ (read_length-put_length 1 _ (omega arith))
    ∙ bind_ok read_string _ _ (read_string-put_raw t s h)
read_node-put_node (packed total es) s (h, n, fits, size) =
    bind_ok read_length read_container _ (read_length-put_length 2 _ (omega arith))
    ∙ Pack.read_listpack-put_listpack total es s h n fits size

-- The four encodings of a list.
pub data Encoding : Type 0 where
  linked : List Bytes → Encoding
  zipped : Zipped → Encoding
  quicklist : List Zipped → Encoding
  quicklist2 : List Node → Encoding

abbrev pub type_byte_of : Encoding → ℕ
type_byte_of (linked ts) = 1
type_byte_of (zipped z) = 10
type_byte_of (quicklist zs) = 14
type_byte_of (quicklist2 ns) = 18

abbrev pub put_list : Encoding → Bytes → Bytes
put_list (linked ts) s = put_counted put_raw ts s
put_list (zipped z) s = put_zipped z s
put_list (quicklist zs) s = put_counted put_zipped zs s
put_list (quicklist2 ns) s = put_counted put_node ns s

abbrev pub EncodingFits : Encoding → Type 0
EncodingFits (linked ts) = (length ts < 2 ^ 63) × All IsShort ts
EncodingFits (zipped z) = ZippedFits z
EncodingFits (quicklist zs) = (length zs < 2 ^ 63) × All ZippedFits zs
EncodingFits (quicklist2 ns) = (length ns < 2 ^ 63) × All NodeFits ns

abbrev pub elements_of : Encoding → List Bytes
elements_of (linked ts) = ts
elements_of (zipped z) = zipped_elements z
elements_of (quicklist zs) = concat (map zipped_elements zs)
elements_of (quicklist2 ns) = concat (map node_elements ns)

read_elements-put_list :
    (e : Encoding) (s : Bytes)
    → EncodingFits e
    → read_elements (type_byte_of e) (put_list e s) ≡ ok (elements_of e, s)
unfolding read_elements read_list read_quick_list read_quick_list2
read_elements-put_list (linked ts) s (n, h) =
    counted read_string put_raw (λ t. t) IsShort read_string-put_raw ts s n h
    ∙ ap (λ v. ok (v, s)) (map_id ts)
read_elements-put_list (zipped z) s h = read_zip_list-put_zipped z s h
read_elements-put_list (quicklist zs) s (n, h) =
    bind_ok read_length _ _ (read_length-put_length (length zs) _ (omega arith))
    ∙ rw (rounds_of (length zs) n) (
        bind_ok (repeat_read (length zs) read_zip_list) _ _ (
          repeat_read-put_all read_zip_list put_zipped zipped_elements ZippedFits
            read_zip_list-put_zipped zs s h))
read_elements-put_list (quicklist2 ns) s (n, h) =
    bind_ok read_length _ _ (read_length-put_length (length ns) _ (omega arith))
    ∙ rw (rounds_of (length ns) n) (
        bind_ok (repeat_read (length ns) read_node) _ _
          (repeat_read-put_all read_node put_node node_elements NodeFits read_node-put_node ns s h))

-- A list in any of its four encodings (plain, one ziplist, ziplists, and nodes that are an element
-- or a packed list) is loaded under its key as its elements, in order, and what follows it is left.
-- Every string is shorter than 2 ^ 63 bytes, there are fewer than 2 ^ 63 strings or nodes, each
-- ziplist has fewer than 65535 entries and each packed list fewer than 2 ^ 16.
pub load_from_buffer-put_list :
    (key : Bytes) (e : Encoding) (s : Bytes)
    → EncodingFits e
    → load_from_buffer key (type_byte_of e) (put_list e s)
      ≡ ok (record { key = key; elements = elements_of e }, s)
unfolding load_from_buffer
load_from_buffer-put_list key e s h =
    bind_ok (read_elements (type_byte_of e)) _ _ (read_elements-put_list e s h)

-- What Redis makes of a list of `rpush` commands on one key.
abbrev pub pushed : RedisCmd → List Bytes
pushed (name ∷ key ∷ values) = values
pushed _ = []

abbrev pub replay : List RedisCmd → List Bytes
replay [] = []
replay (c ∷ cs) = pushed c ++ replay cs

-- The commands of `Rewrite`, run in order, build the list again.
pub replay-rewrite : (o : ListObject) → replay (rewrite o) ≡ o.elements
unfolding rewrite
replay-rewrite o = go o.elements
  where
    go : (es : List Bytes) → replay (map (λ ele. codes "rpush" ∷ o.key ∷ ele ∷ []) es) ≡ es
    go [] = refl
    go (e ∷ es) = ap (λ t. e ∷ t) (go es)
