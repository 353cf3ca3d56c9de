-- ===== src/Dispatch/RoundTrip.antt =====
-- The values that `ParseObject` reads back from what Redis writes for them, strings, lists, sets,
-- hashes, sorted sets and streams.
use redis_agent.Common.{List, map, ℕ, ◌^◌, ◌<◌, Bytes, [], length, ◌≡◌, ◌∙◌, ap, sym, All}
use redis_agent.Common.Int.{ℤ}
use redis_agent.Reader.{ok}
use redis_agent.Reader.Laws.{bind_ok}
use redis_agent.Numbers.Laws.{Fits}
use redis_agent.Length.Counted.{put_counted}
use redis_agent.Text.{read_string}
use redis_agent.Decimal.{format_int}
use redis_agent.Text.RoundTrip.{
  put_raw, read_string-put_raw, SmallWidth, bits, put_number, read_string-put_number, put_lzf,
  read_string-put_lzf,
}
use redis_agent.Objects.StringObject as Strings
use redis_agent.Lzf.Tokens
use redis_agent.Lzf.Tokens.{Token, put_tokens, expand}
use redis_agent.Intset.RoundTrip.{IntWidth, bits_of, put_intset}
use redis_agent.Objects.SetObject as Sets
use redis_agent.Objects.SetObject.Load.{load_from_buffer-put_members, load_from_buffer-put_intset}
use redis_agent.Objects.ListObject as Lists
use redis_agent.Objects.ListObject.Load as Load
use redis_agent.Objects.HashObject as Hashes
use redis_agent.Objects.HashObject.Laws.{put_pair, PairFits, read_hash_object-put_fields}
use redis_agent.Objects.ZsetObject.{FloatOps, ZsetEntry, entry_of}
use redis_agent.Objects.ZsetObject as Zsets
use redis_agent.Objects.Packed.{
  Packed, in_ziplist, in_listpack, put_packed, PairsFit, hash_type, zset_type,
  load_from_buffer-put_hash, load_from_buffer-put_zset,
}
use redis_agent.Objects.ZsetObject.Load.{
  Plain, with_texts, with_doubles, plain_type, put_plain, PlainFits, plain_elements,
  load_from_buffer-put_plain,
}
use redis_agent.Objects.StreamObject as Streams
use redis_agent.Objects.StreamObject.Groups.{Format, listpacks, listpacks2, type_of}
use redis_agent.Objects.StreamObject.RoundTrip.{
  Stream, StreamFits, put_stream, stream_commands, load_from_buffer-put_stream,
}
use redis_agent.Dispatch.{
  stream_object, RedisObject, string_object, list_object, set_object, hash_object, zset_object,
  parse_object,
}

pub data Value : Type 0 where
  raw_string : Bytes → Value
  number_string : SmallWidth → ℤ → Value
  lzf_string : List Token → Value
  set_value : List Bytes → Value
  intset_value : IntWidth → List ℤ → Value
  list_value : Load.Encoding → Value
  hash_value : Hashes.Fields → Value
  packed_hash : Packed → Hashes.Fields → Value
  packed_zset : Packed → List (Bytes × Bytes) → Value
  stream_value : Format → Stream → Value
  plain_zset : Plain → List ZsetEntry → Value

abbrev pub value_type : Value → ℕ
value_type (raw_string t) = 0
value_type (number_string w z) = 0
value_type (lzf_string ts) = 0
value_type (set_value ts) = 2
value_type (intset_value w zs) = 11
value_type (list_value e) = Load.type_byte_of e
value_type (hash_value ps) = 4
value_type (packed_hash p ps) = hash_type p
value_type (packed_zset p ps) = zset_type p
value_type (stream_value f st) = type_of f
value_type (plain_zset z es) = plain_type z

abbrev pub put_value : Value → Bytes → Bytes
put_value (raw_string t) s = put_raw t s
put_value (number_string w z) s = put_number w z s
put_value (lzf_string ts) s = put_lzf ts s
put_value (set_value ts) s = put_counted put_raw ts s
put_value (intset_value w zs) s = put_raw (put_intset w zs) s
put_value (list_value e) s = Load.put_list e s
put_value (hash_value ps) s = put_counted put_pair ps s
put_value (packed_hash p ps) s = put_packed p s
put_value (packed_zset p ps) s = put_packed p s
put_value (stream_value f st) s = put_stream f st s
put_value (plain_zset z es) s = put_plain z s

abbrev pub ValueFits : FloatOps → Value → Type 0
ValueFits ops (raw_string t) = length t < 2 ^ 63
ValueFits ops (number_string w z) = Fits (bits w) z
ValueFits ops (lzf_string ts) =
    Tokens.Fits ts [] × (length (put_tokens ts) < 2 ^ 63) × (length (expand ts []) < 2 ^ 63)
ValueFits ops (set_value ts) = (length ts < 2 ^ 63) × All Load.IsShort ts
ValueFits ops (intset_value w zs) =
    (length zs < 2 ^ 32) × All (Fits (bits_of w)) zs × (length (put_intset w zs) < 2 ^ 63)
ValueFits ops (list_value e) = Load.EncodingFits e
ValueFits ops (hash_value ps) = (length ps < 2 ^ 63) × All PairFits ps
ValueFits ops (packed_hash p ps) = PairsFit p ps
ValueFits ops (packed_zset p ps) = PairsFit p ps
ValueFits ops (stream_value f st) = StreamFits st
ValueFits ops (plain_zset z es) = PlainFits ops z × (es ≡ plain_elements ops z)

abbrev pub object_of : Bytes → Value → RedisObject
object_of key (raw_string t) = string_object (record { key = key; value = t })
object_of key (number_string w z) = string_object (record { key = key; value = format_int z })
object_of key (lzf_string ts) = string_object (record { key = key; value = expand ts [] })
object_of key (set_value ts) = set_object (record { key = key; elements = ts })
object_of key (intset_value w zs) = set_object (record { key = key; elements = map format_int zs })
object_of key (list_value e) = list_object (record { key = key; elements = Load.elements_of e })
object_of key (hash_value ps) = hash_object (record { key = key; value = Hashes.insert_all ps [] })
object_of key (packed_hash p ps) =
    hash_object (record { key = key; value = Hashes.insert_all ps [] })
object_of key (packed_zset p ps) = zset_object (record { key = key; elements = map entry_of ps })
object_of key (plain_zset z es) = zset_object (record { key = key; elements = es })
object_of key (stream_value f st) =
    stream_object (record { key = key; cmds = stream_commands key st })

parse_object-put_list :
    (ops : FloatOps) (key : Bytes) (e : Load.Encoding) (s : Bytes)
    → Load.EncodingFits e
    → parse_object ops (Load.type_byte_of e) key (Load.put_list e s)
      ≡ ok (object_of key (list_value e), s)
unfolding parse_object
parse_object-put_list ops key (Load.linked ts) s h =
    bind_ok (Lists.load_from_buffer key 1) _ _
      (Load.load_from_buffer-put_list key (Load.linked ts) s h)
parse_object-put_list ops key (Load.zipped z) s h =
    bind_ok (Lists.load_from_buffer key 10) _ _
      (Load.load_from_buffer-put_list key (Load.zipped z) s h)
parse_object-put_list ops key (Load.quicklist zs) s h =
    bind_ok (Lists.load_from_buffer key 14) _ _
      (Load.load_from_buffer-put_list key (Load.quicklist zs) s h)
parse_object-put_list ops key (Load.quicklist2 ns) s h =
    bind_ok (Lists.load_from_buffer key 18) _ _
      (Load.load_from_buffer-put_list key (Load.quicklist2 ns) s h)

parse_object-put_packed_hash :
    (ops : FloatOps) (key : Bytes) (p : Packed) (ps : Hashes.Fields) (s : Bytes)
    → PairsFit p ps
    → parse_object ops (hash_type p) key (put_packed p s) ≡ ok (object_of key (packed_hash p ps), s)
unfolding parse_object
parse_object-put_packed_hash ops key (in_ziplist z) ps s h =
    bind_ok (Hashes.load_from_buffer key 13) _ _
      (load_from_buffer-put_hash key (in_ziplist z) ps s h)
parse_object-put_packed_hash ops key (in_listpack total es) ps s h =
    bind_ok (Hashes.load_from_buffer key 16) _ _
      (load_from_buffer-put_hash key (in_listpack total es) ps s h)

parse_object-put_packed_zset :
    (ops : FloatOps) (key : Bytes) (p : Packed) (ps : List (Bytes × Bytes)) (s : Bytes)
    → PairsFit p ps
    → parse_object ops (zset_type p) key (put_packed p s) ≡ ok (object_of key (packed_zset p ps), s)
unfolding parse_object
parse_object-put_packed_zset ops key (in_ziplist z) ps s h =
    bind_ok (Zsets.load_from_buffer ops key 12) _ _
      (load_from_buffer-put_zset ops key (in_ziplist z) ps s h)
parse_object-put_packed_zset ops key (in_listpack total es) ps s h =
    bind_ok (Zsets.load_from_buffer ops key 17) _ _
      (load_from_buffer-put_zset ops key (in_listpack total es) ps s h)

parse_object-put_stream :
    (ops : FloatOps) (key : Bytes) (f : Format) (st : Stream) (s : Bytes)
    → StreamFits st
    → parse_object ops (type_of f) key (put_stream f st s)
      ≡ ok (object_of key (stream_value f st), s)
unfolding parse_object
parse_object-put_stream ops key listpacks st s h =
    bind_ok (Streams.load_from_buffer key 15) _ _ (load_from_buffer-put_stream key listpacks st s h)
parse_object-put_stream ops key listpacks2 st s h =
    bind_ok (Streams.load_from_buffer key 19) _ _
      (load_from_buffer-put_stream key listpacks2 st s h)

parse_object-put_plain_zset :
    (ops : FloatOps) (key : Bytes) (z : Plain) (s : Bytes)
    → PlainFits ops z
    → parse_object ops (plain_type z) key (put_plain z s)
      ≡ ok (zset_object (record { key = key; elements = plain_elements ops z }), s)
unfolding parse_object
parse_object-put_plain_zset ops key (with_texts es) s h =
    bind_ok (Zsets.load_from_buffer ops key 3) _ _
      (load_from_buffer-put_plain ops key (with_texts es) s h)
parse_object-put_plain_zset ops key (with_doubles es) s h =
    bind_ok (Zsets.load_from_buffer ops key 5) _ _
      (load_from_buffer-put_plain ops key (with_doubles es) s h)

-- A string in any of its encodings, a list in any of its four, a set in either of its two, a hash,
-- plain or packed into a ziplist or a listpack, a sorted set packed into either or
-- with its scores as texts or as doubles, or a stream in either format (each length and number
-- within its width, each text of a score one that is parsed) is read back by `ParseObject` as the
-- object with that key and content, and what follows it is left.
pub parse_object-put_value :
    (ops : FloatOps) (key : Bytes) (v : Value) (s : Bytes)
    → ValueFits ops v
    → parse_object ops (value_type v) key (put_value v s) ≡ ok (object_of key v, s)
unfolding parse_object Strings.load_from_buffer
parse_object-put_value ops key (raw_string t) s h =
    bind_ok (Strings.load_from_buffer key) _ _ (bind_ok read_string _ _ (read_string-put_raw t s h))
parse_object-put_value ops key (number_string w z) s h =
    bind_ok (Strings.load_from_buffer key) _ _
      (bind_ok read_string _ _ (read_string-put_number w z s h))
parse_object-put_value ops key (lzf_string ts) s (h, hin, hout) =
    bind_ok (Strings.load_from_buffer key) _ _
      (bind_ok read_string _ _ (read_string-put_lzf ts s h hin hout))
parse_object-put_value ops key (set_value ts) s (n, h) =
    bind_ok (Sets.load_from_buffer key 2) _ _ (load_from_buffer-put_members key ts s n h)
parse_object-put_value ops key (intset_value w zs) s (n, h, size) =
    bind_ok (Sets.load_from_buffer key 11) _ _ (load_from_buffer-put_intset key w zs s n h size)
parse_object-put_value ops key (list_value e) s h = parse_object-put_list ops key e s h
parse_object-put_value ops key (hash_value ps) s (n, h) =
    bind_ok (Hashes.load_from_buffer key 4) _ _ (read_hash_object-put_fields key ps s n h)
parse_object-put_value ops key (packed_hash p ps) s h =
    parse_object-put_packed_hash ops key p ps s h
parse_object-put_value ops key (packed_zset p ps) s h =
    parse_object-put_packed_zset ops key p ps s h
parse_object-put_value ops key (stream_value f st) s h = parse_object-put_stream ops key f st s h
parse_object-put_value ops key (plain_zset z es) s (h, shown) =
    parse_object-put_plain_zset ops key z s h
    ∙ ap (λ xs. ok (zset_object (record { key = key; elements = xs }), s)) (sym shown)
