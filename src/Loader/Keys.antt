-- ===== src/Loader/Keys.antt =====
-- The type byte of a value leads the loop of rdb.go to the reading of a key.
use redis_agent.Common.{◌==◌, false, Bytes, ◌≡◌, refl}
use redis_agent.Common.Int.{ℤ}
use redis_agent.Objects.ListObject.Load.{linked, zipped, quicklist, quicklist2}
use redis_agent.Objects.Packed.{in_ziplist, in_listpack}
use redis_agent.Objects.StreamObject.Groups.{listpacks, listpacks2}
use redis_agent.Objects.ZsetObject.{FloatOps}
use redis_agent.Objects.ZsetObject.Load.{with_texts, with_doubles}
use redis_agent.Dispatch.RoundTrip.{
  Value, raw_string, number_string, lzf_string, set_value, intset_value, list_value, hash_value,
  packed_hash, packed_zset, stream_value, plain_zset, value_type,
}
use redis_agent.Loader.{Loader, read_field, read_key}

module _ (ops : FloatOps) where
  pub read_field_key :
      (now : ℤ) (v : Value) (ld : Loader) (s : Bytes)
      → read_field ops now (value_type v) ld s ≡ read_key ops (value_type v) ld s
  unfolding read_field
  read_field_key now (raw_string t) ld s = refl
  read_field_key now (number_string w z) ld s = refl
  read_field_key now (lzf_string ts) ld s = refl
  read_field_key now (set_value ts) ld s = refl
  read_field_key now (intset_value w zs) ld s = refl
  read_field_key now (list_value (linked ts)) ld s = refl
  read_field_key now (list_value (zipped z)) ld s = refl
  read_field_key now (list_value (quicklist zs)) ld s = refl
  read_field_key now (list_value (quicklist2 ns)) ld s = refl
  read_field_key now (hash_value ps) ld s = refl
  read_field_key now (packed_hash (in_ziplist z) ps) ld s = refl
  read_field_key now (packed_hash (in_listpack total es) ps) ld s = refl
  read_field_key now (packed_zset (in_ziplist z) ps) ld s = refl
  read_field_key now (packed_zset (in_listpack total es) ps) ld s = refl
  read_field_key now (stream_value listpacks st) ld s = refl
  read_field_key now (stream_value listpacks2 st) ld s = refl
  read_field_key now (plain_zset (with_texts es) xs) ld s = refl
  read_field_key now (plain_zset (with_doubles es) xs) ld s = refl

pub value_type_small : (v : Value) → (value_type v == 255) ≡ false
value_type_small (raw_string t) = refl
value_type_small (number_string w z) = refl
value_type_small (lzf_string ts) = refl
value_type_small (set_value ts) = refl
value_type_small (intset_value w zs) = refl
value_type_small (list_value (linked ts)) = refl
value_type_small (list_value (zipped z)) = refl
value_type_small (list_value (quicklist zs)) = refl
value_type_small (list_value (quicklist2 ns)) = refl
value_type_small (hash_value ps) = refl
value_type_small (packed_hash (in_ziplist z) ps) = refl
value_type_small (packed_hash (in_listpack total es) ps) = refl
value_type_small (packed_zset (in_ziplist z) ps) = refl
value_type_small (packed_zset (in_listpack total es) ps) = refl
value_type_small (stream_value listpacks st) = refl
value_type_small (stream_value listpacks2 st) = refl
value_type_small (plain_zset (with_texts es) xs) = refl
value_type_small (plain_zset (with_doubles es) xs) = refl
