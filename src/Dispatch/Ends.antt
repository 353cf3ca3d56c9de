-- ===== src/Dispatch/Ends.antt =====
-- Reading a value of any type ends on every input.
use redis_agent.Common.{ℕ, ◌==◌, Bytes}
use redis_agent.Reader.{Reader, ◌>>=◌, pure, unknown_type}
use redis_agent.Reader.Tame.{Tame, pure-Tame, raise-Tame, if-Tame, bind-Tame}
use redis_agent.Objects.Ends.{string-Tame, list-Tame, set-Tame, hash-Tame, zset-Tame}
use redis_agent.Objects.StringObject as Strings
use redis_agent.Objects.ListObject as Lists
use redis_agent.Objects.SetObject as Sets
use redis_agent.Objects.HashObject as Hashes
use redis_agent.Objects.ZsetObject as Zsets
use redis_agent.Objects.ZsetObject.{FloatOps}
use redis_agent.Objects.StreamObject as Streams
use redis_agent.Objects.ModuleObject as Modules
use redis_agent.Objects.StreamObject.Ends.{stream-Tame}
use redis_agent.Objects.ModuleObject.Ends.{load_from_buffer-TameAt}
use redis_agent.Dispatch.{
  RedisObject, string_object, list_object, set_object, zset_object, hash_object, stream_object,
  module_object, is_list, is_set, is_zset, is_hash, is_stream, is_module, parse_object,
}

wrap-Tame :
    {A : Type 0} (m : Reader A) (f : A → RedisObject) → Tame m → Tame (m >>= λ o. pure (f o))
wrap-Tame m f h = bind-Tame m _ h (λ o. pure-Tame (f o))

module _ (ops : FloatOps) (type_byte : ℕ) (key : Bytes) where
  pub parse_object-Tame : Tame (parse_object ops type_byte key)
  unfolding parse_object
  parse_object-Tame =
      if-Tame (type_byte == 0) _ _
        (wrap-Tame (Strings.load_from_buffer key) string_object (string-Tame key))
        (if-Tame (is_list type_byte) _ _
          (wrap-Tame (Lists.load_from_buffer key type_byte) list_object (list-Tame key type_byte))
          (if-Tame (is_set type_byte) _ _
            (wrap-Tame (Sets.load_from_buffer key type_byte) set_object (set-Tame key type_byte))
            (if-Tame (is_zset type_byte) _ _
              (wrap-Tame (Zsets.load_from_buffer ops key type_byte) zset_object
                (zset-Tame ops key type_byte))
              (if-Tame (is_hash type_byte) _ _
                (wrap-Tame (Hashes.load_from_buffer key type_byte) hash_object
                  (hash-Tame key type_byte))
                (if-Tame (is_stream type_byte) _ _
                  (wrap-Tame (Streams.load_from_buffer key type_byte) stream_object
                    (stream-Tame key type_byte))
                  (if-Tame (is_module type_byte) _ _
                    (wrap-Tame (Modules.load_from_buffer ops type_byte) (λ _. module_object)
                      (record { at = load_from_buffer-TameAt ops type_byte }))
                    (raise-Tame (unknown_type type_byte))))))))
