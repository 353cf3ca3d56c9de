-- ===== src/Objects/StringObject.antt =====
-- internal/rdb/types/string.go
use redis_agent.Common.{◌+◌, ◌%◌, ◌^◌, ℕ, Bytes, List, [], ◌∷◌, codes}
use redis_agent.Reader.{Reader, ◌>>=◌, pure}
use redis_agent.Text.{read_string}
use redis_agent.Memory.{dict_entry_overhead, sds_overhead, string_value_overhead}
use redis_agent.Objects.{RedisCmd}

pub record StringObject : Type 0 where
  pub key : Bytes
  pub value : Bytes

unfoldable pub load_from_buffer : Bytes → Reader StringObject
load_from_buffer key = do value ← read_string; pure (record { key = key; value = value })

unfoldable pub rewrite : StringObject → List RedisCmd
rewrite o = (codes "set" ∷ o.key ∷ o.value ∷ []) ∷ []

unfoldable pub mem_overhead : StringObject → ℕ
mem_overhead o = (dict_entry_overhead + sds_overhead o.key + string_value_overhead o.value) % 2 ^ 64
