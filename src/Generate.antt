-- ===== src/Generate.antt =====
-- task/generate.go: the data that a task generates for a user. The replies of the server to the
-- `Set` commands and the random values are arguments, by the number of the round.
pub mod Keys
pub mod Counted
use redis_agent.Common.{
  ℕ, zero, suc, ◌+◌, ◌||◌, Bool, if◌then◌else◌, Bytes, List, [], ◌∷◌, ◌++◌, codes, same_bytes,
  Option, none, some,
}
use redis_agent.Decimal.{format_uint}

pub record GenerateUserDataParam : Type 0 where
  pub user_name : Bytes
  pub redis_type : Bytes
  pub count : ℕ

-- Whether `CheckRedisType` gives no error.
unfoldable pub check_redis_type : GenerateUserDataParam → Bool
check_redis_type param =
    same_bytes param.redis_type (codes "string")
    || (same_bytes param.redis_type (codes "list")
        || (same_bytes param.redis_type (codes "hash")
            || (same_bytes param.redis_type (codes "set")
                || same_bytes param.redis_type (codes "zset"))))

-- The key of round i: `param.UserName + ":" + fmt.Sprintf("%d", i)`.
abbrev pub key_at : Bytes → ℕ → Bytes
key_at user_name i = user_name ++ codes ":" ++ format_uint i

-- The `Set` commands sent, and the error that is returned.
pub record Made : Type 0 where
  pub sent : List (Bytes × Bytes)
  pub err : Option Bytes

abbrev pub after_set : Bytes × Bytes → Option Bytes → Made → Made
after_set command none rest = record { sent = command ∷ rest.sent; err = rest.err }
after_set command (some err) rest = record { sent = command ∷ []; err = some err }

-- The rounds from i on, of which there are n.
unfoldable pub set_from : (ℕ → Bytes) → (ℕ → Option Bytes) → Bytes → ℕ → ℕ → Made
set_from values replies user_name i zero = record { sent = []; err = none }
set_from values replies user_name i (suc n) =
    let rest = set_from values replies user_name (i + 1) n in
    after_set (key_at user_name i, values i) (replies i) rest

unfoldable pub generate_string : (ℕ → Bytes) → (ℕ → Option Bytes) → GenerateUserDataParam → Made
generate_string values replies param = set_from values replies param.user_name 0 param.count

-- `generateList`, `generateHash`, `generateSet` and `generateZSet`.
abbrev pub generate_nothing : Made
generate_nothing = record { sent = []; err = none }

unfoldable pub generate_data : (ℕ → Bytes) → (ℕ → Option Bytes) → GenerateUserDataParam → Made
generate_data values replies param =
    if same_bytes param.redis_type (codes "string")
    then generate_string values replies param
    else generate_nothing
