-- ===== src/Loader/Sent.antt =====
-- What the loop of rdb.go sends, whatever the input is.
use redis_agent.Common.{
  ℕ, ◌+◌, ◌%◌, ◌^◌, true, false, if◌then◌else◌, Bytes, List, [], ◌∷◌, ◌++◌, codes, ◌≡◌, ◌⊎◌, All,
}
use redis_agent.Reader.{Result, ok, panic, stuck, Reader}
use redis_agent.Objects.ZsetObject.{FloatOps}
use redis_agent.Dispatch.{RedisObject, parse_object, mem_overhead}
use redis_agent.Loader.{Entry, Loader}

-- An entry of a key: no command, and the estimate of an object that `ParseObject` has made of some
-- bytes under that key, with 24 bytes more where the key expires.
pub record IsKeyEntry (ops : FloatOps) (e : Entry) : Type 0 where
  pub from_dump : e.is_base ≡ true
  pub unnumbered : e.id ≡ 0
  pub no_command : e.argv ≡ []
  pub type_byte : ℕ
  pub object : RedisObject
  pub read_from : Bytes
  pub left : Bytes
  pub parsed : parse_object ops type_byte e.key read_from ≡ ok (object, left)
  pub estimated :
      e.overhead
      ≡ (if e.is_expire_key then (mem_overhead object + 24) % 2 ^ 64 else mem_overhead object)

-- An entry of a script: `SCRIPT LOAD`, of no key and no overhead.
pub record IsScriptEntry (e : Entry) : Type 0 where
  pub from_dump : e.is_base ≡ true
  pub script : Bytes
  pub command : e.argv ≡ codes "script" ∷ codes "load" ∷ script ∷ []
  pub no_key : e.key ≡ []
  pub no_overhead : e.overhead ≡ 0
  pub no_expiry : e.is_expire_key ≡ false

abbrev pub IsSent : FloatOps → Entry → Type 0
IsSent ops e = IsKeyEntry ops e ⊎ IsScriptEntry e

-- The second loader has sent what the first one has, and more.
abbrev pub Extends : FloatOps → Loader → Loader → Type 0
Extends ops ld ld' = (more : List Entry) × (ld'.ch ≡ ld.ch ++ more) × All (IsSent ops) more

-- Of the value of a success.
abbrev pub Ensures : {A : Type 0} → (A → Type 0) → Result (A × Bytes) → Type 0
Ensures P (ok (a, s)) = P a
Ensures P (panic e) = Unit
Ensures P stuck = Unit
