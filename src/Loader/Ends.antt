-- ===== src/Loader/Ends.antt =====
-- Reading a dump ends on every input.
use redis_agent.Common.{
  ℕ, zero, suc, ◌*◌, ◌<◌, ◌==◌, Bytes, [], ◌∷◌, length, take, drop, codes, same_bytes, Option, none,
  some, arith,
}
use redis_agent.Common.Int.{ℤ, pos, sub64, int_of_u64}
use redis_agent.Reader.{pure, read_byte, read_bytes, bad_magic}
use redis_agent.Reader.Tame.{
  Tame, TameAt, TameAt-weaken, pure-Tame, raise-Tame, if-Tame, if-TameAt, bind-Tame, bind_within,
  read_bytes-Tame,
}
use redis_agent.Numbers.{read_uint32, read_uint64}
use redis_agent.Numbers.Ends.{read_byte-Tame, read_uint32-Tame, read_uint64-Tame}
use redis_agent.Length.{read_length}
use redis_agent.Text.{read_string}
use redis_agent.Text.Ends.{read_string-Tame, read_length-Tame}
use redis_agent.Decimal.{parse_int}
use redis_agent.Objects.ZsetObject.{FloatOps}
use redis_agent.Dispatch.{parse_object, mem_overhead}
use redis_agent.Dispatch.Ends.{parse_object-Tame}
use redis_agent.Loader.{
  Loader, Round, with_db, with_expire, with_idle, with_freq, with_now_db, send, script_entry,
  send_key, aux_field, read_aux, read_key, read_field, is_master, end_round, next_round,
  read_rounds, parse_rdb_entry, check_magic, check_version, parse_rdb,
}

with_db-Tame : (o : Option ℤ) (ld : Loader) → Tame (with_db o ld)
with_db-Tame none ld = record { at = λ s. tt }
with_db-Tame (some db) ld = record { at = λ s. omega arith }

aux_field-Tame : (key value : Bytes) (ld : Loader) → Tame (aux_field key value ld)
unfolding aux_field
aux_field-Tame key value ld =
    if-Tame (same_bytes key (codes "repl-stream-db")) _ _ (with_db-Tame (parse_int value) ld) (
      if-Tame (same_bytes key (codes "lua")) _ _ (pure-Tame (send (script_entry value) ld))
        (pure-Tame ld))

read_aux-Tame : (ld : Loader) → Tame (read_aux ld)
unfolding read_aux
read_aux-Tame ld =
    bind-Tame read_string _ read_string-Tame
      (λ key. bind-Tame read_string _ read_string-Tame (λ value. aux_field-Tame key value ld))

module _ (ops : FloatOps) where
  read_key-Tame : (type_byte : ℕ) (ld : Loader) → Tame (read_key ops type_byte ld)
  unfolding read_key
  read_key-Tame type_byte ld = bind-Tame read_string _ read_string-Tame (λ key.
      bind-Tame (parse_object ops type_byte key) _ (parse_object-Tame ops type_byte key)
        (λ o. pure-Tame (send_key key (mem_overhead o) ld)))

  pub read_field-Tame : (now : ℤ) (t : ℕ) (ld : Loader) → Tame (read_field ops now t ld)
  unfolding read_field
  read_field-Tame now t ld =
      if-Tame (t == 0xf8) _ _
        (bind-Tame read_length _ read_length-Tame (λ n. pure-Tame (with_idle (int_of_u64 n) ld)))
        (if-Tame (t == 0xf9) _ _
          (bind-Tame read_byte _ read_byte-Tame (λ b. pure-Tame (with_freq (pos b) ld)))
          (if-Tame (t == 0xfa) _ _ (read_aux-Tame ld) (
            if-Tame (t == 0xfb) _ _
              (bind-Tame read_length _ read_length-Tame
                (λ _. bind-Tame read_length _ read_length-Tame (λ _. pure-Tame ld)))
              (if-Tame (t == 0xfc) _ _
                (bind-Tame read_uint64 _ read_uint64-Tame
                  (λ v. pure-Tame (with_expire (sub64 (int_of_u64 v) now) ld)))
                (if-Tame (t == 0xfd) _ _
                  (bind-Tame read_uint32 _ read_uint32-Tame
                    (λ v. pure-Tame (with_expire (sub64 (pos (v * 1000)) now) ld)))
                  (if-Tame (t == 0xfe) _ _
                    (bind-Tame read_length _ read_length-Tame
                      (λ n. pure-Tame (with_now_db (int_of_u64 n) ld)))
                    (read_key-Tame t ld)))))))

  -- With more rounds than bytes the loop does not run out of them.
  pub read_rounds_at :
      (world : ℕ → Round) (fuel i : ℕ) (ld : Loader) (s : Bytes)
      → length s < fuel
      → TameAt (length s) (read_rounds ops world fuel i ld s)
  unfolding read_rounds next_round end_round read_byte
  read_rounds_at world zero i ld s h = absurd (omega arith)
  read_rounds_at world (suc fuel) i ld [] h = tt
  read_rounds_at world (suc fuel) i ld (b ∷ s) h =
      TameAt-weaken _ (length s) (suc (length s)) (omega arith) (
        if-TameAt (b == 0xff) (pure ld s) _ (length s) (omega arith) (
          bind_within (read_field ops (world i).now b ld)
            (end_round (read_rounds ops world fuel (suc i)) (world i).tick)
            (read_field ops (world i).now b ld s) (length s)
            (λ ld' s' k.
              if-TameAt (is_master (world i).tick) (pure ld' s') _ (length s') (omega arith)
                (read_rounds_at world fuel (suc i) ld' s' (omega arith)))
            ((read_field-Tame (world i).now b ld).at s)))

  parse_rdb_entry-Tame : (world : ℕ → Round) (ld : Loader) → Tame (parse_rdb_entry ops world ld)
  unfolding parse_rdb_entry
  parse_rdb_entry-Tame world ld = record {
    at = λ s. read_rounds_at world (suc (length s)) 0 ld s (omega arith);
  }

  check_magic-Tame : (buf : Bytes) → Tame (check_magic buf)
  unfolding check_magic
  check_magic-Tame buf =
      if-Tame (same_bytes (take 5 buf) (codes "REDIS")) _ _ (pure-Tame tt) (raise-Tame bad_magic)

  check_version-Tame : (o : Option ℤ) → Tame (check_version o)
  unfolding check_version
  check_version-Tame none = record { at = λ s. tt }
  check_version-Tame (some version) = pure-Tame tt

  parse_rdb-Tame : (world : ℕ → Round) (ld : Loader) → Tame (parse_rdb ops world ld)
  unfolding parse_rdb
  parse_rdb-Tame world ld = bind-Tame (read_bytes (pos 9)) _ (read_bytes-Tame (pos 9)) (λ buf.
      bind-Tame (check_magic buf) _ (check_magic-Tame buf) (λ _.
        bind-Tame (check_version (parse_int (drop 5 buf))) _
          (check_version-Tame (parse_int (drop 5 buf))) (λ _. parse_rdb_entry-Tame world ld)))

  -- On every input, whatever the clock and the ticker do, `ParseRDB` ends: it panics, or it gives a
  -- loader and no more bytes are left than before. No loop under it, of any object, list of entries
  -- or listpack, runs on for ever.
  pub parse_rdb-TameAt :
      (world : ℕ → Round) (ld : Loader) (s : Bytes) → TameAt (length s) (parse_rdb ops world ld s)
  parse_rdb-TameAt world ld s = (parse_rdb-Tame world ld).at s
