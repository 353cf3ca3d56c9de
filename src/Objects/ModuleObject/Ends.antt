-- ===== src/Objects/ModuleObject/Ends.antt =====
-- Skipping the value of a module ends on every input, whatever the floating point numbers do.
use redis_agent.Common.{
  ℕ, zero, suc, ◌<◌, ◌≤◌, ◌==◌, Bytes, [], ◌∷◌, length, Option, some, none, arith,
}
use redis_agent.Common.Int.{pos}
use redis_agent.Reader.{
  Result, ok, panic, stuck, ◌>>=◌, pure, lift, unknown_opcode, read_byte, read_bytes, read_full,
}
use redis_agent.Reader.Tame.{
  TameAt, TameAt-weaken, Tame, Tame-of_Brisk, pure-Tame, raise-Tame, if-Tame, if-TameAt, bind-Tame,
  bind_within, read_byte-Brisk, read_full-Tame, read_bytes-Tame,
}
use redis_agent.Numbers.{le_value, read_uint8}
use redis_agent.Length.{read_length}
use redis_agent.Text.{read_string}
use redis_agent.Text.Ends.{read_string-Tame, read_length-Tame}
use redis_agent.Objects.ZsetObject.{
  FloatOps, parsed, digits_of, read_float_from, read_float, read_double,
}
use redis_agent.Objects.ModuleObject.{skip_value, skip_values, load_from_buffer}

one_byte-Tame : Tame read_byte
one_byte-Tame = Tame-of_Brisk read_byte read_byte-Brisk

module _ (ops : FloatOps) where
  lift-parsed :
      (v : Option ops.Float) (s : Bytes) (n : ℕ) → length s ≤ n → TameAt n (lift (parsed ops v) s)
  lift-parsed none s n h = tt
  lift-parsed (some v) s n h = h

  digits_of-TameAt : (r : Result (Bytes × Bytes)) (n : ℕ) → TameAt n r → TameAt n (digits_of ops r)
  digits_of-TameAt (ok (buf, s)) n h = lift-parsed (ops.parse_float buf) s n h
  digits_of-TameAt (panic e) n h = omega arith
  digits_of-TameAt stuck n h = h

  read_float_from-Tame : (u : ℕ) → Tame (read_float_from ops u)
  unfolding read_float_from
  read_float_from-Tame u = if-Tame (u == 253) _ _ (pure-Tame ops.nan) (
      if-Tame (u == 254) _ _ (pure-Tame ops.pos_inf) (
        if-Tame (u == 255) _ (λ s. digits_of ops (read_full u s)) (pure-Tame ops.neg_inf)
          (record {
            at = λ s. digits_of-TameAt (read_full u s) (length s) ((read_full-Tame u).at s);
          })))

  pub read_float-Tame : Tame (read_float ops)
  unfolding read_float read_uint8
  read_float-Tame = bind-Tame read_byte _ one_byte-Tame read_float_from-Tame

  pub read_double-Tame : Tame (read_double ops)
  unfolding read_double
  read_double-Tame =
      bind-Tame (read_bytes (pos 8)) _ (read_bytes-Tame (pos 8))
        (λ buf. pure-Tame (ops.from_bits (le_value buf)))

  skip_value-Tame : (opcode : ℕ) → Tame (skip_value ops opcode)
  unfolding skip_value
  skip_value-Tame opcode = if-Tame (opcode == 1) _ _ (pure-Tame tt) (
      if-Tame (opcode == 2) _ _ (bind-Tame read_length _ read_length-Tame (λ n. pure-Tame tt)) (
        if-Tame (opcode == 3) _ _ (bind-Tame (read_float ops) _ read_float-Tame (λ v. pure-Tame tt))
          (if-Tame (opcode == 4) _ _
            (bind-Tame (read_double ops) _ read_double-Tame (λ v. pure-Tame tt))
            (if-Tame (opcode == 5) _ _
              (bind-Tame read_string _ read_string-Tame (λ t. pure-Tame tt))
              (raise-Tame (unknown_opcode opcode))))))

  -- With more rounds than bytes the loop does not run out of them.
  skip_values-TameAt :
      (fuel opcode : ℕ) (s : Bytes)
      → length s < fuel
      → TameAt (length s) (skip_values ops fuel opcode s)
  unfolding skip_values read_byte
  skip_values-TameAt zero opcode s h = absurd (omega arith)
  skip_values-TameAt (suc fuel) opcode s h =
      if-TameAt (opcode == 0) (pure tt s) _ (length s) (omega arith) (
        bind_within (skip_value ops opcode) (λ _. read_byte >>= skip_values ops fuel)
          (skip_value ops opcode s) (length s)
          (λ _ s' k. next fuel s' (λ b t j. skip_values-TameAt fuel b t (omega arith)))
          ((skip_value-Tame opcode).at s))
    where
      next :
          (fuel : ℕ) (s' : Bytes)
          → ((b : ℕ) (t : Bytes)
              → length t < length s'
              → TameAt (length t) (skip_values ops fuel b t))
          → TameAt (length s') ((read_byte >>= skip_values ops fuel) s')
      next fuel [] h = tt
      next fuel (b ∷ t) h =
          TameAt-weaken _ (length t) (suc (length t)) (omega arith) (h b t (omega arith))

  -- On every input the loader ends, whatever type byte it is given: it panics, or it is done and no
  -- more bytes are left than before.
  pub load_from_buffer-TameAt :
      (type_byte : ℕ) (s : Bytes) → TameAt (length s) (load_from_buffer ops type_byte s)
  unfolding load_from_buffer
  load_from_buffer-TameAt type_byte s = if-TameAt (type_byte == 6) _ _ (length s) tt (
      (bind-Tame read_length _ read_length-Tame (λ id.
          bind-Tame read_byte _ one_byte-Tame (λ opcode. record {
            at = λ s. skip_values-TameAt (suc (length s)) opcode s (omega arith);
          }))).at
        s)
