-- ===== src/Crc64/Checks.antt =====
-- The table of crc64.go against the polynomial, and the checksum of a dump.
use redis_agent.Common.{
  ℕ, zero, suc, ◌*◌, ◌/◌, ◌%◌, ◌^◌, ◌<◌, ◌==◌, bit_xor, if◌then◌else◌, ltb, ltb→lt, true, Bytes, [],
  ◌∷◌, ◌++◌, append-nil, length, get_or, ◌≡◌, refl, sym, ap, ◌∙◌, arith, All, IsByte,
}
use Prim.Native.Nat.{digits, differ, bit_xor-bitwise}
use mathlib.Core.Path.{subst}
use redis_agent.Common.Bits.{holds_below, holds_below_at, agree_below}
use redis_agent.Reader.{ok, read_full}
use redis_agent.Reader.Laws.{read_full_append}
use redis_agent.Numbers.{read_uint64}
use redis_agent.Numbers.Laws.{le_bytes, read_uint64-le_bytes}
use redis_agent.Crc64.{crc64_table, update, new_digest, calc_crc64, dump_body, create_value_dump}

-- One bit of the reflected CRC-64 of Redis.
unfoldable shift_bits : ℕ → ℕ → ℕ
shift_bits zero crc = crc
shift_bits (suc n) crc =
    shift_bits n (if crc % 2 == 1 then bit_xor (crc / 2) 0x95ac9329ac4bc9b5 else crc / 2)

-- The low byte is reduced bit by bit.
unfoldable pub crc64_reference : ℕ → Bytes → ℕ
unfolding shift_bits
crc64_reference crc [] = crc
crc64_reference crc (b ∷ p) =
    crc64_reference (bit_xor (shift_bits 8 (bit_xor (crc % 256) b)) (crc / 256)) p

table : (i : ℕ) → i < 256 → get_or crc64_table i 0 ≡ shift_bits 8 i
unfolding holds_below shift_bits
table = agree_below (λ i. get_or crc64_table i 0) (λ i. shift_bits 8 i) 256 refl

xor_bytes : holds_below 256 (λ a. holds_below 256 (λ b. ltb (bit_xor a b) 256)) ≡ true
unfolding holds_below
xor_bytes = refl

xor_byte : (a b : ℕ) → a < 256 → b < 256 → bit_xor a b < 256
xor_byte a b ha hb = ltb→lt _ _ (
    holds_below_at 256 (λ b. ltb (bit_xor a b) 256) b
      (holds_below_at 256 (λ a. holds_below 256 (λ b. ltb (bit_xor a b) 256)) a xor_bytes ha) hb)

update-crc64_reference : (crc : ℕ) (p : Bytes) → All IsByte p → update crc p ≡ crc64_reference crc p
unfolding update crc64_reference
update-crc64_reference crc [] h = refl
update-crc64_reference crc (b ∷ p) (hb, hs) =
    rw (table (bit_xor (crc % 256) b) (xor_byte (crc % 256) b (omega arith) hb))
      (update-crc64_reference (bit_xor (shift_bits 8 (bit_xor (crc % 256) b)) (crc / 256)) p hs)

update-append : (crc : ℕ) (p q : Bytes) → update crc (p ++ q) ≡ update (update crc p) q
unfolding update
update-append crc [] q = refl
update-append crc (b ∷ p) q =
    update-append (bit_xor (get_or crc64_table (bit_xor (crc % 256) b) 0) (crc / 256)) p q

-- A digest that is written a string of bytes in two parts has the checksum that `CalcCRC64` gives
-- of the whole, and that is what the polynomial 0x95ac9329ac4bc9b5 gives, each byte reduced bit by
-- bit: every entry of the table is right.
pub calc_crc64-crc64_reference :
    (p q : Bytes)
    → All IsByte (p ++ q)
    → (update (update new_digest p) q ≡ calc_crc64 (p ++ q))
      × (calc_crc64 (p ++ q) ≡ crc64_reference 0 (p ++ q))
unfolding calc_crc64
calc_crc64-crc64_reference p q h = (sym (update-append 0 p q), update-crc64_reference 0 (p ++ q) h)

power : ℕ → ℕ
power zero = 1
power (suc k) = power k * 2

differ_bits : (x y : ℕ) → x < 2 → y < 2 → differ x y < 2
differ_bits zero y h k = k
differ_bits (suc zero) zero h k = omega arith
differ_bits (suc zero) (suc zero) h k = omega arith
differ_bits (suc zero) (suc (suc y)) h k = absurd (omega arith)
differ_bits (suc (suc x)) y h k = absurd (omega arith)

digits-power : (n k a b : ℕ) → a < power k → b < power k → digits (λ b. b) differ n a b < power k
unfolding power
digits-power zero k a b ha hb = hb
digits-power (suc n) k zero b ha hb = hb
digits-power (suc n) zero (suc a) b ha hb = absurd (omega arith)
digits-power (suc n) (suc k) (suc a) b ha hb =
    let rec = digits-power n k (suc a / 2) (b / 2) (omega arith) (omega arith) in
    let bit = differ_bits (suc a % 2) (b % 2) (omega arith) (omega arith) in omega arith

bit_xor-power : (k a b : ℕ) → a < power k → b < power k → bit_xor a b < power k
bit_xor-power k a b ha hb =
    let same : bit_xor a b ≡ digits (λ b. b) differ a a b = λ i. bit_xor-bitwise a b i in
    subst (λ x. x < power k) (sym same) (digits-power a k a b ha hb)

table_word : holds_below 256 (λ i. ltb (get_or crc64_table i 0) (2 ^ 64)) ≡ true
unfolding holds_below
table_word = refl

update_word : (crc : ℕ) (p : Bytes) → crc < 2 ^ 64 → All IsByte p → update crc p < 2 ^ 64
unfolding update power
update_word crc [] h hs = h
update_word crc (b ∷ p) h (hb, hs) =
    let i = bit_xor (crc % 256) b in
    let word = ltb→lt _ _ (
      holds_below_at 256 (λ i. ltb (get_or crc64_table i 0) (2 ^ 64)) i table_word
        (xor_byte (crc % 256) b (omega arith) hb)) in
    update_word (bit_xor (get_or crc64_table i 0) (crc / 256)) p
      (bit_xor-power 64 (get_or crc64_table i 0) (crc / 256) word (omega arith)) hs

-- The dump of a value of bytes ends with the checksum of what is in front of it: read back, the
-- eight last bytes are `CalcCRC64` of the type byte, the value and the version, which is a 64-bit
-- word.
pub create_value_dump-calc_crc64 :
    (type_byte : ℕ) (val : Bytes)
    → All IsByte (dump_body type_byte val)
    → (sum : Bytes) × (read_full
          (length (dump_body type_byte val))
          (create_value_dump type_byte val)
        ≡ ok (dump_body type_byte val, sum))
      × (read_uint64 sum ≡ ok (calc_crc64 (dump_body type_byte val), []))
unfolding create_value_dump calc_crc64
create_value_dump-calc_crc64 type_byte val h =
    let body = dump_body type_byte val in
    let crc = update 0 body in
    (
      le_bytes 8 crc,
      read_full_append body (le_bytes 8 crc),
      ap read_uint64 (sym (append-nil (le_bytes 8 crc)))
          ∙ read_uint64-le_bytes crc [] (update_word 0 body (omega arith) h),
    )
