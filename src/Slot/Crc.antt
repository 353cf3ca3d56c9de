-- ===== src/Slot/Crc.antt =====
-- The two CRC16 functions of the utilities are one function.
use redis_agent.Common.{
  ℕ, zero, suc, ◌+◌, ◌*◌, ◌/◌, ◌%◌, ◌^◌, ◌<◌, bit_and, bit_xor, ltb, leb, ◌==◌, ==_iff,
  if◌then◌else◌, ltb→lt, IsByte, All, ◌&&◌, Bool, true, false, Bytes, List, [], ◌∷◌, length, get_or,
  ◌≡◌, refl, sym, ◌∙◌, arith,
}
use redis_agent.Common.Bits.{holds_below, holds_below_at, mask_ff}
use redis_agent.Slot.{crc16tab, crc16_from, crc16, crc16sum_from, crc16sum}

and_left : (a b : Bool) → (a && b) ≡ true → a ≡ true
and_left true b h = refl
and_left false b h = h

and_right : (a b : Bool) → (a && b) ≡ true → b ≡ true
and_right true b h = h
and_right false b h = ground arith

-- Whether p holds of 0 and of every entry of a table.
all_entries : (ℕ → Bool) → List ℕ → Bool
all_entries p [] = p 0
all_entries p (v ∷ vs) = p v && all_entries p vs

all_entries_sound :
    (p : ℕ → Bool) (vs : List ℕ) (i : ℕ) → all_entries p vs ≡ true → p (get_or vs i 0) ≡ true
unfolding all_entries
all_entries_sound p [] i h = h
all_entries_sound p (v ∷ vs) zero h = ground arith
all_entries_sound p (v ∷ vs) (suc i) h = all_entries_sound p vs i (ground arith)

words :
    holds_below 256 (λ low. all_entries (λ v. ltb (bit_xor (low * 256) v) 65536) crc16tab) ≡ true
unfolding holds_below all_entries
words = refl

-- CRC-16/XMODEM bit by bit: the polynomial is 0x1021.
unfoldable shift_bits : ℕ → ℕ → ℕ
shift_bits zero crc = crc
shift_bits (suc n) crc =
    shift_bits n (if leb 32768 crc then bit_xor (crc * 2 % 2 ^ 16) 0x1021 else crc * 2 % 2 ^ 16)

-- The byte is added to the high byte, then come eight bits.
unfoldable pub crc_reference : ℕ → Bytes → ℕ
unfolding shift_bits
crc_reference crc [] = crc
crc_reference crc (b ∷ s) = crc_reference (shift_bits 8 (bit_xor (crc / 256) b * 256 + crc % 256)) s

-- The table serves every word: high byte i, low byte `low`.
check_row : ℕ → ℕ → List ℕ → Bool
check_row low high [] = true
check_row low high (v ∷ vs) =
    (shift_bits 8 (high * 256 + low) == bit_xor (low * 256) v) && check_row low (suc high) vs

table : holds_below 256 (λ low. check_row low 0 crc16tab) ≡ true
unfolding holds_below check_row shift_bits
table = refl

xor_bytes : holds_below 256 (λ a. holds_below 256 (λ b. ltb (bit_xor a b) 256)) ≡ true
unfolding holds_below
xor_bytes = refl

check_row_sound :
    (low high : ℕ) (vs : List ℕ) (i word : ℕ)
    → word ≡ high + i
    → check_row low high vs ≡ true
    → i < length vs
    → shift_bits 8 (word * 256 + low) ≡ bit_xor (low * 256) (get_or vs i 0)
unfolding check_row
check_row_sound low high [] i word e h k = absurd (omega arith)
check_row_sound low high (v ∷ vs) zero word e h k =
    let same : word ≡ high = omega arith in
    rw same (
      (==_iff (shift_bits 8 (high * 256 + low)) (bit_xor (low * 256) v)).0
        (and_left _ (check_row low (suc high) vs) h))
check_row_sound low high (v ∷ vs) (suc i) word e h k =
    check_row_sound low (suc high) vs i word (omega arith)
      (and_right (shift_bits 8 (high * 256 + low) == bit_xor (low * 256) v) _ h) (omega arith)

xor_byte : (a b : ℕ) → a < 256 → b < 256 → bit_xor a b < 256
xor_byte a b ha hb = ltb→lt _ _ (
    holds_below_at 256 (λ b. ltb (bit_xor a b) 256) b
      (holds_below_at 256 (λ a. holds_below 256 (λ b. ltb (bit_xor a b) 256)) a xor_bytes ha) hb)

table_word : (low i : ℕ) → low < 256 → bit_xor (low * 256) (get_or crc16tab i 0) < 65536
table_word low i h = ltb→lt _ _ (
    all_entries_sound (λ v. ltb (bit_xor (low * 256) v) 65536) crc16tab i
      (holds_below_at 256 (λ low. all_entries (λ v. ltb (bit_xor (low * 256) v) 65536) crc16tab) low
        words h))

-- One byte: the table's word, and that it is a `uint16`.
table_step :
    (crc b : ℕ)
    → crc < 65536
    → b < 256
    → (bit_xor (crc * 2 ^ 8 % 2 ^ 16) (get_or crc16tab (bit_and (bit_xor (crc / 2 ^ 8) b) 0x00ff) 0)
        ≡ shift_bits 8 (bit_xor (crc / 256) b * 256 + crc % 256))
      × (shift_bits 8 (bit_xor (crc / 256) b * 256 + crc % 256) < 65536)
table_step crc b h hb =
    let i = bit_xor (crc / 256) b in
    let hi : i < 256 = xor_byte (crc / 256) b (omega arith) hb in
    let low : crc * 256 % 65536 ≡ crc % 256 * 256 = omega arith in
    let row : shift_bits 8 (i * 256 + crc % 256) ≡ bit_xor (crc % 256 * 256) (get_or crc16tab i 0) =
      check_row_sound (crc % 256) 0 crc16tab i i (omega arith)
        (holds_below_at 256 (λ low. check_row low 0 crc16tab) (crc % 256) table (omega arith)) hi in
    (rw (mask_ff i hi, low) (sym row), rw row (table_word (crc % 256) i (omega arith)))

crc16_from-crc_reference :
    (crc : ℕ) (s : Bytes) → crc < 65536 → All IsByte s → crc16_from crc s ≡ crc_reference crc s
unfolding crc16_from crc_reference
crc16_from-crc_reference crc [] h hs = refl
crc16_from-crc_reference crc (b ∷ s) h (hb, hs) =
    let (same, word) = table_step crc b h hb in
    rw same
      (crc16_from-crc_reference (shift_bits 8 (bit_xor (crc / 256) b * 256 + crc % 256)) s word hs)

crc16sum_from-crc_reference :
    (crc : ℕ) (s : Bytes) → crc < 65536 → All IsByte s → crc16sum_from crc s ≡ crc_reference crc s
unfolding crc16sum_from crc_reference
crc16sum_from-crc_reference crc [] h hs = refl
crc16sum_from-crc_reference crc (b ∷ s) h (hb, hs) =
    let (same, word) = table_step crc b h hb in
    let byte : crc / 256 % 256 ≡ crc / 256 = omega arith in
    rw (byte, same)
      (crc16sum_from-crc_reference (shift_bits 8 (bit_xor (crc / 256) b * 256 + crc % 256)) s word
        hs)

-- Both table-driven functions compute CRC-16/XMODEM, bit by bit, of every string of bytes, so they
-- agree.
pub crc16sum-crc_reference :
    (s : Bytes)
    → All IsByte s
    → (crc16sum s ≡ crc_reference 0 s) × (crc16 s ≡ crc_reference 0 s) × (crc16 s ≡ crc16sum s)
unfolding crc16sum crc16
crc16sum-crc_reference s h =
    let a = crc16sum_from-crc_reference 0 s (omega arith) h in
    let b = crc16_from-crc_reference 0 s (omega arith) h in (a, b, b ∙ sym a)
