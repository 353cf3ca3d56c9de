-- ===== src/Tests/Slot.antt =====
-- Slots: the theorems at small inputs.
use redis_agent.Common.{◌<◌, [], ◌∷◌, ◌≡◌, refl, arith}
use redis_agent.Slot.{crc16, crc16sum, crc16sum_from, key_of, slot, slot_number}
use redis_agent.Slot.Crc.{crc_reference, crc16sum-crc_reference}
use redis_agent.Slot.Tags.{key_of-tagged, slot_of_tag}

-- The check value of the reference implementation: "123456789" has 0x31c3.
check_value : crc16sum (49 ∷ 50 ∷ 51 ∷ 52 ∷ 53 ∷ 54 ∷ 55 ∷ 56 ∷ 57 ∷ []) ≡ 0x31c3
unfolding crc16sum crc16sum_from
check_value = refl

crc16sum-crc_reference_example :
    (crc16sum (49 ∷ 50 ∷ []) ≡ crc_reference 0 (49 ∷ 50 ∷ []))
    × (crc16 (49 ∷ 50 ∷ []) ≡ crc_reference 0 (49 ∷ 50 ∷ []))
    × (crc16 (49 ∷ 50 ∷ []) ≡ crc16sum (49 ∷ 50 ∷ []))
crc16sum-crc_reference_example =
    crc16sum-crc_reference (49 ∷ 50 ∷ []) (omega arith, (omega arith, tt))

-- "a{b}c"
key_of-tagged_test : key_of (97 ∷ 123 ∷ 98 ∷ 125 ∷ 99 ∷ []) ≡ 98 ∷ []
key_of-tagged_test =
    key_of-tagged (97 ∷ []) (98 ∷ []) (99 ∷ []) (omega arith, tt) (omega arith) (omega arith, tt)

-- "a{b}c" and "{b}"
slot_of_tag_example :
    (slot 0 (97 ∷ 123 ∷ 98 ∷ 125 ∷ 99 ∷ []) ≡ slot 1 (123 ∷ 98 ∷ 125 ∷ []))
    × (slot 0 (97 ∷ 123 ∷ 98 ∷ 125 ∷ 99 ∷ []) < slot_number)
slot_of_tag_example =
    slot_of_tag 0 1 (97 ∷ []) [] (98 ∷ []) (99 ∷ []) [] (omega arith, tt) tt (omega arith)
      (omega arith, tt)
