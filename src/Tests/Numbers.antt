-- ===== src/Tests/Numbers.antt =====
-- Lengths and numbers: the theorems at small inputs.
use redis_agent.Common.{◌+◌, ◌^◌, ◌<◌, ◌≤◌, [], ◌∷◌, ◌≡◌, refl, arith}
use redis_agent.Common.Int.{negsuc}
use redis_agent.Reader.{ok, panic, illegal_length}
use redis_agent.Length.{read_encoded_length, read_length}
use redis_agent.Length.RoundTrip.{read_length-put_length}
use redis_agent.Length.Bounds.{read_encoded_length_plain, read_length_refuses}
use redis_agent.Numbers.{read_int24}
use redis_agent.Numbers.Laws.{three, read_signed-le_bytes}

-- A length of two bytes.
read_length-put_length_test : read_length (0x42 ∷ 0xbc ∷ 7 ∷ []) ≡ ok (700, 7 ∷ [])
read_length-put_length_test = read_length-put_length 700 (7 ∷ []) (omega arith)

read_encoded_length_plain_test : (700 < 2 ^ 64) × (1 < 3) × (3 ≤ 1 + 9)
unfolding read_encoded_length
read_encoded_length_plain_test =
    read_encoded_length_plain 0x42 (0xbc ∷ 7 ∷ []) (7 ∷ []) 700
      (omega arith, (omega arith, (omega arith, tt))) refl

read_length_refuses_test : read_length (0x83 ∷ []) ≡ panic (illegal_length 0x83)
read_length_refuses_test = read_length_refuses 0x83 [] (omega arith) (omega arith)

read_signed-le_bytes_test : read_int24 (254 ∷ 255 ∷ 255 ∷ 7 ∷ []) ≡ ok (negsuc 1, 7 ∷ [])
read_signed-le_bytes_test = read_signed-le_bytes three (negsuc 1) (7 ∷ []) (omega arith)
