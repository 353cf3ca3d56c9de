-- ===== src/Decimal.antt =====
-- The decimal conversions of package strconv that the decoder uses: `FormatInt(v, 10)`,
-- `FormatUint(v, 10)`, `Itoa` and `ParseInt(s, 10, 64)`.
pub mod RoundTrip
use redis_agent.Common.{
  ℕ, zero, suc, ◌+◌, ◌-◌, ◌*◌, ◌/◌, ◌%◌, ◌^◌, ltb, leb, ◌==◌, ◌&&◌, if◌then◌else◌, Bytes, [], ◌∷◌,
  Option, none, some,
}
use redis_agent.Common.Int.{ℤ, pos, negsuc}

-- The decimal digits of n in front of `out`, in at most `fuel` rounds; twenty are enough for 64
-- bits.
unfoldable pub digits : ℕ → ℕ → Bytes → Bytes
digits zero n out = out
digits (suc fuel) n out =
    let out' = (b'0' + n % 10) ∷ out in
    let more = digits fuel (n / 10) out' in if n / 10 == 0 then out' else more

unfoldable pub format_uint : ℕ → Bytes
unfolding digits
format_uint n = digits 20 n []

unfoldable pub format_int : ℤ → Bytes
format_int (pos n) = format_uint n
format_int (negsuc n) = b'-' ∷ format_uint (n + 1)

-- `ParseUint`: digits only, and no value from 2 ^ 64 on.
unfoldable pub scan : Bytes → ℕ → Option ℕ
scan [] n = some n
scan (c ∷ s) n =
    let rest = scan s (n * 10 + (c - b'0')) in
    if ltb c b'0'
    then none
    else if ltb b'9' c
    then none
    else if leb (2 ^ 64) (n * 10 + (c - b'0'))
    then none
    else rest

unfoldable pub parse_uint : Bytes → Option ℕ
unfolding scan
parse_uint [] = none
parse_uint (c ∷ s) = scan (c ∷ s) 0

abbrev pub positive : Option ℕ → Option ℤ
positive none = none
positive (some n) = if ltb n (2 ^ 63) then some (pos n) else none

abbrev pub negative : Option ℕ → Option ℤ
negative none = none
negative (some n) =
    if n == 0 then some (pos 0) else if leb n (2 ^ 63) then some (negsuc (n - 1)) else none

-- `ParseInt`: one sign at most, then digits; a value outside of an `int64` is an error.
unfoldable pub parse_int : Bytes → Option ℤ
parse_int [] = none
parse_int (c ∷ s) =
    if c == b'-'
    then negative (parse_uint s)
    else if c == b'+'
    then positive (parse_uint s)
    else positive (parse_uint (c ∷ s))
