-- ===== src/Memory/Profile.antt =====
-- internal/utils/memprofiler.go: the methods of `MemProfiler`, and the two random levels of a skip
-- list. The numbers that `rand.Intn` draws and the product with a float are arguments.
use redis_agent.Common.{
  ℕ, zero, suc, ◌+◌, ◌*◌, ◌/◌, ◌%◌, ◌^◌, ltb, leb, if◌then◌else◌, Bytes, length, Option, none, some,
}
use redis_agent.Common.Int.{ℤ, pos, negsuc}
use redis_agent.Decimal.{parse_int}
use redis_agent.Memory.{
  pointer_size, long_size, dict_entry_overhead, dict_overhead, sds_overhead, redis_obj_overhead,
  malloc_overhead,
}

abbrev pub skiplist_max_level : ℕ
skiplist_max_level = 32

-- A key without a time of expiry costs nothing more.
unfoldable pub key_expiry_overhead : ℤ → ℕ
key_expiry_overhead (pos zero) = 0
key_expiry_overhead (pos (suc n)) = dict_entry_overhead + 8
key_expiry_overhead (negsuc n) = 0

unfoldable pub top_level_obj_overhead : Bytes → ℤ → ℕ
top_level_obj_overhead key expiry =
    (dict_entry_overhead + sds_overhead key + redis_obj_overhead + key_expiry_overhead expiry)
    % 2 ^ 64

-- `uint64(float64(numElements) * 2.5)` is the argument `nodes`.
unfoldable pub sizeof_stream_radix_tree : (ℕ → ℕ) → ℕ → ℕ
sizeof_stream_radix_tree nodes num_elements =
    (16 * num_elements + nodes num_elements * 4 + nodes num_elements * 30 * 8) % 2 ^ 64

unfoldable pub stream_overhead : ℕ
stream_overhead = 2 * pointer_size + 8 + 16 + pointer_size + 8 * 2

unfoldable pub stream_consumer : Bytes → ℕ
stream_consumer name = (pointer_size * 2 + 8 + sds_overhead name) % 2 ^ 64

unfoldable pub stream_cg : ℕ
stream_cg = pointer_size * 2 + 16

unfoldable pub stream_nack : ℕ → ℕ
stream_nack count = count * (pointer_size + 8 + 8) % 2 ^ 64

unfoldable pub linkedlist_overhead : ℕ
linkedlist_overhead = long_size + 5 * pointer_size

unfoldable pub linked_list_entry_overhead : ℕ
linked_list_entry_overhead = 3 * pointer_size

unfoldable pub skiplist_overhead : ℕ → ℕ
skiplist_overhead size = 2 * pointer_size + dict_overhead + (2 * pointer_size + 16)

-- The loop of `zsetRandLevel`: `draws k` is what `rand.Intn(0xFFFF)` gives the k-th time. Without
-- fuel there is no answer.
unfoldable pub rand_level_from : ℕ → (ℕ → ℕ) → ℕ → ℕ → Option ℕ
rand_level_from zero draws k level = none
rand_level_from (suc fuel) draws k level =
    let more = rand_level_from fuel draws (k + 1) (level + 1) in
    if ltb (draws k) (65535 * 1 / 4) then more else some level

abbrev pub capped_level : Option ℕ → Option ℕ
capped_level none = none
capped_level (some level) =
    some (if ltb level skiplist_max_level then level else skiplist_max_level)

unfoldable pub zset_rand_level : ℕ → (ℕ → ℕ) → Option ℕ
zset_rand_level fuel draws = capped_level (rand_level_from fuel draws 0 1)

abbrev pub entry_of_level : Option ℕ → Option ℕ
entry_of_level none = none
entry_of_level (some level) =
    some (dict_entry_overhead + 2 * pointer_size + 8 + (pointer_size + 8) * level)

unfoldable pub skiplist_entry_overhead : ℕ → (ℕ → ℕ) → Option ℕ
skiplist_entry_overhead fuel draws = entry_of_level (zset_rand_level fuel draws)

-- The loop of `ZslRandomLevel`, which draws once, in front of it: `float64(r)` is compared with
-- `0.25 * 0xFFFF`, which is 16383.75, so the test is `4 * r < 0xFFFF`.
unfoldable pub zsl_level_from : ℕ → ℕ → ℕ → Option ℕ
zsl_level_from zero r level = none
zsl_level_from (suc fuel) r level =
    let more = zsl_level_from fuel r ((level + 1) % 2 ^ 64) in
    if ltb (4 * r) 65535 then more else some level

-- `r & 0xFFFF` is the remainder by 2 ^ 16.
unfoldable pub zsl_random_level : ℕ → ℕ → Option ℕ
zsl_random_level fuel draw = capped_level (zsl_level_from fuel (draw % 2 ^ 16) 1)

unfoldable pub ziplist_header_overhead : ℕ
ziplist_header_overhead = 4 + 4 + 2 + 1

-- The size of a number; the first case is also that of each negative number.
abbrev pub number_size : ℤ → ℕ
number_size (pos n) =
    if ltb n 12
    then 0
    else if ltb n 256
    then 1
    else if ltb n 65536
    then 2
    else if ltb n 16777216
    then 3
    else if ltb n 4294967296
    then 4
    else 8
number_size (negsuc n) = 0

abbrev pub text_header : ℕ → ℕ
text_header size =
    if leb size 63 then 1 else if leb size 16383 then 2 else if leb 254 size then 5 + 5 else 5

abbrev pub entry_overhead : Bytes → Option ℤ → ℕ
entry_overhead value (some n) = (1 + number_size n) % 2 ^ 64
entry_overhead value none = (text_header (length value) + length value) % 2 ^ 64

unfoldable pub ziplist_entry_overhead : Bytes → ℕ
ziplist_entry_overhead value = entry_overhead value (parse_int value)

-- The branch for a number out of the range of an `int64` stands behind a parse into an `int64`.
abbrev pub elem_of : Bytes → Option ℤ → ℕ
elem_of element (some (pos n)) = if leb (2 ^ 63) n then 16 else 8
elem_of element (some (negsuc n)) = if leb (2 ^ 63) n then 16 else 8
elem_of element none = length element

unfoldable pub elem_len : Bytes → ℕ
elem_len element = elem_of element (parse_int element)

-- `zskiplistLevelOverhead` does not look at the element.
unfoldable pub zskiplist_level_overhead : Bytes → ℕ
zskiplist_level_overhead element = malloc_overhead (pointer_size + long_size)
