-- ===== src/Memory.antt =====
-- internal/utils/memprofiler.go: what Redis spends on its data structures, by the size classes of
-- jemalloc.
pub mod Search
pub mod Malloc
pub mod Sizes
pub mod Buckets
pub mod Levels
pub mod Profile
pub mod Random
use redis_agent.Common.{
  ℕ, zero, suc, ◌+◌, ◌*◌, ◌/◌, ◌%◌, ◌^◌, ltb, leb, ◌==◌, ◌&&◌, if◌then◌else◌, Bytes, List, [], ◌∷◌,
  length, get_or, Option, none, some, Bool, ◌≡◌, refl,
}
use redis_agent.Common.Int.{ℤ}
use redis_agent.Decimal.{parse_int}

abbrev pub pointer_size : ℕ
pointer_size = 8

abbrev pub long_size : ℕ
long_size = 8

abbrev pub jemalloc_size_classes : List ℕ
jemalloc_size_classes =
    8 ∷ 16 ∷ 32 ∷ 48 ∷ 64 ∷ 80 ∷ 96 ∷ 112 ∷ 128 ∷ 80 ∷ 96 ∷ 112 ∷ 128 ∷ 160 ∷ 192 ∷ 224 ∷ 256 ∷ 320
    ∷ 384 ∷ 448 ∷ 512 ∷ 640 ∷ 768 ∷ 896 ∷ 1024 ∷ 1280 ∷ 1536 ∷ 1792 ∷ 2048 ∷ 2560 ∷ 3072 ∷ 3584
    ∷ 4096 ∷ 5120 ∷ 6144 ∷ 7168 ∷ 8192 ∷ 10240 ∷ 12288 ∷ 14336 ∷ 16384 ∷ 20480 ∷ 24576 ∷ 28672
    ∷ 32768 ∷ 40960 ∷ 49152 ∷ 57344 ∷ 65536 ∷ 81920 ∷ 98304 ∷ 114688 ∷ 131072 ∷ 163840 ∷ 196608
    ∷ 229376 ∷ 262144 ∷ 327680 ∷ 393216 ∷ 458752 ∷ 524288 ∷ 655360 ∷ 786432 ∷ 917504 ∷ 1048576
    ∷ 1310720 ∷ 1572864 ∷ 1835008 ∷ 2097152 ∷ 2621440 ∷ 3145728 ∷ 3670016 ∷ 4194304 ∷ 5242880
    ∷ 6291456 ∷ 7340032 ∷ 8388608 ∷ 10485760 ∷ 12582912 ∷ 14680064 ∷ 16777216 ∷ 20971520 ∷ 25165824
    ∷ 29360128 ∷ 33554432 ∷ 41943040 ∷ 50331648 ∷ 58720256 ∷ 67108864 ∷ 83886080 ∷ 100663296
    ∷ 117440512 ∷ 134217728 ∷ 167772160 ∷ 201326592 ∷ 234881024 ∷ 268435456 ∷ 335544320 ∷ 402653184
    ∷ 469762048 ∷ 536870912 ∷ 671088640 ∷ 805306368 ∷ 939524096 ∷ 1073741824 ∷ 1342177280
    ∷ 1610612736 ∷ 1879048192 ∷ 2147483648 ∷ 2684354560 ∷ 3221225472 ∷ 3758096384 ∷ 4294967296
    ∷ 5368709120 ∷ 6442450944 ∷ 7516192768 ∷ 8589934592 ∷ 10737418240 ∷ 12884901888 ∷ 15032385536
    ∷ 17179869184 ∷ 21474836480 ∷ 25769803776 ∷ 30064771072 ∷ 34359738368 ∷ 42949672960
    ∷ 51539607552 ∷ 60129542144 ∷ 68719476736 ∷ 85899345920 ∷ 103079215104 ∷ 120259084288
    ∷ 137438953472 ∷ 171798691840 ∷ 206158430208 ∷ 240518168576 ∷ 274877906944 ∷ 343597383680
    ∷ 412316860416 ∷ 481036337152 ∷ 549755813888 ∷ 687194767360 ∷ 824633720832 ∷ 962072674304
    ∷ 1099511627776 ∷ 1374389534720 ∷ 1649267441664 ∷ 1924145348608 ∷ 2199023255552 ∷ 2748779069440
    ∷ 3298534883328 ∷ 3848290697216 ∷ 4398046511104 ∷ 5497558138880 ∷ 6597069766656 ∷ 7696581394432
    ∷ 8796093022208 ∷ 10995116277760 ∷ 13194139533312 ∷ 15393162788864 ∷ 17592186044416 ∷ []

-- `sort.Search(n, f)` of Go: the bounds move towards one another, so n rounds are enough.
unfoldable pub search_from : ℕ → ℕ → ℕ → (ℕ → Bool) → ℕ
search_from zero i j f = i
search_from (suc fuel) i j f =
    let h = (i + j) / 2 in
    let left = search_from fuel i h f in
    let right = search_from fuel (h + 1) j f in if ltb i j then (if f h then left else right) else i

unfoldable pub sort_search : ℕ → (ℕ → Bool) → ℕ
unfolding search_from
sort_search n f = search_from n 0 n f

-- `MallocOverhead`, over a table of classes.
unfoldable pub malloc_in : List ℕ → ℕ → ℕ
malloc_in classes size =
    let index = sort_search (length classes) (λ i. leb size (get_or classes i 0)) in
    if ltb index (length classes) then get_or classes index 0 else size

unfoldable pub malloc_overhead : ℕ → ℕ
malloc_overhead size = malloc_in jemalloc_size_classes size

-- The headers of the dynamic strings, with the closing zero byte.
abbrev pub size_of_sdshdr8 : ℕ
size_of_sdshdr8 = 4

abbrev pub size_of_sdshdr16 : ℕ
size_of_sdshdr16 = 6

abbrev pub size_of_sdshdr32 : ℕ
size_of_sdshdr32 = 10

abbrev pub size_of_sdshdr64 : ℕ
size_of_sdshdr64 = 18

-- The request that `SdsOverhead` makes for a string of that length; the conversion to `uint64` of
-- an `int` sum is the sum modulo 2 ^ 64.
unfoldable pub sds_request : ℕ → ℕ
sds_request size =
    if ltb size 256
    then size_of_sdshdr8 + size
    else if ltb size 65536
    then size_of_sdshdr16 + size
    else if ltb size 4294967296
    then size_of_sdshdr32 + size
    else (size_of_sdshdr64 + size) % 2 ^ 64

unfoldable pub sds_overhead : Bytes → ℕ
sds_overhead val = malloc_overhead (sds_request (length val))

unfoldable pub dict_entry_overhead : ℕ
dict_entry_overhead = malloc_overhead (pointer_size + pointer_size + pointer_size)

abbrev pub lru_bits : ℕ
lru_bits = 3

unfoldable pub redis_obj_overhead : ℕ
redis_obj_overhead = malloc_overhead (1 + lru_bits + 4 + pointer_size)

unfoldable pub dict_ht_overhead : ℕ
dict_ht_overhead = malloc_overhead (pointer_size * 4)

unfoldable pub dict_overhead : ℕ
dict_overhead =
    malloc_overhead (pointer_size + pointer_size + dict_ht_overhead * 2 + pointer_size + 4)

abbrev pub int_encoding_max_len : ℕ
int_encoding_max_len = 20

-- A string that is a number is kept in the pointer field of its object.
abbrev pub value_overhead : Bytes → Option ℤ → ℕ
value_overhead val (some n) =
    if leb (length val) int_encoding_max_len
    then redis_obj_overhead + 0
    else (redis_obj_overhead + sds_overhead val) % 2 ^ 64
value_overhead val none = (redis_obj_overhead + sds_overhead val) % 2 ^ 64

unfoldable pub string_value_overhead : Bytes → ℕ
string_value_overhead val = value_overhead val (parse_int val)

-- `for power <= size { power = power << 1 }`. Below 2 ^ 63 it ends within 64 rounds.
unfoldable pub next_power_from : ℕ → ℕ → ℕ → ℕ
next_power_from zero power size = power
next_power_from (suc fuel) power size =
    let more = next_power_from fuel (power * 2 % 2 ^ 64) size in
    if leb power size then more else power

unfoldable pub next_power : ℕ → ℕ
next_power size = next_power_from 64 1 size

unfoldable pub field_bucket_overhead : ℕ → ℕ
field_bucket_overhead size =
    (malloc_overhead (next_power size * pointer_size % 2 ^ 64)
      + malloc_overhead (next_power size / 2 * pointer_size % 2 ^ 64))
    % 2 ^ 64

unfoldable pub quicklist_overhead : ℕ
quicklist_overhead =
    malloc_overhead (pointer_size + pointer_size + long_size + long_size + 2 + 2 + 1 + 3)

unfoldable pub quicklist_node_overhead : ℕ
quicklist_node_overhead = malloc_overhead (pointer_size + pointer_size + pointer_size + 4 + 2 + 2)

abbrev pub ziplist_overhead : ℕ
ziplist_overhead = 4 + 4 + 2 + 1

-- The length of the entry before, the encoding and the content.
unfoldable pub zlentry_overhead : ℕ → Bytes → ℕ
zlentry_overhead previous context =
    let sz = length context in
    let previous_overhead = if leb 254 previous then 5 else 1 in
    let encoding_overhead = if ltb sz 64 then 1 else if ltb sz 16384 then 2 else 5 in
    (previous_overhead + encoding_overhead + sz) % 2 ^ 64

unfoldable pub zset_overhead : ℕ
zset_overhead = malloc_overhead (pointer_size + pointer_size)

unfoldable pub zskiplist_overhead : ℕ
zskiplist_overhead = malloc_overhead (pointer_size + pointer_size + long_size + 4 + 4)

unfoldable pub zskiplist_node_overhead : Bytes → ℕ
zskiplist_node_overhead element =
    (malloc_overhead (pointer_size + long_size + pointer_size)
      + malloc_overhead (sds_overhead element))
    % 2 ^ 64

-- `GenLevelAndLevelSize`: a quarter of the elements on each further level; a `uint64` has no more
-- than 32 levels.
unfoldable pub levels_from : ℕ → ℕ → List ℕ
levels_from zero n = []
levels_from (suc fuel) n = let more = n ∷ levels_from fuel (n / 4) in if leb 1 n then more else []

unfoldable pub gen_level_and_level_size : ℕ → List ℕ
gen_level_and_level_size n = levels_from 32 n
