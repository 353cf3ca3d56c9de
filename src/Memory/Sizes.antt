-- ===== src/Memory/Sizes.antt =====
-- The cost of a string and of a skip list node.
use redis_agent.Common.{ℕ, ◌+◌, ◌%◌, ◌^◌, ◌<◌, ◌≤◌, Bytes, length, ◌≡◌, ap, arith}
use redis_agent.Memory.{sds_request, sds_overhead, malloc_overhead, zskiplist_node_overhead}
use redis_agent.Memory.Malloc.{
  malloc_overhead-LeastClass, malloc_overhead_mono, malloc_overhead_twice,
}
use native.Mathlib.Nat.{le_trans}

sds_request_mono : (m n : ℕ) → m ≤ n → n < 2 ^ 63 → sds_request m ≤ sds_request n
unfolding sds_request
sds_request_mono m n h k = ground arith

sds_request-lower : (n : ℕ) → n < 2 ^ 63 → n + 4 ≤ sds_request n
unfolding sds_request
sds_request-lower n k = ground arith

-- Of two strings shorter than 2 ^ 63 bytes the longer one costs at least as much, across all four
-- kinds of header, and each costs at least its length and the smallest header.
pub sds_overhead_mono :
    (s t : Bytes)
    → length s ≤ length t
    → length t < 2 ^ 63
    → (sds_overhead s ≤ sds_overhead t) × (length s + 4 ≤ sds_overhead s)
unfolding sds_overhead
sds_overhead_mono s t h k = (
  malloc_overhead_mono _ _ (sds_request_mono (length s) (length t) h k),
  le_trans (sds_request-lower (length s) (omega arith))
      (malloc_overhead-LeastClass (sds_request (length s))).enough,
)

-- The second rounding in `ZskiplistNodeOverhead` adds nothing: a node costs what its fixed part and
-- its string cost.
pub zskiplist_node_overhead_once :
    (element : Bytes)
    → zskiplist_node_overhead element ≡ (malloc_overhead 24 + sds_overhead element) % 2 ^ 64
unfolding zskiplist_node_overhead sds_overhead
zskiplist_node_overhead_once element =
    ap (λ v. (malloc_overhead 24 + v) % 2 ^ 64)
      (malloc_overhead_twice (sds_request (length element)))
