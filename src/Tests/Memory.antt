-- ===== src/Tests/Memory.antt =====
-- The estimates of memory: the theorems at small inputs.
use redis_agent.Common.{
  ℕ, ◌+◌, ◌*◌, ◌/◌, ◌%◌, ◌^◌, ◌<◌, ◌≤◌, [], ◌∷◌, length, ◌≡◌, refl, All, get_or, arith,
}
use redis_agent.Memory.{
  sort_search, jemalloc_size_classes, malloc_in, malloc_overhead, sds_overhead,
  zskiplist_node_overhead, next_power, next_power_from, gen_level_and_level_size,
}
use redis_agent.Memory.Malloc.{LeastClass, malloc_overhead-LeastClass, malloc_overhead_mono}
use redis_agent.Memory.Sizes.{sds_overhead_mono, zskiplist_node_overhead_once}
use redis_agent.Memory.Buckets.{next_power_bounds, next_power_endless, next_power-pow}
use redis_agent.Memory.Levels.{sum, gen_level_and_level_size_lem}

-- The test of memprofiler_test.go.
malloc_twenty : malloc_overhead 20 ≡ 32
unfolding malloc_overhead malloc_in sort_search
malloc_twenty = refl

malloc_overhead-LeastClass_example : LeastClass jemalloc_size_classes 20 (malloc_overhead 20)
malloc_overhead-LeastClass_example = malloc_overhead-LeastClass 20

malloc_overhead_mono_test : malloc_overhead 100 ≤ malloc_overhead 200
malloc_overhead_mono_test = malloc_overhead_mono 100 200 (omega arith)

sds_overhead_mono_test :
    (sds_overhead (97 ∷ []) ≤ sds_overhead (97 ∷ 98 ∷ [])) × (1 + 4 ≤ sds_overhead (97 ∷ []))
sds_overhead_mono_test = sds_overhead_mono (97 ∷ []) (97 ∷ 98 ∷ []) (omega arith) (omega arith)

zskiplist_node_overhead_once_test :
    zskiplist_node_overhead (97 ∷ 98 ∷ [])
    ≡ (malloc_overhead 24 + sds_overhead (97 ∷ 98 ∷ [])) % 2 ^ 64
zskiplist_node_overhead_once_test = zskiplist_node_overhead_once (97 ∷ 98 ∷ [])

next_power_bounds_test :
    (m : ℕ) × (next_power 1000 ≡ 2 ^ m) × (1000 < 2 ^ m) × (2 ^ m ≤ 2 * 1000 + 1)
next_power_bounds_test = next_power_bounds 1000 (omega arith)

next_power_endless_example : next_power_from 500 1 (2 ^ 63) ≤ 2 ^ 63
next_power_endless_example = next_power_endless 500 (2 ^ 63) (omega arith)

next_power-pow_test : next_power 1024 ≡ 2048
next_power-pow_test = next_power-pow 10 (omega arith)

gen_level_and_level_size_lem_test :
    ((k : ℕ) → get_or (gen_level_and_level_size 70) k 0 ≡ 70 / 4 ^ k)
    × All (λ c. 1 ≤ c) (gen_level_and_level_size 70)
    × (length (gen_level_and_level_size 70) ≤ 32)
    × (3 * sum (gen_level_and_level_size 70) ≤ 4 * 70)
gen_level_and_level_size_lem_test = gen_level_and_level_size_lem 70 (omega arith)
