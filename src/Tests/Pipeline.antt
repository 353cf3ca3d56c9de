-- ===== src/Tests/Pipeline.antt =====
-- The analysis of a dump from end to end, and the data that a task generates: the theorems at small
-- inputs.
use redis_agent.Common.{
  ℕ, suc, ◌*◌, ◌+◌, ◌%◌, ◌^◌, ◌<◌, ◌≤◌, Bytes, [], ◌∷◌, length, codes, same_bytes, none, some, true,
  false, ◌≡◌, ◌⊎◌, refl, arith,
}
use mathlib.Core.List.Perm
use redis_agent.Common.Int.{pos, negsuc}
use redis_agent.Reader.{ok}
use redis_agent.Decimal.{format_int, format_uint}
use redis_agent.Loader.{Entry}
use redis_agent.Loader.Dump as Dump
use redis_agent.Info.Laws.{put_lines}
use redis_agent.Metrics.{
  Metrics, new_metrics, set_rdb_file_size, update_rdb_received_size, update_rdb_sent_size, Message,
  Last, last_of, log_round,
}
use redis_agent.Metrics.Rates.{allow, disallow, happen_all, Shows, log_round-happen_all}
use redis_agent.Analysis.{Users, new_user, dumped, dump_rdb, add_entries}
use redis_agent.Analysis.Sums.{row_of, one_key, one_expiring, overhead_of}
use redis_agent.Analysis.Dump.{polls_then, dump_rdb-polls}
use redis_agent.Pipeline.{execute_statistic}
use redis_agent.Pipeline.Totals.{items_for}
use redis_agent.Pipeline.Complete.{
  key_share, expire_share, dump_file, with_sizes, execute_statistic-put_dump,
}
use redis_agent.Generate.{GenerateUserDataParam, generate_data, generate_string, set_from}
use redis_agent.Generate.Keys.{commands, Passed, generate_data_lem}
use redis_agent.Generate.Counted.{generate_data-counted}
use redis_agent.Objects.HashObject.{HashObject}
use redis_agent.Dispatch.{hash_object, mem_overhead}
use redis_agent.Dispatch.Order.{hashes, mem_overhead-Reordered}
use redis_agent.Memory.Profile.{
  rand_level_from, zsl_random_level, zset_rand_level, ziplist_entry_overhead,
}
use redis_agent.Memory.Random.{zsl_random_level_lem, ziplist_entry_overhead_numbers}
use redis_agent.Tests.Objects.{no_floats}
use redis_agent.Tests.Loader.{two_keys, two_keys_fit, digits_fit}
use redis_agent.Tests.Services.{no_shares, role_lines, done_lines}

replica_dumped : dump_rdb (some (put_lines role_lines)) true (polls_then [] done_lines) ≡ dumped
replica_dumped =
    dump_rdb-polls role_lines [] done_lines (ground arith, (ground arith, tt)) refl tt
      (ground arith, (ground arith, (ground arith, tt))) refl

abbrev small_file : Bytes
small_file = dump_file 48 48 48 57 two_keys (7 ∷ [])

execute_statistic-put_dump_example :
    (us : Users) × (execute_statistic no_floats no_shares
        (Dump.world_of (λ i. 1000) (λ i. none))
        (some (put_lines role_lines))
        true
        (polls_then [] done_lines)
        small_file
        []
        new_metrics
      ≡ ok (with_sizes (length small_file) new_metrics, us, dumped))
    × ((name : Bytes)
        → ((row_of name us).key_count ≡ items_for name one_key (λ i. 1000) 0 two_keys % 2 ^ 64)
          × ((row_of name us).expire_key_count
              ≡ items_for name one_expiring (λ i. 1000) 0 two_keys % 2 ^ 64)
          × ((row_of name us ≡ new_user name)
              ⊎ ((row_of name us).overhead
                  ≡ (items_for name overhead_of (λ i. 1000) 0 two_keys
                      + key_share no_shares us (row_of name us)
                      + expire_share no_shares us (row_of name us))
                    % 2 ^ 64)))
execute_statistic-put_dump_example =
    execute_statistic-put_dump no_floats (λ i. 1000) (λ i. none) (λ i. omega arith) (λ i. refl)
      no_shares 48 48 48 57 two_keys (7 ∷ []) (some (put_lines role_lines)) true
      (polls_then [] done_lines) [] new_metrics digits_fit two_keys_fit replica_dumped

abbrev two_strings : GenerateUserDataParam
two_strings = record { user_name = codes "u"; redis_type = codes "string"; count = 2 }

abbrev entry_with : Bytes → Entry
entry_with key = record {
  id = 0;
  is_base = true;
  db_id = pos 0;
  argv = [];
  key = key;
  overhead = 80;
  is_expire_key = false;
}

-- The two keys in the other order.
generate_data-counted_example :
    (row_of
      (codes "u")
      (add_entries (entry_with (codes "u:1") ∷ entry_with (codes "u:0") ∷ []) [])).key_count
    ≡ 2
unfolding generate_data generate_string set_from format_uint
generate_data-counted_example =
    generate_data-counted (λ i. codes "v") (λ i. none) two_strings
      (entry_with (codes "u:1") ∷ entry_with (codes "u:0") ∷ []) refl ((λ e. cc), tt) (omega arith)
      (refl, (refl, tt)) (Perm.swap _ _ _)

generate_data_lem_example :
    ((same_bytes two_strings.redis_type (codes "string") ≡ true)
      × ((Passed (λ i. none) 0 2
            × (generate_data (λ i. codes "v") (λ i. none) two_strings
                ≡ record { sent = commands (λ i. codes "v") (codes "u") 0 2; err = none }))
          ⊎ ((k : ℕ) × (err : Bytes) × (k < 2)
              × Passed (λ i. none) 0 k
              × (none ≡ some err)
              × (generate_data (λ i. codes "v") (λ i. none) two_strings ≡ record {
                sent = commands (λ i. codes "v") (codes "u") 0 (suc k);
                err = some err;
              }))))
    ⊎ ((same_bytes two_strings.redis_type (codes "string") ≡ false)
        × (generate_data (λ i. codes "v") (λ i. none) two_strings
            ≡ record { sent = []; err = none }))
generate_data_lem_example = generate_data_lem (λ i. codes "v") (λ i. none) two_strings

abbrev two_fields : HashObject
two_fields = record {
  key = codes "h";
  value = (codes "a", codes "1") ∷ (codes "b", codes "22") ∷ [];
}

abbrev fields_swapped : HashObject
fields_swapped = record {
  key = codes "h";
  value = (codes "b", codes "22") ∷ (codes "a", codes "1") ∷ [];
}

mem_overhead-Reordered_example :
    mem_overhead (hash_object two_fields) ≡ mem_overhead (hash_object fields_swapped)
mem_overhead-Reordered_example =
    mem_overhead-Reordered (hash_object two_fields) (hash_object fields_swapped)
      (hashes two_fields fields_swapped refl (Perm.swap _ _ _))

-- A file of nine bytes, four of them sent.
abbrev half_sent : Metrics
half_sent = update_rdb_sent_size 4 (update_rdb_received_size 9 (set_rdb_file_size 9 new_metrics))

abbrev one_round : Message × Last
one_round =
    log_round false (happen_all (allow ∷ disallow ∷ allow ∷ []) half_sent)
      (happen_all (allow ∷ []) (happen_all (allow ∷ disallow ∷ allow ∷ []) half_sent))
      (last_of half_sent)

abbrev second_readings : Metrics
second_readings =
    happen_all (disallow ∷ [])
      (happen_all (allow ∷ []) (happen_all (allow ∷ disallow ∷ allow ∷ []) half_sent))

log_round-happen_all_example :
    Shows
      (record { allowed = 2; disallowed = 1 })
      (happen_all (allow ∷ disallow ∷ allow ∷ []) half_sent)
      false
      one_round.0
    × Shows
        (record { allowed = 0; disallowed = 1 })
        second_readings
        false
        (log_round false second_readings second_readings one_round.1).0
log_round-happen_all_example =
    log_round-happen_all false (allow ∷ disallow ∷ allow ∷ []) (allow ∷ []) (disallow ∷ [])
      half_sent second_readings (omega arith) (omega arith)

zsl_random_level_lem_example :
    ((100 ≤ 16383) × (zsl_random_level 9 100 ≡ none))
    ⊎ ((16383 < 100) × (zsl_random_level 10 100 ≡ some 1))
zsl_random_level_lem_example = zsl_random_level_lem 9 100 (omega arith)

ziplist_entry_overhead_numbers_test :
    (ziplist_entry_overhead (format_int (negsuc 999999)) ≡ 1)
    × (ziplist_entry_overhead (format_int (pos 999999)) ≤ 9)
    × ((999999 < 12) ⊎ (2 ≤ ziplist_entry_overhead (format_int (pos 999999))))
ziplist_entry_overhead_numbers_test = ziplist_entry_overhead_numbers 999999 (omega arith)

-- Draws in the lowest quarter, then one above it.
three_levels : zset_rand_level 5 (λ k. k * 10000) ≡ some 3
unfolding zset_rand_level rand_level_from
three_levels = refl
