-- ===== src/Metrics.antt =====
-- internal/statistics/rdbstatistics.go: the counters of a run, their writers, and the round of the
-- loop of `Init` that logs them. The texts of the log, with their floats, are left out.
pub mod Rates
use redis_agent.Common.{
  ℕ, [], ◌+◌, ◌-◌, ◌%◌, ◌^◌, ltb, ◌==◌, Bool, true, false, if◌then◌else◌, Bytes,
}
use redis_agent.Common.Int.{ℤ, pos}

-- Without the last text logged.
pub record Metrics : Type 0 where
  pub address : Bytes
  pub entry_id : ℕ
  pub allow_entries_count : ℕ
  pub disallow_entries_count : ℕ
  pub is_doing_bgsave : Bool
  pub rdb_file_size : ℕ
  pub rdb_received_size : ℕ
  pub rdb_send_size : ℕ
  pub aof_received_offset : ℕ
  pub aof_applied_offset : ℕ
  pub in_queue_entries_count : ℕ
  pub unanswered_bytes_count : ℕ
  pub scan_db_id : ℤ
  pub scan_cursor : ℕ

abbrev pub new_metrics : Metrics
new_metrics = record {
  address = [];
  entry_id = 0;
  allow_entries_count = 0;
  disallow_entries_count = 0;
  is_doing_bgsave = false;
  rdb_file_size = 0;
  rdb_received_size = 0;
  rdb_send_size = 0;
  aof_received_offset = 0;
  aof_applied_offset = 0;
  in_queue_entries_count = 0;
  unanswered_bytes_count = 0;
  scan_db_id = pos 0;
  scan_cursor = 0;
}

abbrev pub update_entry_id : ℕ → Metrics → Metrics
update_entry_id id m = record m { entry_id = id }

abbrev pub add_allow_entries_count : Metrics → Metrics
add_allow_entries_count m = record m { allow_entries_count = (m.allow_entries_count + 1) % 2 ^ 64 }

abbrev pub add_disallow_entries_count : Metrics → Metrics
add_disallow_entries_count m = record m {
  disallow_entries_count = (m.disallow_entries_count + 1) % 2 ^ 64;
}

abbrev pub set_rdb_file_size : ℕ → Metrics → Metrics
set_rdb_file_size size m = record m { rdb_file_size = size }

abbrev pub update_rdb_received_size : ℕ → Metrics → Metrics
update_rdb_received_size size m = record m { rdb_received_size = size }

abbrev pub update_rdb_sent_size : ℕ → Metrics → Metrics
update_rdb_sent_size offset m = record m { rdb_send_size = offset }

abbrev pub update_aof_received_offset : ℕ → Metrics → Metrics
update_aof_received_offset offset m = record m { aof_received_offset = offset }

abbrev pub update_aof_applied_offset : ℕ → Metrics → Metrics
update_aof_applied_offset offset m = record m { aof_applied_offset = offset }

abbrev pub update_in_queue_entries_count : ℕ → Metrics → Metrics
update_in_queue_entries_count count m = record m { in_queue_entries_count = count }

abbrev pub update_unanswered_bytes_count : ℕ → Metrics → Metrics
update_unanswered_bytes_count count m = record m { unanswered_bytes_count = count }

-- The counts that a round divides by the seconds between two rounds: differences of `uint64`.
pub record Ops : Type 0 where
  pub allowed : ℕ
  pub disallowed : ℕ

-- What `Init` keeps from round to round.
pub record Last : Type 0 where
  pub last_allow_entries_count : ℕ
  pub last_disallow_entries_count : ℕ

abbrev pub last_of : Metrics → Last
last_of m = record {
  last_allow_entries_count = m.allow_entries_count;
  last_disallow_entries_count = m.disallow_entries_count;
}

abbrev pub sub_u64 : ℕ → ℕ → ℕ
sub_u64 a b = (a + (2 ^ 64 - b)) % 2 ^ 64

abbrev pub ops_of : Metrics → Last → Ops
ops_of m last = record {
  allowed = sub_u64 m.allow_entries_count last.last_allow_entries_count;
  disallowed = sub_u64 m.disallow_entries_count last.last_disallow_entries_count;
}

-- The text of a round, by the integers that it prints or that its floats are made of.
pub data Message : Type 0 where
  scanning : ℤ → ℕ → Ops → ℕ → ℕ → ℕ → Message
  doing_bgsave : Message
  receiving_rdb : ℕ → ℕ → Message
  syncing_rdb : Ops → ℕ → ℕ → ℕ → ℕ → ℕ → Message
  syncing_aof : Ops → ℕ → ℕ → ℕ → ℕ → ℕ → ℕ → Message

-- `is_scan` is `config.Config.Type == "scan"`.
unfoldable pub message_of : Bool → Ops → Metrics → Message
message_of is_scan ops m =
    if is_scan
    then scanning m.scan_db_id m.scan_cursor ops m.entry_id m.in_queue_entries_count
        m.unanswered_bytes_count
    else if m.rdb_file_size == 0
    then doing_bgsave
    else if ltb m.rdb_received_size m.rdb_send_size
    then receiving_rdb m.rdb_received_size m.rdb_file_size
    else if ltb m.rdb_send_size m.rdb_file_size
    then syncing_rdb ops m.entry_id m.in_queue_entries_count m.unanswered_bytes_count
        m.rdb_file_size m.rdb_send_size
    else syncing_aof ops m.entry_id m.in_queue_entries_count m.unanswered_bytes_count
        (sub_u64 m.aof_received_offset m.aof_applied_offset) m.aof_received_offset
        m.aof_applied_offset

-- A round of the loop of `Init`: the text, from the first readings of the counters, and the counts
-- for the next round, which are read again after the text is made. The readings for the text are
-- taken as one.
unfoldable pub log_round : Bool → Metrics → Metrics → Last → Message × Last
log_round is_scan m again last = (message_of is_scan (ops_of m last) m, last_of again)
