-- ===== src/Pipeline.antt =====
-- internal/reader/rdb_reader.go, the file of `ParseRDB` and `Statistic`: from the bytes of the dump
-- to the table of the users and the counters. The dump file is there and can be opened.
pub mod Totals
pub mod Complete
use redis_agent.Common.{ℕ, Bool, Bytes, List, length, Option}
use redis_agent.Reader.{Result, ok, panic, stuck}
use redis_agent.Objects.ZsetObject.{FloatOps}
use redis_agent.Loader.{Entry, Loader, Round, new_loader, parse_rdb}
use redis_agent.Metrics.{Metrics, set_rdb_file_size, update_rdb_received_size, update_rdb_sent_size}
use redis_agent.Analysis.{
  FloatShare, Users, DumpEnd, dumped, waiting, replication_failed, is_master, bgsave_failed,
  persistence_failed, status_not_ok, dump_rdb, statistic_after,
}

-- The end of `ParseRDB`, which sets the sent size to the size of the file; the channel is closed.
abbrev pub read_end : Bytes → Metrics → Result (Loader × Bytes) → Result (Metrics × List Entry)
read_end file m (ok (ld, rest)) = ok (update_rdb_sent_size (length file) m, ld.ch)
read_end file m (panic e) = panic e
read_end file m stuck = stuck

-- The goroutine of `StartRead`, with what its reader takes from the channel.
unfoldable pub start_read : FloatOps → (ℕ → Round) → Bytes → Metrics → Result (Metrics × List Entry)
start_read ops world file m =
    read_end file (update_rdb_received_size (length file) (set_rdb_file_size (length file) m))
      (parse_rdb ops world new_loader file)

abbrev pub table_of :
    FloatShare → Users → Result (Metrics × List Entry) → Result (Metrics × Users × DumpEnd)
table_of share old (ok (m, es)) = let r = statistic_after share dumped es old in ok (m, r.0, r.1)
table_of share old (panic e) = panic e
table_of share old stuck = stuck

-- What follows on the end of `dumpRdb`; a panic of the reader ends the process.
abbrev pub after_dump :
    FloatShare
    → Users
    → Metrics
    → Result (Metrics × List Entry)
    → DumpEnd
    → Result (Metrics × Users × DumpEnd)
after_dump share old m read dumped = table_of share old read
after_dump share old m read waiting = ok (m, old, waiting)
after_dump share old m read replication_failed = ok (m, old, replication_failed)
after_dump share old m read is_master = ok (m, old, is_master)
after_dump share old m read bgsave_failed = ok (m, old, bgsave_failed)
after_dump share old m read persistence_failed = ok (m, old, persistence_failed)
after_dump share old m read status_not_ok = ok (m, old, status_not_ok)

-- `ExecuteStatistic`.
unfoldable pub execute_statistic :
    FloatOps
    → FloatShare
    → (ℕ → Round)
    → Option Bytes
    → Bool
    → List (Option Bytes)
    → Bytes
    → Users
    → Metrics
    → Result (Metrics × Users × DumpEnd)
execute_statistic ops share world info started replies file old m =
    after_dump share old m (start_read ops world file m) (dump_rdb info started replies)
