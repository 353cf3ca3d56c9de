-- ===== src/Metrics/Rates.antt =====
-- What a round of the log counts, and which phase it names.
use redis_agent.Common.{
  Bool-cases, inl, inr, true, false, ltb, ltb→lt, ==_iff, ◌≤◌, ◌==◌, ◌-◌, ℕ, List, [], ◌∷◌, suc,
  ◌+◌, ◌%◌, ◌^◌, ◌<◌, Bool, ◌≡◌, refl, arith,
}
use redis_agent.Metrics.{
  Metrics, add_allow_entries_count, add_disallow_entries_count, Ops, Message, scanning,
  doing_bgsave, receiving_rdb, syncing_rdb, syncing_aof, ops_of, last_of, sub_u64, message_of,
  log_round,
}

-- What happens to the counters between two rounds.
pub data Event : Type 0 where
  allow disallow : Event

abbrev pub happen : Event → Metrics → Metrics
happen allow m = add_allow_entries_count m
happen disallow m = add_disallow_entries_count m

abbrev pub happen_all : List Event → Metrics → Metrics
happen_all [] m = m
happen_all (e ∷ es) m = happen_all es (happen e m)

abbrev pub allows : List Event → ℕ
allows [] = 0
allows (allow ∷ es) = suc (allows es)
allows (disallow ∷ es) = allows es

abbrev pub disallows : List Event → ℕ
disallows [] = 0
disallows (allow ∷ es) = disallows es
disallows (disallow ∷ es) = suc (disallows es)

allow_count :
    (es : List Event) (m : Metrics)
    → m.allow_entries_count < 2 ^ 64
    → (happen_all es m).allow_entries_count ≡ (m.allow_entries_count + allows es) % 2 ^ 64
allow_count [] m h = omega arith
allow_count (allow ∷ es) m h =
    omega (arith, allow_count es (add_allow_entries_count m) (omega arith))
allow_count (disallow ∷ es) m h = allow_count es (add_disallow_entries_count m) h

disallow_count :
    (es : List Event) (m : Metrics)
    → m.disallow_entries_count < 2 ^ 64
    → (happen_all es m).disallow_entries_count ≡ (m.disallow_entries_count + disallows es) % 2 ^ 64
disallow_count [] m h = omega arith
disallow_count (allow ∷ es) m h = disallow_count es (add_allow_entries_count m) h
disallow_count (disallow ∷ es) m h =
    omega (arith, disallow_count es (add_disallow_entries_count m) (omega arith))

-- The message of each phase, by what the counters say.
pub data Shows (ops : Ops) (m : Metrics) : Bool → Message → Type 0 where
  scans : Shows ops m true (
      scanning m.scan_db_id m.scan_cursor ops m.entry_id m.in_queue_entries_count
        m.unanswered_bytes_count)
  waits : m.rdb_file_size ≡ 0 → Shows ops m false doing_bgsave
  receives :
      0 < m.rdb_file_size
      → m.rdb_received_size < m.rdb_send_size
      → Shows ops m false (receiving_rdb m.rdb_received_size m.rdb_file_size)
  syncs :
      0 < m.rdb_file_size
      → m.rdb_send_size ≤ m.rdb_received_size
      → m.rdb_send_size < m.rdb_file_size
      → Shows ops m false (
          syncing_rdb ops m.entry_id m.in_queue_entries_count m.unanswered_bytes_count
            m.rdb_file_size m.rdb_send_size)
  follows :
      0 < m.rdb_file_size
      → m.rdb_send_size ≤ m.rdb_received_size
      → m.rdb_file_size ≤ m.rdb_send_size
      → Shows ops m false (
          syncing_aof ops m.entry_id m.in_queue_entries_count m.unanswered_bytes_count
            ((m.aof_received_offset + (2 ^ 64 - m.aof_applied_offset)) % 2 ^ 64)
            m.aof_received_offset
            m.aof_applied_offset)

message_of-Shows :
    (is_scan : Bool) (ops : Ops) (m : Metrics) → Shows ops m is_scan (message_of is_scan ops m)
unfolding message_of
message_of-Shows true ops m = scans
message_of-Shows false ops m = elim (Bool-cases (m.rdb_file_size == 0)) [
  | inl none_yet ↦ rw none_yet (waits (omega (arith, (==_iff m.rdb_file_size 0).0 none_yet)))
  | inr a ↦
      let some_size : 0 < m.rdb_file_size = ground arith in
      elim (Bool-cases (ltb m.rdb_received_size m.rdb_send_size)) [
        | inl b ↦ rw (a, b) (receives some_size (ltb→lt _ _ b))
        | inr b ↦
            let arrived : m.rdb_send_size ≤ m.rdb_received_size = ground arith in
            elim (Bool-cases (ltb m.rdb_send_size m.rdb_file_size)) [
              | inl c ↦ rw (a, b, c) (syncs some_size arrived (ltb→lt _ _ c))
              | inr c ↦
                  let all_sent : m.rdb_file_size ≤ m.rdb_send_size = ground arith in
                  rw (a, b, c) (follows some_size arrived all_sent)
            ]
      ]
]

-- The numbers of entries that a round divides by the seconds.
abbrev pub counts_of : List Event → Ops
counts_of es = record { allowed = allows es % 2 ^ 64; disallowed = disallows es % 2 ^ 64 }

ops_of-happen_all :
    (es : List Event) (m : Metrics)
    → m.allow_entries_count < 2 ^ 64
    → m.disallow_entries_count < 2 ^ 64
    → ops_of (happen_all es m) (last_of m) ≡ counts_of es
ops_of-happen_all es m ha hd =
    let first : sub_u64 (happen_all es m).allow_entries_count m.allow_entries_count
        ≡ allows es % 2 ^ 64 =
      omega (arith, allow_count es m ha) in
    let second : sub_u64 (happen_all es m).disallow_entries_count m.disallow_entries_count
        ≡ disallows es % 2 ^ 64 =
      omega (arith, disallow_count es m hd) in
    rw (first, second) refl

happen_all-Fits :
    (es : List Event) (m : Metrics)
    → m.allow_entries_count < 2 ^ 64
    → m.disallow_entries_count < 2 ^ 64
    → ((happen_all es m).allow_entries_count < 2 ^ 64)
      × ((happen_all es m).disallow_entries_count < 2 ^ 64)
happen_all-Fits es m ha hd =
    (omega (arith, allow_count es m ha), omega (arith, disallow_count es m hd))

-- Two rounds of the log, one after the other, over counters within a `uint64`. The entries `before`
-- come in before the first round reads the counters, `gap` between its first readings and its last
-- ones, and `es` before the second round. Each round tells the phase of the run, which depends on
-- the type of the run and on the sizes alone, with the numbers that belong to the phase. Where rates
-- belong to it, those of the first round are of exactly the numbers of allowed and of disallowed
-- entries in `before`, and those of the second one of exactly the numbers in `es`, modulo 2 ^ 64,
-- also where a counter has wrapped around: the entries of `gap` are in the rates of neither.
pub log_round-happen_all :
    (is_scan : Bool) (before gap es : List Event) (m again : Metrics)
    → m.allow_entries_count < 2 ^ 64
    → m.disallow_entries_count < 2 ^ 64
    → let first = happen_all before m in
      let read_again = happen_all gap first in
      let second = happen_all es read_again in
      let round = log_round is_scan first read_again (last_of m) in
      Shows (counts_of before) first is_scan round.0
      × Shows (counts_of es) second is_scan (log_round is_scan second again round.1).0
unfolding log_round
log_round-happen_all is_scan before gap es m again ha hd =
    let first = happen_all before m in
    let read_again = happen_all gap first in
    let second = happen_all es read_again in
    let (fa, fd) = happen_all-Fits before m ha hd in
    let (ga, gd) = happen_all-Fits gap first fa fd in
    (
      rw (ops_of-happen_all before m ha hd) (message_of-Shows is_scan (counts_of before) first),
      rw (ops_of-happen_all es read_again ga gd) (message_of-Shows is_scan (counts_of es) second),
    )
