-- ===== src/Tests/Loader.antt =====
-- Dumps and streams: the theorems at small inputs.
use redis_agent.Common.{
  ℕ, ◌<◌, ◌==◌, if◌then◌else◌, Bytes, Option, All, List, [], ◌∷◌, ◌++◌, codes, true, false, none,
  some, ◌≡◌, refl, arith,
}
use redis_agent.Common.Int.{pos}
use redis_agent.Reader.{ok}
use redis_agent.Reader.Tame.{TameAt}
use redis_agent.Objects.StreamEntries.Replay as Streams
use redis_agent.Dispatch.{parse_object, string_object}
use redis_agent.Dispatch.RoundTrip.{raw_string, parse_object-put_value}
use redis_agent.Loader.{new_loader, is_master, parse_rdb}
use redis_agent.Loader.Dump as Dump
use redis_agent.Loader.Replay.{IsDigit, parse_rdb-put_dump}
use redis_agent.Loader.Failover.{parse_rdb-failover}
use redis_agent.Loader.Ends.{parse_rdb-TameAt}
use redis_agent.Info.Laws.{Line, heading, property, put_lines}
use redis_agent.Tests.Objects.{no_floats}

parse_object-put_value_example :
    parse_object no_floats 0 (codes "k") (2 ∷ 104 ∷ 105 ∷ 7 ∷ [])
    ≡ ok (string_object (record { key = codes "k"; value = codes "hi" }), 7 ∷ [])
parse_object-put_value_example =
    parse_object-put_value no_floats (codes "k") (raw_string (codes "hi")) (7 ∷ []) (omega arith)

-- An entry with the fields of the master, and a removed one with a field of its own.
abbrev two_entries : List Streams.Item
two_entries =
    record {
      removed = false;
      ms = pos 1;
      seq = pos 0;
      body = Streams.shared (codes "x" ∷ []);
      lp_count = codes "4";
    }
    ∷ record {
      removed = true;
      ms = pos 2;
      seq = pos 0;
      body = Streams.own ((codes "g", codes "y") ∷ []);
      lp_count = codes "6";
    }
    ∷ []

-- Database 3, a key that expires and one that does not.
abbrev select_three : Dump.Item
select_three = Dump.select_db 3

abbrev key_one : Dump.Item
key_one = Dump.keyed (Dump.at_ms 5000) (Dump.idle_for 9) (codes "u:1") (raw_string (codes "hi"))

abbrev key_two : Dump.Item
key_two = Dump.keyed Dump.no_expiry Dump.no_eviction (codes "u:2") (raw_string (codes "hi"))

abbrev pub two_keys : List Dump.Item
two_keys = select_three ∷ key_one ∷ key_two ∷ []

pub two_keys_fit : All (Dump.ItemFits no_floats) two_keys
two_keys_fit = (
  omega arith,
  ((omega arith, omega arith, omega arith, omega arith), ((tt, tt, omega arith, omega arith), tt)),
)

pub digits_fit : All IsDigit (48 ∷ 48 ∷ 48 ∷ 57 ∷ [])
digits_fit = (
  (omega arith, omega arith),
  ((omega arith, omega arith), ((omega arith, omega arith), ((omega arith, omega arith), tt))),
)

abbrev nothing_yet : Dump.View
nothing_yet = record { stream_db_id = pos 0; db = pos 0; sent = [] }

parse_rdb-put_dump_example :
    parse_rdb no_floats
      (Dump.world_of (λ i. 1000) (λ i. none))
      (Dump.at_rest nothing_yet)
      (codes "REDIS" ++ (48 ∷ 48 ∷ 48 ∷ 57 ∷ Dump.put_items two_keys (7 ∷ [])))
    ≡ ok (Dump.at_rest (Dump.view_items (λ i. 1000) 0 two_keys nothing_yet), 7 ∷ [])
parse_rdb-put_dump_example =
    parse_rdb-put_dump no_floats (λ i. 1000) (λ i. none) (λ i. omega arith) (λ i. refl) 48 48 48 57
      two_keys nothing_yet (7 ∷ []) digits_fit two_keys_fit

parse_rdb-TameAt_example : TameAt 10 (
    parse_rdb no_floats
      (Dump.world_of (λ i. 1000) (λ i. none))
      new_loader
      (codes "REDIS0009" ++ (255 ∷ [])))
parse_rdb-TameAt_example =
    parse_rdb-TameAt no_floats (Dump.world_of (λ i. 1000) (λ i. none)) new_loader
      (codes "REDIS0009" ++ (255 ∷ []))

abbrev master_lines : List Line
master_lines = heading (codes "# Replication") ∷ property (codes "role") (codes "master") ∷ []

-- The ticker fires in the fourth round.
abbrev fourth : ℕ → Option Bytes
fourth i = if i == 3 then some (put_lines master_lines) else none

not_before : (i : ℕ) → i < 3 → is_master (fourth i) ≡ false
not_before i h = let early : (i == 3) ≡ false = ground arith in rw early refl

-- The first key is sent, and the second one is left.
parse_rdb-failover_example :
    parse_rdb no_floats
      (Dump.world_of (λ i. 1000) fourth)
      (Dump.at_rest nothing_yet)
      (codes "REDIS" ++ (48 ∷ 48 ∷ 48 ∷ 57 ∷ Dump.put_items two_keys (7 ∷ [])))
    ≡ ok (
      Dump.at_rest (Dump.view_items (λ i. 1000) 0 (select_three ∷ key_one ∷ []) nothing_yet),
      Dump.put_items (key_two ∷ []) (7 ∷ []),
    )
parse_rdb-failover_example =
    let (select_fits, (first_fits, _)) = two_keys_fit in
    parse_rdb-failover no_floats (λ i. 1000) fourth (λ i. omega arith) 48 48 48 57
      (select_three ∷ []) (key_two ∷ []) (Dump.at_ms 5000) (Dump.idle_for 9) (codes "u:1")
      (raw_string (codes "hi")) nothing_yet (7 ∷ []) master_lines digits_fit (select_fits, tt)
      first_fits not_before refl (ground arith, (ground arith, tt)) refl
