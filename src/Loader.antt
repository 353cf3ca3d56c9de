-- ===== src/Loader.antt =====
-- internal/rdb/rdb.go and internal/entry/entry.go: the loop over the records of a dump.
pub mod Dump
pub mod Ends
pub mod Failover
pub mod Keys
pub mod Records
pub mod Replay
pub mod Sent
pub mod Steps
pub mod Times
use redis_agent.Common.{
  ℕ, zero, suc, ◌+◌, ◌*◌, ◌%◌, ◌^◌, ◌==◌, Bool, true, false, not, if◌then◌else◌, Bytes, List, [],
  ◌∷◌, ◌++◌, length, take, drop, codes, same_bytes, Option, none, some,
}
use redis_agent.Common.Int.{ℤ, pos, signed, sub64, int_of_u64, is_zero, is_negative}
use redis_agent.Reader.{
  Result, ok, panic, stuck, Reader, ◌>>=◌, ◌>>◌, pure, raise, read_byte, read_bytes, bad_integer,
  bad_magic,
}
use redis_agent.Numbers.{read_uint32, read_uint64}
use redis_agent.Length.{read_length}
use redis_agent.Text.{read_string}
use redis_agent.Decimal.{parse_int}
use redis_agent.Objects.ZsetObject.{FloatOps}
use redis_agent.Dispatch.{RedisObject, parse_object, mem_overhead}
use redis_agent.Info.{parse_info_prop}

abbrev pub k_flag_idle : ℕ
k_flag_idle = 0xf8

abbrev pub k_flag_freq : ℕ
k_flag_freq = 0xf9

abbrev pub k_flag_aux : ℕ
k_flag_aux = 0xfa

abbrev pub k_flag_resize_db : ℕ
k_flag_resize_db = 0xfb

abbrev pub k_flag_expire_ms : ℕ
k_flag_expire_ms = 0xfc

abbrev pub k_flag_expire : ℕ
k_flag_expire = 0xfd

abbrev pub k_flag_select : ℕ
k_flag_select = 0xfe

abbrev pub k_eof : ℕ
k_eof = 0xff

pub record Entry : Type 0 where
  pub id : ℕ
  pub is_base : Bool
  pub db_id : ℤ
  pub argv : List Bytes
  pub key : Bytes
  pub overhead : ℕ
  pub is_expire_key : Bool

abbrev pub new_entry : Entry
new_entry = record {
  id = 0;
  is_base = false;
  db_id = pos 0;
  argv = [];
  key = [];
  overhead = 0;
  is_expire_key = false;
}

-- What has been sent to `ch` stands in the order of the sends.
pub record Loader : Type 0 where
  pub repl_stream_db_id : ℤ
  pub now_db_id : ℤ
  pub expire_ms : ℤ
  pub idle : ℤ
  pub freq : ℤ
  pub ch : List Entry

abbrev pub new_loader : Loader
new_loader = record {
  repl_stream_db_id = pos 0;
  now_db_id = pos 0;
  expire_ms = pos 0;
  idle = pos 0;
  freq = pos 0;
  ch = [];
}

-- What a round sees of the world: `time.Now().UnixMilli()`, and where the ticker has fired the
-- reply to `INFO Replication`.
pub record Round : Type 0 where
  pub now : ℤ
  pub tick : Option Bytes

abbrev pub script_entry : Bytes → Entry
script_entry value = record {
  id = 0;
  is_base = true;
  db_id = pos 0;
  argv = codes "script" ∷ codes "load" ∷ value ∷ [];
  key = [];
  overhead = 0;
  is_expire_key = false;
}

abbrev pub key_entry : Loader → Bytes → ℕ → Entry
key_entry ld key overhead = record {
  id = 0;
  is_base = true;
  db_id = ld.now_db_id;
  argv = [];
  key = key;
  overhead = if is_zero ld.expire_ms then overhead else (overhead + 24) % 2 ^ 64;
  is_expire_key = not (is_zero ld.expire_ms);
}

abbrev pub with_db : Option ℤ → Loader → Reader Loader
with_db none ld s = panic bad_integer
with_db (some db) ld s = ok (
  record {
    repl_stream_db_id = db;
    now_db_id = ld.now_db_id;
    expire_ms = ld.expire_ms;
    idle = ld.idle;
    freq = ld.freq;
    ch = ld.ch;
  },
  s,
)

abbrev pub with_expire : ℤ → Loader → Loader
with_expire left ld = record {
  repl_stream_db_id = ld.repl_stream_db_id;
  now_db_id = ld.now_db_id;
  expire_ms = if is_negative left then pos 1 else left;
  idle = ld.idle;
  freq = ld.freq;
  ch = ld.ch;
}

abbrev pub with_idle : ℤ → Loader → Loader
with_idle idle ld = record {
  repl_stream_db_id = ld.repl_stream_db_id;
  now_db_id = ld.now_db_id;
  expire_ms = ld.expire_ms;
  idle = idle;
  freq = ld.freq;
  ch = ld.ch;
}

abbrev pub with_freq : ℤ → Loader → Loader
with_freq freq ld = record {
  repl_stream_db_id = ld.repl_stream_db_id;
  now_db_id = ld.now_db_id;
  expire_ms = ld.expire_ms;
  idle = ld.idle;
  freq = freq;
  ch = ld.ch;
}

abbrev pub with_now_db : ℤ → Loader → Loader
with_now_db db ld = record {
  repl_stream_db_id = ld.repl_stream_db_id;
  now_db_id = db;
  expire_ms = ld.expire_ms;
  idle = ld.idle;
  freq = ld.freq;
  ch = ld.ch;
}

-- `ld.ch <- e`
abbrev pub send : Entry → Loader → Loader
send e ld = record {
  repl_stream_db_id = ld.repl_stream_db_id;
  now_db_id = ld.now_db_id;
  expire_ms = ld.expire_ms;
  idle = ld.idle;
  freq = ld.freq;
  ch = ld.ch ++ (e ∷ []);
}

-- The key's entry is sent, and the attributes of the key are reset.
abbrev pub send_key : Bytes → ℕ → Loader → Loader
send_key key overhead ld = record {
  repl_stream_db_id = ld.repl_stream_db_id;
  now_db_id = ld.now_db_id;
  expire_ms = pos 0;
  idle = pos 0;
  freq = pos 0;
  ch = ld.ch ++ (key_entry ld key overhead ∷ []);
}

unfoldable pub aux_field : Bytes → Bytes → Loader → Reader Loader
aux_field key value ld s =
    if same_bytes key (codes "repl-stream-db")
    then with_db (parse_int value) ld s
    else if same_bytes key (codes "lua")
    then pure (send (script_entry value) ld) s
    else pure ld s

unfoldable pub read_aux : Loader → Reader Loader
read_aux ld = do key ← read_string; value ← read_string; aux_field key value ld

unfoldable pub read_key : FloatOps → ℕ → Loader → Reader Loader
read_key ops type_byte ld = do
  key ← read_string
  o ← parse_object ops type_byte key
  pure (send_key key (mem_overhead o) ld)

-- The cases of the switch but the end of the file.
unfoldable pub read_field : FloatOps → ℤ → ℕ → Loader → Reader Loader
read_field ops now type_byte ld s =
    if type_byte == k_flag_idle
    then (do n ← read_length; pure (with_idle (int_of_u64 n) ld)) s
    else if type_byte == k_flag_freq
    then (do b ← read_byte; pure (with_freq (pos b) ld)) s
    else if type_byte == k_flag_aux
    then read_aux ld s
    else if type_byte == k_flag_resize_db
    then (do db_size ← read_length; expire_size ← read_length; pure ld) s
    else if type_byte == k_flag_expire_ms
    then (do v ← read_uint64; pure (with_expire (sub64 (int_of_u64 v) now) ld)) s
    else if type_byte == k_flag_expire
    then (do v ← read_uint32; pure (with_expire (sub64 (pos (v * 1000)) now) ld)) s
    else if type_byte == k_flag_select
    then (do n ← read_length; pure (with_now_db (int_of_u64 n) ld)) s
    else read_key ops type_byte ld s

abbrev pub is_master : Option Bytes → Bool
is_master none = false
is_master (some info) = same_bytes (parse_info_prop info (codes "role")) (codes "master")

-- The `select` at the end of a round.
unfoldable pub end_round : (Loader → Reader Loader) → Option Bytes → Loader → Reader Loader
end_round more tick ld s = if is_master tick then pure ld s else more ld s

unfoldable pub next_round : FloatOps → (Loader → Reader Loader) → Round → Loader → ℕ → Reader Loader
next_round ops more round ld type_byte s =
    if type_byte == k_eof
    then pure ld s
    else (do ld' ← read_field ops round.now type_byte ld; end_round more round.tick ld') s

-- `parseRDBEntry`, where `world i` is what round i sees. Every round takes a byte at least.
unfoldable pub read_rounds : FloatOps → (ℕ → Round) → ℕ → ℕ → Loader → Reader Loader
read_rounds ops world zero i ld s = stuck
read_rounds ops world (suc fuel) i ld s =
    (do
      type_byte ← read_byte
      next_round ops (read_rounds ops world fuel (suc i)) (world i) ld type_byte)
      s

unfoldable pub parse_rdb_entry : FloatOps → (ℕ → Round) → Loader → Reader Loader
parse_rdb_entry ops world ld s = read_rounds ops world (suc (length s)) 0 ld s

unfoldable pub check_magic : Bytes → Reader (Unit {0})
check_magic buf s = if same_bytes (take 5 buf) (codes "REDIS") then pure tt s else raise bad_magic s

unfoldable pub check_version : Option ℤ → Reader (Unit {0})
check_version none s = panic bad_integer
check_version (some version) s = ok (tt, s)

-- `ParseRDB` returns the field `repl_stream_db_id` of the result.
unfoldable pub parse_rdb : FloatOps → (ℕ → Round) → Loader → Reader Loader
parse_rdb ops world ld = do
  buf ← read_bytes (pos 9)
  check_magic buf
  check_version (parse_int (drop 5 buf))
  parse_rdb_entry ops world ld
