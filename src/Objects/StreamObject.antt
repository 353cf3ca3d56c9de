-- ===== src/Objects/StreamObject.antt =====
-- internal/rdb/types/stream.go: a stream is kept as the commands that build it.
pub mod Consumers
pub mod Ends
pub mod Groups
pub mod RoundTrip
use redis_agent.Common.{
  ℕ, zero, suc, ◌==◌, if◌then◌else◌, ltb, Bytes, List, [], ◌∷◌, ◌++◌, length, take, drop, codes,
  same_bytes,
}
use redis_agent.Common.Int.{ℤ, pos, signed, int_of_u64, rounds, is_zero}
use redis_agent.Reader.{
  Result, ok, panic, stuck, Reader, ◌>>=◌, ◌>>◌, pure, raise, lift, repeat_read, unknown_type,
  index_out_of_range, read_bytes,
}
use redis_agent.Numbers.{be_value, read_uint64}
use redis_agent.Length.{read_length}
use redis_agent.Text.{read_string}
use redis_agent.Listpack.{read_listpack}
use redis_agent.Decimal.{format_uint}
use redis_agent.Objects.{RedisCmd, rdb_type_stream_listpacks, rdb_type_stream_listpacks2}
use redis_agent.Objects.StreamEntries.{read_elements}

pub record StreamObject : Type 0 where
  pub key : Bytes
  pub cmds : List RedisCmd

-- `append` over the results of a loop.
unfoldable pub concat : List (List RedisCmd) → List RedisCmd
concat [] = []
concat (cs ∷ css) = cs ++ concat css

-- `fmt.Sprintf("%v-%v", ms, seq)` of two `uint64`s.
abbrev pub format_id : ℕ → ℕ → Bytes
format_id ms seq = format_uint ms ++ (codes "-" ++ format_uint seq)

-- The commands of a listpack; what is left of its elements is dropped.
abbrev pub commands_of : Result (List RedisCmd × List Bytes) → Result (List RedisCmd)
commands_of (ok (cmds, es)) = ok cmds
commands_of (panic e) = panic e
commands_of stuck = stuck

-- `binary.BigEndian.Uint64` of both halves of the listpack's key.
abbrev pub master_commands : Bytes → Bytes → List Bytes → Result (List RedisCmd)
master_commands master_key id elements = commands_of (
    read_elements master_key (signed 64 (be_value (take 8 id)))
      (signed 64 (be_value (take 8 (drop 8 id)))) elements)

-- A key of fewer than 16 bytes is out of range.
unfoldable pub check_id : Bytes → Reader (Unit {0})
check_id id s = if ltb (length id) 16 then raise index_out_of_range s else pure tt s

-- One round of the loop over the listpacks.
unfoldable pub read_stream_node : Bytes → Reader (List RedisCmd)
read_stream_node master_key = do
  id ← read_string
  check_id id
  elements ← read_listpack
  lift (master_commands master_key id elements)

-- Five more numbers, which are skipped.
unfoldable pub skip_offsets : ℕ → Reader (Unit {0})
skip_offsets type_byte s =
    if type_byte == rdb_type_stream_listpacks2
    then (do read_length; read_length; read_length; read_length; read_length; pure tt) s
    else pure tt s

unfoldable pub skip_group_offset : ℕ → Reader (Unit {0})
skip_group_offset type_byte s =
    if type_byte == rdb_type_stream_listpacks2 then (do read_length; pure tt) s else pure tt s

-- `ReadBytes(rd, 16)` as a stream id.
unfoldable pub read_id : Reader Bytes
read_id = do
  tmp ← read_bytes (pos 16)
  pure (format_id (be_value (take 8 tmp)) (be_value (drop 8 tmp)))

-- `mapId2Time` and `mapId2Count`: the delivery time and count of an id.
abbrev pub Pending : Type 0
Pending = List (Bytes × ℕ × ℕ)

unfoldable pub read_pending : Reader (Bytes × ℕ × ℕ)
read_pending = do
  id ← read_id
  delivery_time ← read_uint64
  delivery_count ← read_length
  pure (id, delivery_time, delivery_count)

-- A map that the loop fills: a later id replaces an earlier one.
unfoldable pub fill : Pending → Pending → Pending
fill [] m = m
fill (p ∷ ps) m = fill ps (p ∷ m)

-- A missing key reads as zero.
unfoldable pub pending_of : Bytes → Pending → ℕ × ℕ
pending_of id [] = (0, 0)
pending_of id ((j, time, count) ∷ m) = if same_bytes j id then (time, count) else pending_of id m

abbrev pub xclaim : Bytes → Bytes → Bytes → Pending → Bytes → RedisCmd
xclaim master_key group consumer m id =
    codes "xclaim"
    ∷ master_key
    ∷ group
    ∷ consumer
    ∷ codes "0"
    ∷ id
    ∷ codes "TIME"
    ∷ format_uint (pending_of id m).0
    ∷ codes "RETRYCOUNT"
    ∷ format_uint (pending_of id m).1
    ∷ codes "JUSTID"
    ∷ codes "FORCE"
    ∷ []

unfoldable pub read_claim : Bytes → Bytes → Bytes → Pending → Reader RedisCmd
read_claim master_key group consumer m = do
  id ← read_id
  pure (xclaim master_key group consumer m id)

unfoldable pub read_consumer : Bytes → Bytes → Pending → Reader (List RedisCmd)
read_consumer master_key group m = do
  consumer ← read_string
  read_uint64
  n_pel ← read_length
  repeat_read (rounds (int_of_u64 n_pel)) (read_claim master_key group consumer m)

unfoldable pub read_group : Bytes → ℕ → Reader (List RedisCmd)
read_group master_key type_byte = do
  group ← read_string
  last_ms ← read_length
  last_seq ← read_length
  skip_group_offset type_byte
  n_pel ← read_length
  pel ← repeat_read (rounds (int_of_u64 n_pel)) read_pending
  n_consumer ← read_length
  claims ←
      repeat_read (rounds (int_of_u64 n_consumer)) (read_consumer master_key group (fill pel []))
  pure ((codes "CREATE" ∷ master_key ∷ group ∷ format_id last_ms last_seq ∷ []) ∷ concat claims)

-- The command that makes an empty stream, where there is no listpack, and the last id.
abbrev pub closing : Bytes → ℤ → Bytes → List RedisCmd
closing master_key n_listpack last_id =
    if is_zero n_listpack
    then (codes "xadd"
        ∷ master_key
        ∷ codes "MAXLEN"
        ∷ codes "0"
        ∷ last_id
        ∷ codes "x"
        ∷ codes "y"
        ∷ [])
      ∷ (codes "xsetid" ∷ master_key ∷ last_id ∷ [])
      ∷ []
    else (codes "xsetid" ∷ master_key ∷ last_id ∷ []) ∷ []

unfoldable pub read_stream : Bytes → ℕ → Reader (List RedisCmd)
read_stream master_key type_byte = do
  n_listpack ← read_length
  nodes ← repeat_read (rounds (int_of_u64 n_listpack)) (read_stream_node master_key)
  read_length
  last_ms ← read_length
  last_seq ← read_length
  skip_offsets type_byte
  n_group ← read_length
  groups ← repeat_read (rounds (int_of_u64 n_group)) (read_group master_key type_byte)
  pure (
      concat nodes
      ++ (closing master_key (int_of_u64 n_listpack) (format_id last_ms last_seq) ++ concat groups))

unfoldable pub load_from_buffer : Bytes → ℕ → Reader StreamObject
load_from_buffer key type_byte s =
    if type_byte == rdb_type_stream_listpacks
    then (do cmds ← read_stream key type_byte; pure (record { key = key; cmds = cmds })) s
    else if type_byte == rdb_type_stream_listpacks2
    then (do cmds ← read_stream key type_byte; pure (record { key = key; cmds = cmds })) s
    else raise (unknown_type type_byte) s

unfoldable pub rewrite : StreamObject → List RedisCmd
rewrite o = o.cmds

unfoldable pub mem_overhead : StreamObject → ℕ
mem_overhead o = 0
