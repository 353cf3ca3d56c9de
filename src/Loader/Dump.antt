-- ===== src/Loader/Dump.antt =====
-- A dump as Redis writes it, and what the entries for it are to be.
use redis_agent.Common.{
  ℕ, suc, ◌+◌, ◌*◌, ◌%◌, ◌^◌, ◌<◌, ◌==◌, Bool, true, false, not, if◌then◌else◌, Bytes, List, [],
  ◌∷◌, ◌++◌, length, codes, Option, same_bytes, ◌≡◌,
}
use redis_agent.Common.Int.{ℤ, pos}
use redis_agent.Numbers.Laws.{le_bytes, Fits}
use redis_agent.Length.RoundTrip.{put_length}
use redis_agent.Text.RoundTrip.{put_raw}
use redis_agent.Decimal.{format_int}
use redis_agent.Objects.ZsetObject.{FloatOps}
use redis_agent.Dispatch.{mem_overhead}
use redis_agent.Dispatch.RoundTrip.{Value, value_type, put_value, ValueFits, object_of}
use redis_agent.Loader.{Entry, Loader, Round, script_entry}

pub data Expiry : Type 0 where
  no_expiry : Expiry
  at_ms at_seconds : ℕ → Expiry

pub data Eviction : Type 0 where
  no_eviction : Eviction
  idle_for used : ℕ → Eviction

-- The records of a dump; a key stands with its attributes in front.
pub data Item : Type 0 where
  select_db : ℕ → Item
  resize_db : ℕ → ℕ → Item
  aux_text : Bytes → Bytes → Item
  stream_db : ℤ → Item
  script : Bytes → Item
  keyed : Expiry → Eviction → Bytes → Value → Item

abbrev pub put_expiry : Expiry → Bytes → Bytes
put_expiry no_expiry s = s
put_expiry (at_ms t) s = 0xfc ∷ le_bytes 8 t ++ s
put_expiry (at_seconds t) s = 0xfd ∷ le_bytes 4 t ++ s

abbrev pub put_eviction : Eviction → Bytes → Bytes
put_eviction no_eviction s = s
put_eviction (idle_for n) s = 0xf8 ∷ put_length n s
put_eviction (used b) s = 0xf9 ∷ b ∷ s

abbrev pub put_item : Item → Bytes → Bytes
put_item (select_db n) s = 0xfe ∷ put_length n s
put_item (resize_db a b) s = 0xfb ∷ put_length a (put_length b s)
put_item (aux_text k v) s = 0xfa ∷ put_raw k (put_raw v s)
put_item (stream_db z) s = 0xfa ∷ put_raw (codes "repl-stream-db") (put_raw (format_int z) s)
put_item (script t) s = 0xfa ∷ put_raw (codes "lua") (put_raw t s)
put_item (keyed x e key v) s =
    put_expiry x (put_eviction e (value_type v ∷ put_raw key (put_value v s)))

abbrev pub put_items : List Item → Bytes → Bytes
put_items [] s = 0xff ∷ s
put_items (i ∷ is) s = put_item i (put_items is s)

abbrev pub ExpiryFits : Expiry → Type 0
ExpiryFits no_expiry = Unit
ExpiryFits (at_ms t) = t < 2 ^ 63
ExpiryFits (at_seconds t) = t < 2 ^ 32

abbrev pub EvictionFits : Eviction → Type 0
EvictionFits no_eviction = Unit
EvictionFits (idle_for n) = n < 2 ^ 63
EvictionFits (used b) = b < 256

abbrev pub ItemFits : FloatOps → Item → Type 0
ItemFits ops (select_db n) = n < 2 ^ 63
ItemFits ops (resize_db a b) = (a < 2 ^ 63) × (b < 2 ^ 63)
ItemFits ops (aux_text k v) =
    (length k < 2 ^ 63)
    × (length v < 2 ^ 63)
    × (same_bytes k (codes "repl-stream-db") ≡ false)
    × (same_bytes k (codes "lua") ≡ false)
ItemFits ops (stream_db z) = Fits 64 z × (length (format_int z) < 2 ^ 63)
ItemFits ops (script t) = length t < 2 ^ 63
ItemFits ops (keyed x e key v) =
    ExpiryFits x × EvictionFits e × (length key < 2 ^ 63) × ValueFits ops v

-- What stays of a dump from one key to the next.
pub record View : Type 0 where
  pub stream_db_id : ℤ
  pub db : ℤ
  pub sent : List Entry

-- Whether the key is counted as expiring, at the clock `now`.
abbrev pub expires : ℕ → Expiry → Bool
expires now no_expiry = false
expires now (at_ms t) = not (t == now)
expires now (at_seconds t) = not (t * 1000 == now)

abbrev pub entry_of : ℤ → ℕ → Expiry → Bytes → Value → Entry
entry_of db now x key v = record {
  id = 0;
  is_base = true;
  db_id = db;
  argv = [];
  key = key;
  overhead =
      if expires now x
      then (mem_overhead (object_of key v) + 24) % 2 ^ 64
      else mem_overhead (object_of key v);
  is_expire_key = expires now x;
}

abbrev pub view_item : ℕ → Item → View → View
view_item now (select_db n) w = record { stream_db_id = w.stream_db_id; db = pos n; sent = w.sent }
view_item now (resize_db a b) w = w
view_item now (aux_text k v) w = w
view_item now (stream_db z) w = record { stream_db_id = z; db = w.db; sent = w.sent }
view_item now (script t) w = record {
  stream_db_id = w.stream_db_id;
  db = w.db;
  sent = w.sent ++ (script_entry t ∷ []);
}
view_item now (keyed x e key v) w = record {
  stream_db_id = w.stream_db_id;
  db = w.db;
  sent = w.sent ++ (entry_of w.db now x key v ∷ []);
}

abbrev pub expiry_end : Expiry → ℕ → ℕ
expiry_end no_expiry i = i
expiry_end (at_ms t) i = suc i
expiry_end (at_seconds t) i = suc i

abbrev pub eviction_end : Eviction → ℕ → ℕ
eviction_end no_eviction i = i
eviction_end (idle_for n) i = suc i
eviction_end (used b) i = suc i

-- The number of the round after an item.
abbrev pub item_end : Item → ℕ → ℕ
item_end (keyed x e key v) i = suc (eviction_end e (expiry_end x i))
item_end item i = suc i

abbrev pub view_items : (ℕ → ℕ) → ℕ → List Item → View → View
view_items clock i [] w = w
view_items clock i (item ∷ items) w =
    view_items clock (item_end item i) items (view_item (clock i) item w)

abbrev pub items_end : List Item → ℕ → ℕ
items_end [] i = i
items_end (item ∷ items) i = items_end items (item_end item i)

-- A loader between two items: the attributes of a key are reset.
abbrev pub at_rest : View → Loader
at_rest w = record {
  repl_stream_db_id = w.stream_db_id;
  now_db_id = w.db;
  expire_ms = pos 0;
  idle = pos 0;
  freq = pos 0;
  ch = w.sent;
}

abbrev pub world_of : (ℕ → ℕ) → (ℕ → Option Bytes) → ℕ → Round
world_of clock tick i = record { now = pos (clock i); tick = tick i }
