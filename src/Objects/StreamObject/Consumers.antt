-- ===== src/Objects/StreamObject/Consumers.antt =====
-- The consumers of a group of a stream as Redis writes them, and the commands that restore them.
use redis_agent.Common.{
  ℕ, ◌^◌, ◌<◌, Bytes, List, [], ◌∷◌, ◌++◌, map, length, codes, same_bytes, if◌then◌else◌, ◌≡◌, refl,
  ◌∙◌, ap, arith, All,
}
use redis_agent.Reader.{ok, read_bytes}
use redis_agent.Reader.Laws.{bind_ok}
use redis_agent.Numbers.{be_value, read_uint64}
use redis_agent.Numbers.Laws.{le_bytes, be_bytes, read_uint64-le_bytes}
use redis_agent.Length.{read_length}
use redis_agent.Length.RoundTrip.{put_length, read_length-put_length}
use redis_agent.Length.Counted.{put_counted, counted}
use redis_agent.Text.{read_string}
use redis_agent.Text.RoundTrip.{put_raw, read_string-put_raw}
use redis_agent.Decimal.{format_uint}
use redis_agent.Objects.{RedisCmd}
use redis_agent.Objects.StreamObject.{
  format_id, read_id, Pending, read_pending, fill, pending_of, read_claim, read_consumer,
}

-- The id of an entry: milliseconds and a number, big-endian.
abbrev pub EntryId : Type 0
EntryId = ℕ × ℕ

abbrev pub EntryIdFits : EntryId → Type 0
EntryIdFits (ms, seq) = (ms < 2 ^ 64) × (seq < 2 ^ 64)

abbrev pub put_id : EntryId → Bytes → Bytes
put_id (ms, seq) s = be_bytes 8 ms (be_bytes 8 seq s)

abbrev pub show_id : EntryId → Bytes
show_id (ms, seq) = format_id ms seq

pub be_value-be_bytes : (n : ℕ) → n < 2 ^ 64 → be_value (be_bytes 8 n []) ≡ n
be_value-be_bytes n h = omega arith

read_id-put_id :
    (i : EntryId) (s : Bytes) → EntryIdFits i → read_id (put_id i s) ≡ ok (show_id i, s)
unfolding read_id read_bytes
read_id-put_id (ms, seq) s (hm, hs) =
    ap (λ n. ok (format_id n (be_value (be_bytes 8 seq [])), s)) (be_value-be_bytes ms hm)
    ∙ ap (λ n. ok (format_id ms n, s)) (be_value-be_bytes seq hs)

-- An entry that was delivered and not acknowledged, with the time and the count of its deliveries.
pub record Delivery : Type 0 where
  pub id : EntryId
  pub time : ℕ
  pub count : ℕ

pub record DeliveryFits (d : Delivery) : Type 0 where
  pub id_fits : EntryIdFits d.id
  pub time_fits : d.time < 2 ^ 64
  pub count_fits : d.count < 2 ^ 64

abbrev pub put_delivery : Delivery → Bytes → Bytes
put_delivery d s = put_id d.id (le_bytes 8 d.time ++ put_length d.count s)

abbrev pub delivered : Delivery → Bytes × ℕ × ℕ
delivered d = (show_id d.id, d.time, d.count)

pub read_pending-put_delivery :
    (d : Delivery) (s : Bytes)
    → DeliveryFits d
    → read_pending (put_delivery d s) ≡ ok (delivered d, s)
unfolding read_pending
read_pending-put_delivery d s h =
    bind_ok read_id _ _ (read_id-put_id d.id _ h.id_fits)
    ∙ bind_ok read_uint64 _ _ (read_uint64-le_bytes d.time _ h.time_fits)
    ∙ bind_ok read_length _ _ (read_length-put_length d.count s h.count_fits)

-- The time and count of the last delivery of an id, or zeros.
abbrev pub last_delivery : Bytes → List Delivery → ℕ × ℕ → ℕ × ℕ
last_delivery id [] before = before
last_delivery id (d ∷ ds) before =
    last_delivery id ds (if same_bytes (show_id d.id) id then (d.time, d.count) else before)

pending_of-fill :
    (id : Bytes) (ds : List Delivery) (m : Pending)
    → pending_of id (fill (map delivered ds) m) ≡ last_delivery id ds (pending_of id m)
unfolding fill pending_of
pending_of-fill id [] m = refl
pending_of-fill id (d ∷ ds) m = pending_of-fill id ds (delivered d ∷ m)

pending_of-delivered :
    (id : Bytes) (ds : List Delivery)
    → pending_of id (fill (map delivered ds) []) ≡ last_delivery id ds (0, 0)
unfolding pending_of
pending_of-delivered id ds = pending_of-fill id ds []

pub record Consumer : Type 0 where
  pub name : Bytes
  pub seen : ℕ
  pub waiting : List EntryId

pub record ConsumerFits (c : Consumer) : Type 0 where
  pub name_short : length c.name < 2 ^ 63
  pub seen_fits : c.seen < 2 ^ 64
  pub few : length c.waiting < 2 ^ 63
  pub ids_fit : All EntryIdFits c.waiting

abbrev pub put_consumer : Consumer → Bytes → Bytes
put_consumer c s = put_raw c.name (le_bytes 8 c.seen ++ put_counted put_id c.waiting s)

-- `XCLAIM` of one entry for one consumer, with its time and count of deliveries.
abbrev pub claim : Bytes → Bytes → Bytes → Bytes → ℕ × ℕ → RedisCmd
claim key group consumer id (time, count) =
    codes "xclaim"
    ∷ key
    ∷ group
    ∷ consumer
    ∷ codes "0"
    ∷ id
    ∷ codes "TIME"
    ∷ format_uint time
    ∷ codes "RETRYCOUNT"
    ∷ format_uint count
    ∷ codes "JUSTID"
    ∷ codes "FORCE"
    ∷ []

abbrev pub claim_of : Bytes → Bytes → List Delivery → Bytes → EntryId → RedisCmd
claim_of key group ds consumer i =
    claim key group consumer (show_id i) (last_delivery (show_id i) ds (0, 0))

abbrev pub claims_of : Bytes → Bytes → List Delivery → Consumer → List RedisCmd
claims_of key group ds c = map (claim_of key group ds c.name) c.waiting

read_claim-put_id :
    (key group consumer : Bytes) (ds : List Delivery) (i : EntryId) (s : Bytes)
    → EntryIdFits i
    → read_claim key group consumer (fill (map delivered ds) []) (put_id i s)
      ≡ ok (claim_of key group ds consumer i, s)
unfolding read_claim
read_claim-put_id key group consumer ds i s h =
    bind_ok read_id _ _ (read_id-put_id i s h)
    ∙ ap (λ d. ok (claim key group consumer (show_id i) d, s)) (pending_of-delivered (show_id i) ds)

pub read_consumer-put_consumer :
    (key group : Bytes) (ds : List Delivery) (c : Consumer) (s : Bytes)
    → ConsumerFits c
    → read_consumer key group (fill (map delivered ds) []) (put_consumer c s)
      ≡ ok (claims_of key group ds c, s)
unfolding read_consumer
read_consumer-put_consumer key group ds c s h =
    bind_ok read_string _ _ (read_string-put_raw c.name _ h.name_short)
    ∙ bind_ok read_uint64 _ _ (read_uint64-le_bytes c.seen _ h.seen_fits)
    ∙ counted (read_claim key group c.name (fill (map delivered ds) [])) put_id
        (claim_of key group ds c.name) EntryIdFits (read_claim-put_id key group c.name ds) c.waiting
        s h.few h.ids_fit
