-- ===== src/Loader/Records.antt =====
-- The rounds of the loop of rdb.go on the records of a dump, where no ticker finds a master.
use redis_agent.Common.{
  ℕ, suc, ◌+◌, ◌≤◌, ◌*◌, ◌%◌, ◌^◌, ◌<◌, ◌==◌, Bool, true, false, not, if◌then◌else◌, Bytes, List,
  [], ◌∷◌, ◌++◌, length, codes, Option, ◌≡◌, refl, ◌∙◌, arith, All,
}
use redis_agent.Common.Int.{pos}
use redis_agent.Reader.{ok, read_byte}
use redis_agent.Reader.Laws.{bind_ok}
use redis_agent.Numbers.{read_uint32, read_uint64}
use redis_agent.Numbers.Laws.{le_bytes, read_uint32-le_bytes, read_uint64-le_bytes}
use redis_agent.Length.{read_length}
use redis_agent.Length.RoundTrip.{put_length, read_length-put_length}
use redis_agent.Length.Counted.{int_of_small}
use redis_agent.Text.{read_string}
use redis_agent.Text.RoundTrip.{put_raw, read_string-put_raw}
use redis_agent.Decimal.{format_int}
use redis_agent.Decimal.RoundTrip.{parse_int-format_int}
use redis_agent.Objects.ZsetObject.{FloatOps}
use redis_agent.Dispatch.{parse_object, mem_overhead}
use redis_agent.Dispatch.RoundTrip.{
  Value, value_type, put_value, ValueFits, object_of, parse_object-put_value,
}
use mathlib.Core.Path.{subst}
use redis_agent.Loader.{Loader, send_key, read_field, read_aux, aux_field, read_key, is_master}
use redis_agent.Loader.Times.{time_left, evicted, is_zero-clamp}
use redis_agent.Loader.Keys.{read_field_key, value_type_small}
use redis_agent.Loader.Steps.{Runs, Runs-refl, Runs-trans, Runs-field}
use redis_agent.Loader.Dump.{
  Expiry, Eviction, Item, put_expiry, put_eviction, put_item, put_items, ExpiryFits, EvictionFits,
  ItemFits, View, view_item, expiry_end, eviction_end, item_end, view_items, items_end, at_rest,
  world_of, no_expiry, at_ms, at_seconds, no_eviction, idle_for, used, select_db, resize_db,
  aux_text, stream_db, script, keyed,
}

-- The rounds go up.
pub eviction_end-later : (e : Eviction) (i : ℕ) → i ≤ eviction_end e i
eviction_end-later no_eviction i = omega arith
eviction_end-later (idle_for n) i = omega arith
eviction_end-later (used b) i = omega arith

pub expiry_end-later : (x : Expiry) (i : ℕ) → i ≤ expiry_end x i
expiry_end-later no_expiry i = omega arith
expiry_end-later (at_ms t) i = omega arith
expiry_end-later (at_seconds t) i = omega arith

item_end-later : (item : Item) (i : ℕ) → i ≤ item_end item i
item_end-later (select_db n) i = omega arith
item_end-later (resize_db a b) i = omega arith
item_end-later (aux_text k v) i = omega arith
item_end-later (stream_db z) i = omega arith
item_end-later (script t) i = omega arith
item_end-later (keyed x e key v) i =
    omega (arith, expiry_end-later x i, eviction_end-later e (expiry_end x i))

pub items_end-later : (items : List Item) (i : ℕ) → i ≤ items_end items i
items_end-later [] i = omega arith
items_end-later (item ∷ items) i =
    omega (arith, item_end-later item i, items_end-later items (item_end item i))

module _ (ops : FloatOps) (clock : ℕ → ℕ) (tick : ℕ → Option Bytes) (bound : ℕ)
    (clock_fits : (i : ℕ) → clock i < 2 ^ 63)
    (replica : (i : ℕ) → i < bound → is_master (tick i) ≡ false) where
  abbrev pub Run : ℕ × Loader × Bytes → ℕ × Loader × Bytes → Type 0
  Run = Runs ops (world_of clock tick)

  expiry_run :
      (x : Expiry) (i : ℕ) (ld : Loader) (s : Bytes)
      → ExpiryFits x
      → expiry_end x i ≤ bound
      → Run (i, ld, put_expiry x s) (expiry_end x i, time_left (clock i) x ld, s)
  unfolding read_field
  expiry_run no_expiry i ld s h k = Runs-refl ops (world_of clock tick) (i, ld, s)
  expiry_run (at_ms t) i ld s h k =
      Runs-field ops (world_of clock tick) i ld _ 0xfc (le_bytes 8 t ++ s) s refl
        (replica i (omega arith)) (bind_ok read_uint64 _ _ (read_uint64-le_bytes t s (omega arith)))
  expiry_run (at_seconds t) i ld s h k =
      Runs-field ops (world_of clock tick) i ld _ 0xfd (le_bytes 4 t ++ s) s refl
        (replica i (omega arith)) (bind_ok read_uint32 _ _ (read_uint32-le_bytes t s h))

  eviction_run :
      (e : Eviction) (i : ℕ) (ld : Loader) (s : Bytes)
      → EvictionFits e
      → eviction_end e i ≤ bound
      → Run (i, ld, put_eviction e s) (eviction_end e i, evicted e ld, s)
  unfolding read_field read_byte
  eviction_run no_eviction i ld s h k = Runs-refl ops (world_of clock tick) (i, ld, s)
  eviction_run (idle_for n) i ld s h k =
      Runs-field ops (world_of clock tick) i ld _ 0xf8 (put_length n s) s refl
        (replica i (omega arith))
        (bind_ok read_length _ _ (read_length-put_length n s (omega arith)))
  eviction_run (used b) i ld s h k =
      Runs-field ops (world_of clock tick) i ld _ 0xf9 (b ∷ s) s refl (replica i (omega arith)) refl

  pub key_field :
      (key : Bytes) (v : Value) (now : ℕ) (ld : Loader) (s : Bytes)
      → length key < 2 ^ 63
      → ValueFits ops v
      → read_field ops (pos now) (value_type v) ld (put_raw key (put_value v s))
        ≡ ok (send_key key (mem_overhead (object_of key v)) ld, s)
  unfolding read_key
  key_field key v now ld s hk hv =
      read_field_key ops (pos now) v ld (put_raw key (put_value v s))
      ∙ bind_ok read_string _ _ (read_string-put_raw key (put_value v s) hk)
      ∙ bind_ok (parse_object ops (value_type v) key) _ _ (parse_object-put_value ops key v s hv)

  key_run :
      (key : Bytes) (v : Value) (i : ℕ) (ld : Loader) (s : Bytes)
      → length key < 2 ^ 63
      → ValueFits ops v
      → i < bound
      → Run
          (i, ld, value_type v ∷ put_raw key (put_value v s))
          (suc i, send_key key (mem_overhead (object_of key v)) ld, s)
  key_run key v i ld s hk hv hi =
      Runs-field ops (world_of clock tick) i ld _ (value_type v) (put_raw key (put_value v s)) s
        (value_type_small v) (replica i hi) (key_field key v (clock i) ld s hk hv)

  evicted_key :
      (e : Eviction) (key : Bytes) (o : ℕ) (ld : Loader)
      → send_key key o (evicted e ld) ≡ send_key key o ld
  evicted_key no_eviction key o ld = refl
  evicted_key (idle_for n) key o ld = refl
  evicted_key (used b) key o ld = refl

  if-not : {A : Type 0} (b : Bool) (x y : A) → (if b then x else y) ≡ (if not b then y else x)
  if-not true x y = refl
  if-not false x y = refl

  sent_key :
      (x : Expiry) (e : Eviction) (key : Bytes) (v : Value) (now : ℕ) (w : View)
      → now < 2 ^ 63
      → ExpiryFits x
      → send_key key (mem_overhead (object_of key v)) (time_left now x (at_rest w))
        ≡ at_rest (view_item now (keyed x e key v) w)
  sent_key no_expiry e key v now w k h = refl
  sent_key (at_ms t) e key v now w k h =
      rw (int_of_small t h, is_zero-clamp t now h k)
        (rw
          (if-not (t == now) (mem_overhead (object_of key v))
            ((mem_overhead (object_of key v) + 24) % 2 ^ 64))
          refl)
  sent_key (at_seconds t) e key v now w k h = rw (is_zero-clamp (t * 1000) now (omega arith) k) (
      rw
        (if-not (t * 1000 == now) (mem_overhead (object_of key v))
          ((mem_overhead (object_of key v) + 24) % 2 ^ 64))
        refl)

  -- The attributes of a key, up to the key itself.
  pub attributes_run :
      (x : Expiry) (e : Eviction) (i : ℕ) (ld : Loader) (s : Bytes)
      → ExpiryFits x
      → EvictionFits e
      → eviction_end e (expiry_end x i) ≤ bound
      → Run
          (i, ld, put_expiry x (put_eviction e s))
          (eviction_end e (expiry_end x i), evicted e (time_left (clock i) x ld), s)
  attributes_run x e i ld s hx he k =
      let later = eviction_end-later e (expiry_end x i) in
      Runs-trans ops (world_of clock tick) (i, ld, put_expiry x (put_eviction e s))
        (expiry_end x i, time_left (clock i) x ld, put_eviction e s) _
        (expiry_run x i ld (put_eviction e s) hx (omega arith))
        (eviction_run e (expiry_end x i) (time_left (clock i) x ld) s he k)

  -- What is sent for a key between two items.
  pub sent_keyed :
      (x : Expiry) (e : Eviction) (key : Bytes) (v : Value) (i : ℕ) (w : View)
      → ExpiryFits x
      → send_key key
          (mem_overhead (object_of key v))
          (evicted e (time_left (clock i) x (at_rest w)))
        ≡ at_rest (view_item (clock i) (keyed x e key v) w)
  sent_keyed x e key v i w hx =
      evicted_key e key (mem_overhead (object_of key v)) (time_left (clock i) x (at_rest w))
      ∙ sent_key x e key v (clock i) w (clock_fits i) hx

  keyed_run :
      (x : Expiry) (e : Eviction) (key : Bytes) (v : Value) (i : ℕ) (w : View) (s : Bytes)
      → ItemFits ops (keyed x e key v)
      → item_end (keyed x e key v) i ≤ bound
      → Run
          (i, at_rest w, put_item (keyed x e key v) s)
          (item_end (keyed x e key v) i, at_rest (view_item (clock i) (keyed x e key v) w), s)
  keyed_run x e key v i w s (hx, he, hk, hv) fits =
      let k = eviction_end e (expiry_end x i) in
      let ld = evicted e (time_left (clock i) x (at_rest w)) in
      let body = value_type v ∷ put_raw key (put_value v s) in
      Runs-trans ops (world_of clock tick) (i, at_rest w, put_expiry x (put_eviction e body))
        (k, ld, body) _ (attributes_run x e i (at_rest w) body hx he (omega arith))
        (subst (λ ld'. Run (k, ld, body) (suc k, ld', s)) (sent_keyed x e key v i w hx)
          (key_run key v k ld s hk hv (omega arith)))

  item_run :
      (item : Item) (i : ℕ) (w : View) (s : Bytes)
      → ItemFits ops item
      → item_end item i ≤ bound
      → Run
          (i, at_rest w, put_item item s)
          (item_end item i, at_rest (view_item (clock i) item w), s)
  unfolding read_field read_aux aux_field
  item_run (select_db n) i w s h k =
      Runs-field ops (world_of clock tick) i (at_rest w) _ 0xfe (put_length n s) s refl
        (replica i (omega arith))
        (bind_ok read_length _ _ (read_length-put_length n s (omega arith))
          ∙ rw (int_of_small n h) refl)
  item_run (resize_db a b) i w s (ha, hb) k =
      Runs-field ops (world_of clock tick) i (at_rest w) _ 0xfb (put_length a (put_length b s)) s
        refl (replica i (omega arith))
        (bind_ok read_length _ _ (read_length-put_length a (put_length b s) (omega arith))
          ∙ bind_ok read_length _ _ (read_length-put_length b s (omega arith)))
  item_run (aux_text k v) i w s (hk, hv, not_db, not_lua) small =
      Runs-field ops (world_of clock tick) i (at_rest w) _ 0xfa (put_raw k (put_raw v s)) s refl
        (replica i (omega arith))
        (bind_ok read_string _ _ (read_string-put_raw k (put_raw v s) hk)
          ∙ bind_ok read_string _ _ (read_string-put_raw v s hv)
          ∙ rw (not_db, not_lua) refl)
  item_run (stream_db z) i w s (hz, hl) k =
      Runs-field ops (world_of clock tick) i (at_rest w) _ 0xfa _ s refl (replica i (omega arith)) (
        bind_ok read_string _ _
          (read_string-put_raw (codes "repl-stream-db") (put_raw (format_int z) s) (omega arith))
        ∙ bind_ok read_string _ _ (read_string-put_raw (format_int z) s hl)
        ∙ rw (parse_int-format_int z hz) refl)
  item_run (script t) i w s h k =
      Runs-field ops (world_of clock tick) i (at_rest w) _ 0xfa _ s refl (replica i (omega arith)) (
        bind_ok read_string _ _ (read_string-put_raw (codes "lua") (put_raw t s) (omega arith))
        ∙ bind_ok read_string _ _ (read_string-put_raw t s h))
  item_run (keyed x e key v) i w s h k = keyed_run x e key v i w s h k

  -- The records in front of others.
  pub items_run :
      (items others : List Item) (i : ℕ) (w : View) (s : Bytes)
      → All (ItemFits ops) items
      → items_end items i ≤ bound
      → Run
          (i, at_rest w, put_items (items ++ others) s)
          (items_end items i, at_rest (view_items clock i items w), put_items others s)
  items_run [] others i w s h k =
      Runs-refl ops (world_of clock tick) (i, at_rest w, put_items others s)
  items_run (item ∷ items) others i w s (h, hs) k =
      let later = items_end-later items (item_end item i) in
      Runs-trans ops (world_of clock tick)
        (i, at_rest w, put_item item (put_items (items ++ others) s))
        (item_end item i, at_rest (view_item (clock i) item w), put_items (items ++ others) s) _
        (item_run item i w (put_items (items ++ others) s) h (omega arith))
        (items_run items others (item_end item i) (view_item (clock i) item w) s hs k)
