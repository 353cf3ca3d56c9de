-- ===== src/Loader/Failover.antt =====
-- The loop of rdb.go where the ticker finds that the replica has become the master.
use redis_agent.Common.{
  ℕ, zero, suc, ◌^◌, ◌<◌, some, false, true, Bytes, List, [], ◌∷◌, ◌++◌, length, codes, Option, ◌≡◌,
  refl, sym, ap, ◌∙◌, arith, All,
}
use redis_agent.Common.Int.{pos}
use redis_agent.Reader.{ok, read_byte, read_bytes, read_full}
use redis_agent.Reader.Laws.{bind_ok}
use redis_agent.Text.RoundTrip.{put_raw}
use redis_agent.Objects.ZsetObject.{FloatOps}
use redis_agent.Dispatch.{mem_overhead}
use redis_agent.Dispatch.RoundTrip.{Value, value_type, put_value, ValueFits, object_of}
use redis_agent.Info.Laws.{Line, put_lines, LineFits, first_value, parse_info_prop-put_lines}
use redis_agent.Loader.{
  parse_rdb, parse_rdb_entry, check_magic, check_version, Loader, send_key, is_master, read_field,
  end_round, next_round, read_rounds,
}
use redis_agent.Loader.Times.{time_left, evicted}
use redis_agent.Loader.Keys.{value_type_small}
use redis_agent.Loader.Records.{
  key_field, attributes_run, sent_keyed, items_run, eviction_end-later, expiry_end-later,
}
use redis_agent.Loader.Replay.{IsDigit, parse_int-digits}
use redis_agent.Loader.Dump.{
  Expiry, Eviction, Item, keyed, put_items, ItemFits, View, view_item, expiry_end, eviction_end,
  view_items, items_end, at_rest, world_of,
}

-- The round that reads a key after some records and its own attributes.
abbrev pub key_round : List Item → Expiry → Eviction → ℕ
key_round items x e = eviction_end e (expiry_end x (items_end items 0))

view_items-last :
    (clock : ℕ → ℕ) (items : List Item) (last : Item) (i : ℕ) (w : View)
    → view_items clock i (items ++ last ∷ []) w
      ≡ view_item (clock (items_end items i)) last (view_items clock i items w)
view_items-last clock [] last i w = refl
view_items-last clock (item ∷ items) last i w = view_items-last clock items last _ _

finds_master :
    (tick : Option Bytes) (ls : List Line)
    → tick ≡ some (put_lines ls)
    → All LineFits ls
    → first_value (codes "role") ls ≡ codes "master"
    → is_master tick ≡ true
finds_master tick ls ht hl hr = rw (ht, parse_info_prop-put_lines (codes "role") ls hl, hr) refl

module _ (ops : FloatOps) (clock : ℕ → ℕ) (tick : ℕ → Option Bytes)
    (clock_fits : (i : ℕ) → clock i < 2 ^ 63) where
  -- The round that reads a key and then finds the master.
  last_round :
      (key : Bytes) (v : Value) (fuel i : ℕ) (ld : Loader) (s : Bytes)
      → length (value_type v ∷ put_raw key (put_value v s)) < fuel
      → length key < 2 ^ 63
      → ValueFits ops v
      → is_master (tick i) ≡ true
      → read_rounds ops (world_of clock tick) fuel i ld (value_type v ∷ put_raw key (put_value v s))
        ≡ ok (send_key key (mem_overhead (object_of key v)) ld, s)
  unfolding read_rounds next_round end_round read_byte
  last_round key v zero i ld s few hk hv hm = absurd (omega arith)
  last_round key v (suc fuel) i ld s few hk hv hm = rw (value_type_small v) (
      bind_ok (read_field ops (pos (clock i)) (value_type v) ld) _ (put_raw key (put_value v s)) (
        key_field ops clock tick 0 clock_fits (λ i h. absurd (omega arith)) key v (clock i) ld s hk
          hv)
      ∙ rw hm refl)

  rounds-failover :
      (items others : List Item) (x : Expiry) (e : Eviction) (key : Bytes) (v : Value) (w : View)
      (s : Bytes)
      → All (ItemFits ops) items
      → ItemFits ops (keyed x e key v)
      → ((i : ℕ) → i < key_round items x e → is_master (tick i) ≡ false)
      → is_master (tick (key_round items x e)) ≡ true
      → parse_rdb_entry ops
          (world_of clock tick)
          (at_rest w)
          (put_items (items ++ keyed x e key v ∷ others) s)
        ≡ ok (at_rest (view_items clock 0 (items ++ keyed x e key v ∷ []) w), put_items others s)
  unfolding parse_rdb_entry
  rounds-failover items others x e key v w s h (hx, he, hk, hv) replica hm =
      let i = items_end items 0 in
      let n = key_round items x e in
      let w' = view_items clock 0 items w in
      let left = put_items others s in
      let body = value_type v ∷ put_raw key (put_value v left) in
      let below = eviction_end-later e (expiry_end x i) in
      let (fuel, enough, run) =
        items_run ops clock tick n clock_fits replica items (keyed x e key v ∷ others) 0 w s h
          (omega (arith, expiry_end-later x i, below))
          (suc (length (put_items (items ++ keyed x e key v ∷ others) s))) (omega arith) in
      let (fuel', enough', run') =
        attributes_run ops clock tick n clock_fits replica x e i (at_rest w') body hx he
          (omega arith) fuel enough in
      run
      ∙ run'
      ∙ last_round key v fuel' n (evicted e (time_left (clock i) x (at_rest w'))) left enough' hk hv
          hm
      ∙ ap (λ ld. ok (ld, left))
          (sent_keyed ops clock tick n clock_fits replica x e key v i w' hx
            ∙ ap at_rest (sym (view_items-last clock items (keyed x e key v) 0 w)))

  -- A failover in the middle of a dump: of a dump with a four-digit version, over records that fit,
  -- read at a clock within 63 bits, where the ticker finds no master before the round that reads a
  -- certain key, and in that round gets a reply made of headings, empty lines and lines
  -- `name:value` whose first role is master. Then `ParseRDB` returns as at the end of a dump, and
  -- has sent exactly the entries of the records up to that key; the rest of the dump is left unread.
  pub parse_rdb-failover :
      (a b c d : ℕ) (items others : List Item) (x : Expiry) (e : Eviction) (key : Bytes) (v : Value)
      (w : View) (s : Bytes) (ls : List Line)
      → All IsDigit (a ∷ b ∷ c ∷ d ∷ [])
      → All (ItemFits ops) items
      → ItemFits ops (keyed x e key v)
      → ((i : ℕ) → i < key_round items x e → is_master (tick i) ≡ false)
      → tick (key_round items x e) ≡ some (put_lines ls)
      → All LineFits ls
      → first_value (codes "role") ls ≡ codes "master"
      → parse_rdb ops
          (world_of clock tick)
          (at_rest w)
          (codes "REDIS" ++ (a ∷ b ∷ c ∷ d ∷ put_items (items ++ keyed x e key v ∷ others) s))
        ≡ ok (at_rest (view_items clock 0 (items ++ keyed x e key v ∷ []) w), put_items others s)
  unfolding parse_rdb read_bytes read_full check_magic check_version
  parse_rdb-failover a b c d items others x e key v w s ls digits h hk replica ht hl hr =
      rw (parse_int-digits a b c d digits) (
        rounds-failover items others x e key v w s h hk replica
          (finds_master (tick (key_round items x e)) ls ht hl hr))
