-- ===== src/Loader/Replay.antt =====
-- The loop of rdb.go sends for a dump the entries that its records describe.
use redis_agent.Common.{
  ℕ, zero, suc, ◌+◌, ◌-◌, ◌≤◌, some, ◌*◌, ◌^◌, ◌<◌, false, Bytes, List, [], ◌∷◌, ◌++◌, length,
  codes, Option, ◌≡◌, refl, ◌∙◌, arith, All, append-nil,
}
use redis_agent.Common.Int.{pos}
use redis_agent.Reader.{ok, read_byte, read_bytes, read_full}
use redis_agent.Decimal.{parse_int, parse_uint, scan}
use redis_agent.Objects.ZsetObject.{FloatOps}
use mathlib.Core.Path.{subst}
use redis_agent.Loader.{
  parse_rdb, parse_rdb_entry, check_magic, check_version, Loader, is_master, next_round,
  read_rounds,
}
use redis_agent.Loader.Records.{Run, items_run}
use redis_agent.Loader.Dump.{
  Item, put_items, ItemFits, View, view_items, items_end, at_rest, world_of,
}

abbrev pub IsDigit : ℕ → Type 0
IsDigit b = (48 ≤ b) × (b < 58)

pub parse_int-digits :
    (a b c d : ℕ)
    → All IsDigit (a ∷ b ∷ c ∷ d ∷ [])
    → parse_int (a ∷ b ∷ c ∷ d ∷ [])
      ≡ some (pos ((((a - 48) * 10 + (b - 48)) * 10 + (c - 48)) * 10 + (d - 48)))
unfolding parse_int parse_uint scan
parse_int-digits a b c d h = ground arith

module _ (ops : FloatOps) (clock : ℕ → ℕ) (tick : ℕ → Option Bytes)
    (clock_fits : (i : ℕ) → clock i < 2 ^ 63) (replica : (i : ℕ) → is_master (tick i) ≡ false) where
  -- The bytes after the end of the file are left.
  eof :
      (fuel i : ℕ) (ld : Loader) (s : Bytes)
      → length (0xff ∷ s) < fuel
      → read_rounds ops (world_of clock tick) fuel i ld (0xff ∷ s) ≡ ok (ld, s)
  unfolding read_rounds next_round read_byte
  eof zero i ld s h = absurd (omega arith)
  eof (suc fuel) i ld s h = refl

  rounds-put_items :
      (items : List Item) (w : View) (s : Bytes)
      → All (ItemFits ops) items
      → parse_rdb_entry ops (world_of clock tick) (at_rest w) (put_items items s)
        ≡ ok (at_rest (view_items clock 0 items w), s)
  unfolding parse_rdb_entry
  rounds-put_items items w s h =
      let whole : items ++ [] ≡ items = append-nil items in
      let (fuel, enough, run) =
        subst
          (λ all.
            Run ops clock tick (items_end items 0) clock_fits (λ i h. replica i)
              (0, at_rest w, put_items all s)
              (items_end items 0, at_rest (view_items clock 0 items w), put_items [] s))
          whole
          (items_run ops clock tick (items_end items 0) clock_fits (λ i h. replica i) items [] 0 w s
            h (omega arith))
          (suc (length (put_items items s))) (omega arith) in
      run ∙ eof fuel (items_end items 0) (at_rest (view_items clock 0 items w)) s enough

  -- Of a dump with a four-digit version, over records that fit (strings, lists, sets, hashes,
  -- sorted sets and streams as values), read on a replica at a clock within 63 bits: `ParseRDB`
  -- ends before the checksum and has sent exactly the entries that the records describe, in their
  -- order. Each key's entry has the database last selected and is marked, and
  -- charged 24 bytes, as expiring just when its own time of expiry is there and is not the present
  -- instant, whatever the keys before it had.
  pub parse_rdb-put_dump :
      (a b c d : ℕ) (items : List Item) (w : View) (s : Bytes)
      → All IsDigit (a ∷ b ∷ c ∷ d ∷ [])
      → All (ItemFits ops) items
      → parse_rdb ops
          (world_of clock tick)
          (at_rest w)
          (codes "REDIS" ++ (a ∷ b ∷ c ∷ d ∷ put_items items s))
        ≡ ok (at_rest (view_items clock 0 items w), s)
  unfolding parse_rdb read_bytes read_full check_magic check_version
  parse_rdb-put_dump a b c d items w s digits h =
      rw (parse_int-digits a b c d digits) (rounds-put_items items w s h)
