-- ===== src/Pipeline/Complete.antt =====
-- From the records of a dump to the table of the users.
use redis_agent.Common.{
  ℕ, ◌+◌, ◌%◌, ◌^◌, ◌<◌, Bool, false, Bytes, List, [], ◌∷◌, ◌++◌, length, map, codes, Option, ◌⊎◌,
  inl, inr, ◌≡◌, refl, sym, ◌∙◌, ap, arith, All,
}
use mathlib.Core.Path.{subst}
use redis_agent.Common.Int.{pos}
use redis_agent.Reader.{ok}
use redis_agent.Objects.{sum64}
use redis_agent.Objects.ZsetObject.{FloatOps}
use redis_agent.Memory.{field_bucket_overhead}
use redis_agent.Loader.{Entry, is_master}
use redis_agent.Loader.Dump.{Item, put_items, ItemFits, View, view_items, world_of}
use redis_agent.Loader.Replay.{IsDigit, parse_rdb-put_dump}
use redis_agent.Metrics.{Metrics}
use redis_agent.Analysis.{
  UserOverhead, Users, FloatShare, new_user, with_more, share_of, add_entries, key_rehash_overhead,
  expire_key_rehash_overhead, dumped, dump_rdb,
}
use redis_agent.Analysis.Sums.{
  row_of, sum_for, one_key, one_expiring, overhead_of, add_entries-sum_for,
}
use redis_agent.Pipeline.{start_read, execute_statistic}
use redis_agent.Pipeline.Totals.{
  Blind, items_for, sum_for-view_items, row_of-map, map-twice, map-kept,
}

-- What a user bears of the two rehash overheads, by the totals of a table.
abbrev pub key_share : FloatShare → Users → UserOverhead → ℕ
key_share share us u =
    let total = sum64 (map (λ v. v.key_count) us) in
    share_of share (field_bucket_overhead total) u.key_count total

abbrev pub expire_share : FloatShare → Users → UserOverhead → ℕ
expire_share share us u =
    let total = sum64 (map (λ v. v.expire_key_count) us) in
    share_of share (field_bucket_overhead total) u.expire_key_count total

abbrev with_key_share : FloatShare → Users → UserOverhead → UserOverhead
with_key_share share us u = with_more (key_share share us u) u

abbrev with_expire_share : FloatShare → Users → UserOverhead → UserOverhead
with_expire_share share us u = with_more (expire_share share us u) u

-- The table that `Statistic` publishes.
abbrev published : FloatShare → Users → Users
published share us =
    map (with_expire_share share (map (with_key_share share us) us))
      (map (with_key_share share us) us)

-- What it does to a row.
abbrev both_shares : FloatShare → Users → UserOverhead → UserOverhead
both_shares share us u =
    with_expire_share share (map (with_key_share share us) us) (with_key_share share us u)

module _ (share : FloatShare) (us : Users) where
  key_counts : map (λ u. u.key_count) (published share us) ≡ map (λ u. u.key_count) us
  key_counts =
      map-kept (λ u. u.key_count) (with_expire_share share (map (with_key_share share us) us)) _
        (λ u. refl)
      ∙ map-kept (λ u. u.key_count) (with_key_share share us) us (λ u. refl)

  expire_counts :
      map (λ u. u.expire_key_count) (published share us)
      ≡ map (λ u. u.expire_key_count) (map (with_key_share share us) us)
  expire_counts =
      map-kept (λ u. u.expire_key_count)
        (with_expire_share share (map (with_key_share share us) us)) _ (λ u. refl)

  -- A published row: that of a user without a key, or one with the two shares.
  row_of-published :
      (name : Bytes)
      → ((row_of name us ≡ new_user name) × (row_of name (published share us) ≡ new_user name))
        ⊎ (row_of name (published share us) ≡ both_shares share us (row_of name us))
  row_of-published name =
      rw
        (map-twice (with_key_share share us)
          (with_expire_share share (map (with_key_share share us) us)) us)
        (row_of-map name (both_shares share us) us (λ u. refl))

  overhead_of-published :
      (u : UserOverhead)
      → (both_shares share us u).overhead
        ≡ (u.overhead
            + key_share share (published share us) (both_shares share us u)
            + expire_share share (published share us) (both_shares share us u))
          % 2 ^ 64
  overhead_of-published u = rw (key_counts, expire_counts) (omega arith)

-- The row of a user, from the sums over the entries.
RowIs : FloatShare → Bytes → ℕ → ℕ → ℕ → Users → Type 0
RowIs share name keys expiring overhead us =
    ((row_of name us).key_count ≡ keys % 2 ^ 64)
    × ((row_of name us).expire_key_count ≡ expiring % 2 ^ 64)
    × ((row_of name us ≡ new_user name)
        ⊎ ((row_of name us).overhead
            ≡ (overhead
                + key_share share us (row_of name us)
                + expire_share share us (row_of name us))
              % 2 ^ 64))

published-RowIs :
    (share : FloatShare) (us : Users) (name : Bytes) (keys expiring overhead : ℕ)
    → (row_of name us).key_count ≡ keys % 2 ^ 64
    → (row_of name us).expire_key_count ≡ expiring % 2 ^ 64
    → (row_of name us).overhead ≡ overhead % 2 ^ 64
    → RowIs share name keys expiring overhead (published share us)
unfolding RowIs
published-RowIs share us name keys expiring overhead hk hx ho =
    elim (row_of-published share us name) [
      | inl (before, after) ↦ (
        ap (λ r. r.key_count) (after ∙ sym before) ∙ hk,
        ap (λ r. r.expire_key_count) (after ∙ sym before) ∙ hx,
        inl after,
      )
      | inr found ↦ (
        ap (λ r. r.key_count) found ∙ hk,
        ap (λ r. r.expire_key_count) found ∙ hx,
        inr (
            subst
              (λ r.
                r.overhead
                ≡ (overhead
                    + key_share share (published share us) r
                    + expire_share share (published share us) r)
                  % 2 ^ 64)
              (sym found) (overhead_of-published share us (row_of name us) ∙ below _ _ _ ho)),
      )
    ]
  where
    below : (n k x : ℕ) → n ≡ overhead % 2 ^ 64 → (n + k + x) % 2 ^ 64 ≡ (overhead + k + x) % 2 ^ 64
    below n k x e = omega (arith, e)

-- The view of a dump before its first record.
abbrev pub unread : View
unread = record { stream_db_id = pos 0; db = pos 0; sent = [] }

sum_for-unread :
    (name : Bytes) (f : Entry → ℕ)
    → Blind f
    → (clock : ℕ → ℕ) (items : List Item)
    → sum_for name f (view_items clock 0 items unread).sent ≡ items_for name f clock 0 items
sum_for-unread name f blind clock items =
    omega (arith, sum_for-view_items name f blind clock 0 items unread)

abbrev pub dump_file : ℕ → ℕ → ℕ → ℕ → List Item → Bytes → Bytes
dump_file a b c d items s = codes "REDIS" ++ (a ∷ b ∷ c ∷ d ∷ put_items items s)

-- The three sizes of the counters.
abbrev pub with_sizes : ℕ → Metrics → Metrics
with_sizes n m = record m { rdb_file_size = n; rdb_received_size = n; rdb_send_size = n }

module _ (ops : FloatOps) (clock : ℕ → ℕ) (tick : ℕ → Option Bytes)
    (clock_fits : (i : ℕ) → clock i < 2 ^ 63) (replica : (i : ℕ) → is_master (tick i) ≡ false) where
  pub start_read-put_dump :
      (a b c d : ℕ) (items : List Item) (s : Bytes) (m : Metrics)
      → All IsDigit (a ∷ b ∷ c ∷ d ∷ [])
      → All (ItemFits ops) items
      → start_read ops (world_of clock tick) (dump_file a b c d items s) m
        ≡ ok (
          with_sizes (length (dump_file a b c d items s)) m,
          (view_items clock 0 items unread).sent,
        )
  unfolding start_read
  start_read-put_dump a b c d items s m digits h =
      rw (parse_rdb-put_dump ops clock tick clock_fits replica a b c d items unread s digits h) refl

  -- The analysis from end to end. Of a dump with a four-digit version, over records that fit, read
  -- on a replica at a clock within 63 bits, after a dump that has ended well, `ExecuteStatistic`
  -- returns: the three sizes of the counters are that of the file, and in the table that it
  -- publishes every user has the number of its keys in the dump and the number of those that
  -- expire, and, unless it has no key, the sum of their estimates and its shares of the two rehash
  -- overheads, each modulo 2 ^ 64.
  pub execute_statistic-put_dump :
      (share : FloatShare) (a b c d : ℕ) (items : List Item) (s : Bytes) (info : Option Bytes)
      (started : Bool) (replies : List (Option Bytes)) (old : Users) (m : Metrics)
      → All IsDigit (a ∷ b ∷ c ∷ d ∷ [])
      → All (ItemFits ops) items
      → dump_rdb info started replies ≡ dumped
      → (us : Users) × (execute_statistic ops share
            (world_of clock tick)
            info
            started
            replies
            (dump_file a b c d items s)
            old
            m
          ≡ ok (with_sizes (length (dump_file a b c d items s)) m, us, dumped))
        × ((name : Bytes)
            → ((row_of name us).key_count ≡ items_for name one_key clock 0 items % 2 ^ 64)
              × ((row_of name us).expire_key_count
                  ≡ items_for name one_expiring clock 0 items % 2 ^ 64)
              × ((row_of name us ≡ new_user name)
                  ⊎ ((row_of name us).overhead
                      ≡ (items_for name overhead_of clock 0 items
                          + key_share share us (row_of name us)
                          + expire_share share us (row_of name us))
                        % 2 ^ 64)))
  unfolding execute_statistic key_rehash_overhead expire_key_rehash_overhead RowIs
  execute_statistic-put_dump share a b c d items s info started replies old m digits h ended =
      let es : List Entry = (view_items clock 0 items unread).sent in
      (
        published share (add_entries es []),
        rw (start_read-put_dump a b c d items s m digits h, ended) refl,
        λ name.
            let sums = add_entries-sum_for name es in
            published-RowIs share (add_entries es []) name _ _ _
              (sums.0
                ∙ ap (λ n. n % 2 ^ 64)
                    (sum_for-unread name one_key (λ db now x key v. refl) clock items))
              (sums.1
                ∙ ap (λ n. n % 2 ^ 64)
                    (sum_for-unread name one_expiring (λ db now x key v. refl) clock items))
              (sums.2
                ∙ ap (λ n. n % 2 ^ 64)
                    (sum_for-unread name overhead_of (λ db now x key v. refl) clock items)),
      )
