-- ===== src/Analysis.antt =====
-- internal/memanalysis/memstatistics.go: the keys and the overhead of each user. The floats of Go
-- and the replies of the server are arguments. The map from users is a list with one element for
-- each user.
pub mod Owner
pub mod Sums
pub mod Dump
use redis_agent.Common.{
  ℕ, zero, suc, ◌+◌, ◌%◌, ◌^◌, ◌==◌, ◌||◌, ltb, not, Bool, true, false, if◌then◌else◌, Bytes, List,
  [], ◌∷◌, length, map, codes, same_bytes, Option, none, some,
}
use redis_agent.Info.{split_byte, parse_info_prop}
use redis_agent.Loader.{Entry}
use redis_agent.Memory.{field_bucket_overhead}
use redis_agent.Objects.{sum64}

-- Without the date of the analysis.
pub record UserOverhead : Type 0 where
  pub user_name : Bytes
  pub key_count : ℕ
  pub expire_key_count : ℕ
  pub overhead : ℕ

abbrev pub Users : Type 0
Users = List UserOverhead

-- `float64(n)`, `/`, `*` and `uint64(x)`.
pub record FloatShare : Type 1 where
  pub Float : Type 0
  pub of_uint : ℕ → Float
  pub div : Float → Float → Float
  pub mul : Float → Float → Float
  pub to_uint : Float → ℕ

unfoldable pub contains : ℕ → Bytes → Bool
contains c [] = false
contains c (b ∷ s) = b == c || contains c s

abbrev pub first_part : List Bytes → Bytes
first_part [] = []
first_part (part ∷ parts) = part

-- The condition under which the loop passes over a key.
unfoldable pub is_skipped : Bytes → Bool
is_skipped key = length key == 0 || (not (contains 58 key) || ltb (length (split_byte 58 key)) 2)

abbrev pub user_of : Bytes → Bytes
user_of key = first_part (split_byte 58 key)

abbrev pub new_user : Bytes → UserOverhead
new_user name = record { user_name = name; key_count = 0; expire_key_count = 0; overhead = 0 }

abbrev pub charge : Entry → UserOverhead → UserOverhead
charge e u = record {
  user_name = u.user_name;
  key_count = (u.key_count + 1) % 2 ^ 64;
  expire_key_count =
      if e.is_expire_key then (u.expire_key_count + 1) % 2 ^ 64 else u.expire_key_count;
  overhead = (u.overhead + e.overhead) % 2 ^ 64;
}

unfoldable pub charge_user : Bytes → Entry → Users → Users
charge_user name e [] = charge e (new_user name) ∷ []
charge_user name e (u ∷ us) =
    let rest = charge_user name e us in
    if same_bytes u.user_name name then charge e u ∷ us else u ∷ rest

unfoldable pub add_entry : Entry → Users → Users
add_entry e us = if is_skipped e.key then us else charge_user (user_of e.key) e us

-- `for entry := range ch`
unfoldable pub add_entries : List Entry → Users → Users
add_entries [] us = us
add_entries (e ∷ es) us = add_entries es (add_entry e us)

-- The part of `all` that a user with `count` of `total` keys bears.
unfoldable pub share_of : FloatShare → ℕ → ℕ → ℕ → ℕ
share_of ops all count total =
    ops.to_uint (ops.mul (ops.of_uint all) (ops.div (ops.of_uint count) (ops.of_uint total)))

abbrev pub with_more : ℕ → UserOverhead → UserOverhead
with_more more u = record {
  user_name = u.user_name;
  key_count = u.key_count;
  expire_key_count = u.expire_key_count;
  overhead = (u.overhead + more) % 2 ^ 64;
}

unfoldable pub key_rehash_overhead : FloatShare → Users → Users
key_rehash_overhead ops us =
    let total = sum64 (map (λ u. u.key_count) us) in
    map (λ u. with_more (share_of ops (field_bucket_overhead total) u.key_count total) u) us

unfoldable pub expire_key_rehash_overhead : FloatShare → Users → Users
expire_key_rehash_overhead ops us =
    let total = sum64 (map (λ u. u.expire_key_count) us) in
    map (λ u. with_more (share_of ops (field_bucket_overhead total) u.expire_key_count total) u) us

-- How `dumpRdb` ends: `waiting` stands for a poll whose reply is not given here.
pub data DumpEnd : Type 0 where
  dumped waiting : DumpEnd
  replication_failed is_master bgsave_failed persistence_failed status_not_ok : DumpEnd

unfoldable pub check_status : Bytes → DumpEnd
check_status info =
    if same_bytes (parse_info_prop info (codes "rdb_last_bgsave_status")) (codes "ok")
    then dumped
    else status_not_ok

-- The replies to `INFO Persistence`, none for an error.
unfoldable pub await_bgsave : List (Option Bytes) → DumpEnd
await_bgsave [] = waiting
await_bgsave (none ∷ replies) = persistence_failed
await_bgsave (some info ∷ replies) =
    let rest = await_bgsave replies in
    if same_bytes (parse_info_prop info (codes "rdb_bgsave_in_progress")) (codes "0")
    then check_status info
    else rest

unfoldable pub dump_rdb : Option Bytes → Bool → List (Option Bytes) → DumpEnd
dump_rdb none started replies = replication_failed
dump_rdb (some info) started replies =
    if same_bytes (parse_info_prop info (codes "role")) (codes "master")
    then is_master
    else if started
    then await_bgsave replies
    else bgsave_failed

-- `Statistic`: the table of the users after it and how the dump ended; an error leaves the table.
abbrev pub statistic_after : FloatShare → DumpEnd → List Entry → Users → Users × DumpEnd
statistic_after ops dumped es old =
    (expire_key_rehash_overhead ops (key_rehash_overhead ops (add_entries es [])), dumped)
statistic_after ops ended es old = (old, ended)

unfoldable pub statistic :
    FloatShare → Option Bytes → Bool → List (Option Bytes) → List Entry → Users → Users × DumpEnd
statistic ops info started replies es old =
    statistic_after ops (dump_rdb info started replies) es old
