-- ===== src/Cleaner.antt =====
-- internal/cleaner/cleaner.go: the keys of a user are scanned, grouped by slot and unlinked in
-- batches. The server's replies are arguments.
pub mod Batches
pub mod Counts
use redis_agent.Common.{
  ℕ, zero, suc, ◌+◌, ◌-◌, ◌==◌, leb, Bool, if◌then◌else◌, Bytes, List, [], ◌∷◌, ◌++◌, length,
}
use redis_agent.Slot.{slot}

abbrev pub batch_count : ℕ
batch_count = 2000

abbrev pub batch_float : ℕ
batch_float = 500

-- A key of a reply to `SCAN`; `drawn` is what `RandomSlot` draws should it be empty.
pub record Scanned : Type 0 where
  pub key : Bytes
  pub drawn : ℕ

pub data ScanReply : Type 0 where
  scan_failed : ScanReply
  page : List Scanned → ℕ → ScanReply

-- `keyGroupBySlot`: one pair for each slot that has been met.
abbrev pub Groups : Type 0
Groups = List (ℕ × List Bytes)

-- The keys of a slot; none where the map has no such slot, for which the code puts an empty slice.
unfoldable pub group_of : ℕ → Groups → List Bytes
group_of s [] = []
group_of s ((t, keys) ∷ gs) = if t == s then keys else group_of s gs

unfoldable pub set_group : ℕ → List Bytes → Groups → Groups
set_group s keys [] = (s, keys) ∷ []
set_group s keys ((t, old) ∷ gs) =
    let rest = set_group s keys gs in if t == s then (s, keys) ∷ gs else (t, old) ∷ rest

-- The batches that the server has unlinked, in order, and the cursor kept in the task's parameter.
pub record Cleaning : Type 0 where
  pub groups : Groups
  pub unlinked : List (List Bytes)
  pub cursor : ℕ

abbrev pub start_at : ℕ → Cleaning
start_at cursor = record { groups = []; unlinked = []; cursor = cursor }

-- How `Clean` ends; `scanning` stands for a loop that goes on with a reply not given here.
pub data Outcome : Type 0 where
  cleaned scanning scan_error unlink_error final_unlink_error : Outcome

abbrev pub with_group : ℕ → List Bytes → Cleaning → Cleaning
with_group s keys c = record {
  groups = set_group s keys c.groups;
  unlinked = c.unlinked;
  cursor = c.cursor;
}

abbrev pub with_cursor : ℕ → Cleaning → Cleaning
with_cursor cursor c = record { groups = c.groups; unlinked = c.unlinked; cursor = cursor }

-- A batch has been unlinked, and its group is emptied.
abbrev pub flushed : ℕ → List Bytes → Cleaning → Cleaning
flushed s keys c = record {
  groups = set_group s [] c.groups;
  unlinked = c.unlinked ++ (keys ∷ []);
  cursor = c.cursor;
}

-- A batch that the last loop has unlinked.
abbrev pub sent : List Bytes → Cleaning → Cleaning
sent keys c = record { groups = c.groups; unlinked = c.unlinked ++ (keys ∷ []); cursor = c.cursor }

-- `fails n` says that the call of `UNLINK` after n that succeeded gives an error.
unfoldable pub add_key : (ℕ → Bool) → Scanned → Cleaning → Cleaning × Outcome
add_key fails k c =
    let s = slot k.drawn k.key in
    let keys = group_of s c.groups ++ (k.key ∷ []) in
    if leb (batch_count - batch_float) (length keys)
    then (if fails (length c.unlinked)
        then (with_group s keys c, unlink_error)
        else (flushed s keys c, scanning))
    else (with_group s keys c, scanning)

-- `return err` leaves the loop.
abbrev pub and_then : Cleaning × Outcome → (Cleaning → Cleaning × Outcome) → Cleaning × Outcome
and_then (c, scanning) next = next c
and_then (c, o) next = (c, o)

unfoldable pub add_keys : (ℕ → Bool) → List Scanned → Cleaning → Cleaning × Outcome
add_keys fails [] c = (c, scanning)
add_keys fails (k ∷ ks) c = and_then (add_key fails k c) (add_keys fails ks)

-- The last loop, over the groups in the order in which Go visits the map.
unfoldable pub unlink_groups : (ℕ → Bool) → Groups → Cleaning → Cleaning × Outcome
unlink_groups fails [] c = (c, cleaned)
unlink_groups fails ((s, []) ∷ gs) c = unlink_groups fails gs c
unlink_groups fails ((s, k ∷ keys) ∷ gs) c =
    let rest = unlink_groups fails gs (sent (k ∷ keys) c) in
    if fails (length c.unlinked) then (c, final_unlink_error) else rest

-- The order is that of `range` over the map.
unfoldable pub finish : (ℕ → Bool) → (Groups → Groups) → Cleaning → Cleaning × Outcome
finish fails order c = unlink_groups fails (order c.groups) c

-- `Clean` on the replies to `SCAN`.
unfoldable pub clean :
    (ℕ → Bool) → (Groups → Groups) → List ScanReply → Cleaning → Cleaning × Outcome
clean fails order [] c = (c, scanning)
clean fails order (scan_failed ∷ replies) c = (c, scan_error)
clean fails order (page keys cursor ∷ replies) c = and_then (add_keys fails keys c) (λ c'.
    let rest = clean fails order replies (with_cursor cursor c') in
    if cursor == 0 then finish fails order (with_cursor cursor c') else rest)
