-- ===== src/Cleaner/Batches.antt =====
-- What `Clean` sends with `UNLINK`, and how large its groups grow.
use redis_agent.Common.{
  ℕ, ◌<◌, ◌≤◌, ◌==◌, ==_iff, leb, Bool, true, false, Bool-cases, if◌then◌else◌, Bytes, List, [],
  ◌∷◌, ◌++◌, length, length-append, ◌≡◌, ◌≢◌, refl, inl, inr, arith, All, All-append,
}
use mathlib.Core.Path.{subst}
use redis_agent.Slot.{slot}
use redis_agent.Cleaner.{
  Scanned, ScanReply, scan_failed, page, Groups, group_of, set_group, Cleaning, Outcome, scanning,
  cleaned, scan_error, unlink_error, final_unlink_error, add_key, and_then, add_keys, unlink_groups,
  finish, clean, with_cursor,
}

-- A key that is not empty: those of `SCAN` with a `MATCH` on a prefix.
abbrev pub IsNamed : Scanned → Type 0
IsNamed k = k.key ≢ []

abbrev pub IsNamedPage : ScanReply → Type 0
IsNamedPage scan_failed = Unit
IsNamedPage (page keys cursor) = All IsNamed keys

-- A key of the slot s.
abbrev pub InSlot : ℕ → Bytes → Type 0
InSlot s key = slot 0 key ≡ s

-- What a batch must be for `UNLINK` on a cluster.
pub record IsBatch (keys : List Bytes) : Type 0 where
  pub some_key : 0 < length keys
  pub bounded : length keys ≤ 1500
  pub batch_slot : ℕ
  pub one_slot : All (InSlot batch_slot) keys

-- A group between two keys: below the bound, with keys of its slot.
abbrev pub IsGroup : ℕ × List Bytes → Type 0
IsGroup (s, keys) = (length keys < 1500) × All (InSlot s) keys

pub record IsClean (c : Cleaning) : Type 0 where
  pub small_groups : All IsGroup c.groups
  pub batches : All IsBatch c.unlinked

-- `range` over a map gives each of its pairs.
pub record Visits (order : Groups → Groups) : Type 1 where
  pub keeps_all : (P : ℕ × List Bytes → Type 0) (gs : Groups) → All P gs → All P (order gs)

slot_named : (key : Bytes) (drawn : ℕ) → key ≢ [] → InSlot (slot drawn key) key
unfolding slot
slot_named [] drawn h = absurd (h refl)
slot_named (b ∷ key) drawn h = refl

group_of-IsGroup : (s : ℕ) (gs : Groups) → All IsGroup gs → IsGroup (s, group_of s gs)
unfolding group_of
group_of-IsGroup s [] h = (omega arith, tt)
group_of-IsGroup s ((t, keys) ∷ gs) (h, hs) = elim (Bool-cases (t == s)) [
  | inl e ↦ rw e (subst (λ u. IsGroup (u, keys)) ((==_iff t s).0 e) h)
  | inr e ↦ rw e (group_of-IsGroup s gs hs)
]

set_group-IsGroup :
    (s : ℕ) (keys : List Bytes) (gs : Groups)
    → IsGroup (s, keys)
    → All IsGroup gs
    → All IsGroup (set_group s keys gs)
unfolding set_group
set_group-IsGroup s keys [] g hs = (g, tt)
set_group-IsGroup s keys ((t, old) ∷ gs) g (h, hs) = elim (Bool-cases (t == s)) [
  | inl e ↦ rw e (g, hs)
  | inr e ↦ rw e (h, set_group-IsGroup s keys gs g hs)
]

-- What holds after a part of `Clean`: the groups are small as long as it goes on.
abbrev pub After : Cleaning × Outcome → Type 0
After (c, scanning) = IsClean c
After (c, _) = All IsBatch c.unlinked

if-After :
    (b : Bool) (x y : Cleaning × Outcome)
    → (b ≡ true → After x)
    → (b ≡ false → After y)
    → After (if b then x else y)
if-After true x y hx hy = hx refl
if-After false x y hx hy = hy refl

and_then-After :
    (r : Cleaning × Outcome) (next : Cleaning → Cleaning × Outcome)
    → After r
    → ((c : Cleaning) → IsClean c → After (next c))
    → After (and_then r next)
and_then-After (c, scanning) next h k = k c h
and_then-After (c, cleaned) next h k = h
and_then-After (c, scan_error) next h k = h
and_then-After (c, unlink_error) next h k = h
and_then-After (c, final_unlink_error) next h k = h

add_key-After :
    (fails : ℕ → Bool) (k : Scanned) (c : Cleaning)
    → IsNamed k
    → IsClean c
    → After (add_key fails k c)
unfolding add_key
add_key-After fails k c named h =
    let s = slot k.drawn k.key in
    let keys = group_of s c.groups ++ (k.key ∷ []) in
    let (few, same) = group_of-IsGroup s c.groups h.small_groups in
    let all_same : All (InSlot s) keys =
      All-append (InSlot s) (group_of s c.groups) (k.key ∷ []) same
        (slot_named k.key k.drawn named, tt) in
    let size = length-append (group_of s c.groups) (k.key ∷ []) in
    if-After (leb 1500 (length keys)) _ _
      (λ full.
        if-After (fails (length c.unlinked)) _ _ (λ _. h.batches)
          (λ _. record {
            small_groups = set_group-IsGroup s [] c.groups (omega arith, tt) h.small_groups;
            batches = All-append IsBatch c.unlinked (keys ∷ []) h.batches (
              record {
                some_key = omega arith;
                bounded = omega arith;
                batch_slot = s;
                one_slot = all_same;
              },
              tt,
            );
          }))
      (λ full. record {
        small_groups = set_group-IsGroup s keys c.groups (ground arith, all_same) h.small_groups;
        batches = h.batches;
      })

add_keys-After :
    (fails : ℕ → Bool) (ks : List Scanned) (c : Cleaning)
    → All IsNamed ks
    → IsClean c
    → After (add_keys fails ks c)
unfolding add_keys
add_keys-After fails [] c hs h = h
add_keys-After fails (k ∷ ks) c (hk, hs) h =
    and_then-After (add_key fails k c) (add_keys fails ks) (add_key-After fails k c hk h)
      (λ c'. add_keys-After fails ks c' hs)

unlink_groups-After :
    (fails : ℕ → Bool) (gs : Groups) (c : Cleaning)
    → All IsGroup gs
    → All IsBatch c.unlinked
    → After (unlink_groups fails gs c)
unfolding unlink_groups
unlink_groups-After fails [] c hs h = h
unlink_groups-After fails ((s, []) ∷ gs) c (_, hs) h = unlink_groups-After fails gs c hs h
unlink_groups-After fails ((s, k ∷ keys) ∷ gs) c ((few, same), hs) h =
    if-After (fails (length c.unlinked)) _ _ (λ _. h)
      (λ _. unlink_groups-After fails gs _ hs (
        All-append IsBatch c.unlinked ((k ∷ keys) ∷ []) h (
          record { some_key = omega arith; bounded = omega arith; batch_slot = s; one_slot = same },
          tt,
        )))

with_cursor-IsClean : (cursor : ℕ) (c : Cleaning) → IsClean c → IsClean (with_cursor cursor c)
with_cursor-IsClean cursor c h = record { small_groups = h.small_groups; batches = h.batches }

-- Where every scanned key has a name and Go visits each group of the map, then at every moment,
-- whatever fails: each batch that an `UNLINK` has removed has a key, no more than 1500 of them, and
-- all in one cluster slot; and while the scan goes on each group stays below 1500 keys, all of the group's
-- slot.
pub clean-After :
    (fails : ℕ → Bool) (order : Groups → Groups) (replies : List ScanReply) (c : Cleaning)
    → Visits order
    → All IsNamedPage replies
    → IsClean c
    → After (clean fails order replies c)
unfolding clean finish
clean-After fails order [] c visits hs h = h
clean-After fails order (scan_failed ∷ replies) c visits hs h = h.batches
clean-After fails order (page keys cursor ∷ replies) c visits (hk, hs) h =
    and_then-After (add_keys fails keys c) _ (add_keys-After fails keys c hk h) (λ c' h'.
      let h'' = with_cursor-IsClean cursor c' h' in
      if-After (cursor == 0) _ _
        (λ _.
          unlink_groups-After fails (order c'.groups) (with_cursor cursor c')
            (visits.keeps_all IsGroup c'.groups h'.small_groups) h'.batches)
        (λ _. clean-After fails order replies (with_cursor cursor c') visits hs h''))
