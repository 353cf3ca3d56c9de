-- ===== src/Cleaner/Counts.antt =====
-- Every key that `Clean` has scanned is unlinked, as often as it was scanned.
use redis_agent.Common.{
  ℕ, zero, suc, ◌+◌, ◌==◌, leb, Bool, true, false, Bool-cases, if◌then◌else◌, Bytes, List, [], ◌∷◌,
  ◌++◌, length, same_bytes, ◌≡◌, refl, inl, inr, arith,
}
use mathlib.Core.Path.{subst}
use redis_agent.Slot.{slot}
use redis_agent.Cleaner.{
  Scanned, ScanReply, scan_failed, page, Groups, group_of, set_group, Cleaning, start_at, Outcome,
  scanning, cleaned, scan_error, unlink_error, final_unlink_error, add_key, and_then, add_keys,
  unlink_groups, finish, clean, with_cursor, sent,
}

abbrev pub one_if : Bool → ℕ
one_if true = 1
one_if false = 0

-- How often a key stands in a list, in batches, in the groups.
abbrev pub count : Bytes → List Bytes → ℕ
count x [] = 0
count x (y ∷ ys) = one_if (same_bytes y x) + count x ys

abbrev pub count_batches : Bytes → List (List Bytes) → ℕ
count_batches x [] = 0
count_batches x (ys ∷ yss) = count x ys + count_batches x yss

abbrev pub count_groups : Bytes → Groups → ℕ
count_groups x [] = 0
count_groups x ((s, ys) ∷ gs) = count x ys + count_groups x gs

abbrev pub count_scanned : Bytes → List Scanned → ℕ
count_scanned x [] = 0
count_scanned x (k ∷ ks) = one_if (same_bytes k.key x) + count_scanned x ks

-- The keys of the pages up to the one that gives the cursor 0.
abbrev pub count_replies : Bytes → List ScanReply → ℕ
count_replies x [] = 0
count_replies x (scan_failed ∷ replies) = 0
count_replies x (page keys cursor ∷ replies) =
    count_scanned x keys + (if cursor == 0 then 0 else count_replies x replies)

-- `range` over a map gives each of its pairs once.
pub record VisitsOnce (order : Groups → Groups) : Type 0 where
  pub keeps_counts : (x : Bytes) (gs : Groups) → count_groups x (order gs) ≡ count_groups x gs

count-append : (x : Bytes) (ys zs : List Bytes) → count x (ys ++ zs) ≡ count x ys + count x zs
count-append x [] zs = omega arith
count-append x (y ∷ ys) zs = omega (arith, count-append x ys zs)

count_batches-append :
    (x : Bytes) (yss : List (List Bytes)) (zs : List Bytes)
    → count_batches x (yss ++ (zs ∷ [])) ≡ count_batches x yss + count x zs
count_batches-append x [] zs = omega arith
count_batches-append x (ys ∷ yss) zs = omega (arith, count_batches-append x yss zs)

count_groups-set_group :
    (x : Bytes) (s : ℕ) (keys : List Bytes) (gs : Groups)
    → count_groups x (set_group s keys gs) + count x (group_of s gs)
      ≡ count_groups x gs + count x keys
unfolding set_group group_of
count_groups-set_group x s keys [] = omega arith
count_groups-set_group x s keys ((t, old) ∷ gs) = elim (Bool-cases (t == s)) [
  | inl e ↦ rw e (omega arith)
  | inr e ↦ let rec = count_groups-set_group x s keys gs in rw e (omega arith)
]

-- The keys that have been unlinked and those that wait.
abbrev total : Bytes → Cleaning → ℕ
total x c = count_batches x c.unlinked + count_groups x c.groups

-- The total after a part of `Clean` that has not failed.
abbrev Holds : Bytes → ℕ → Cleaning × Outcome → Type 0
Holds x n (c, scanning) = total x c ≡ n
Holds x n (c, cleaned) = count_batches x c.unlinked ≡ n
Holds x n (c, _) = Unit

if-Holds :
    (x : Bytes) (n : ℕ) (b : Bool) (r r' : Cleaning × Outcome)
    → (b ≡ true → Holds x n r)
    → (b ≡ false → Holds x n r')
    → Holds x n (if b then r else r')
if-Holds x n true r r' h h' = h refl
if-Holds x n false r r' h h' = h' refl

module _ (x : Bytes) (fails : ℕ → Bool) where
  add_key-Holds :
      (k : Scanned) (c : Cleaning)
      → Holds x (total x c + one_if (same_bytes k.key x)) (add_key fails k c)
  unfolding add_key
  add_key-Holds k c =
      let s = slot k.drawn k.key in
      let keys = group_of s c.groups ++ (k.key ∷ []) in
      let n = total x c + one_if (same_bytes k.key x) in
      let more = count-append x (group_of s c.groups) (k.key ∷ []) in
      if-Holds x n (leb 1500 (length keys)) _ _
        (λ _.
          if-Holds x n (fails (length c.unlinked)) _ _ (λ _. tt)
            (λ _.
              let emptied = count_groups-set_group x s [] c.groups in
              let sent = count_batches-append x c.unlinked keys in omega arith))
        (λ _. let kept = count_groups-set_group x s keys c.groups in omega arith)

  and_then-Holds :
      (n m : ℕ) (r : Cleaning × Outcome) (next : Cleaning → Cleaning × Outcome)
      → Holds x n r
      → ((c : Cleaning) → total x c ≡ n → Holds x m (next c))
      → (r.1 ≡ cleaned → ⊥)
      → Holds x m (and_then r next)
  and_then-Holds n m (c, scanning) next h k nc = k c h
  and_then-Holds n m (c, cleaned) next h k nc = absurd (nc refl)
  and_then-Holds n m (c, scan_error) next h k nc = tt
  and_then-Holds n m (c, unlink_error) next h k nc = tt
  and_then-Holds n m (c, final_unlink_error) next h k nc = tt

  if-open :
      (b : Bool) (r r' : Cleaning × Outcome)
      → (r.1 ≡ cleaned → ⊥)
      → (r'.1 ≡ cleaned → ⊥)
      → (if b then r else r').1 ≡ cleaned
      → ⊥
  if-open true r r' h h' = h
  if-open false r r' h h' = h'

  add_key_open : (k : Scanned) (c : Cleaning) → (add_key fails k c).1 ≡ cleaned → ⊥
  unfolding add_key
  add_key_open k c =
      let s = slot k.drawn k.key in
      let keys = group_of s c.groups ++ (k.key ∷ []) in
      if-open (leb 1500 (length keys)) _ _
        (if-open (fails (length c.unlinked)) _ _ (λ e. cc) (λ e. cc)) (λ e. cc)

  and_then_open :
      (r : Cleaning × Outcome) (next : Cleaning → Cleaning × Outcome)
      → (r.1 ≡ cleaned → ⊥)
      → ((c : Cleaning) → (next c).1 ≡ cleaned → ⊥)
      → (and_then r next).1 ≡ cleaned
      → ⊥
  and_then_open (c, scanning) next h k = k c
  and_then_open (c, cleaned) next h k = h
  and_then_open (c, scan_error) next h k = h
  and_then_open (c, unlink_error) next h k = h
  and_then_open (c, final_unlink_error) next h k = h

  add_keys_open : (ks : List Scanned) (c : Cleaning) → (add_keys fails ks c).1 ≡ cleaned → ⊥
  unfolding add_keys
  add_keys_open [] c = λ e. cc
  add_keys_open (k ∷ ks) c =
      and_then_open (add_key fails k c) (add_keys fails ks) (add_key_open k c) (add_keys_open ks)

  add_keys-Holds :
      (ks : List Scanned) (c : Cleaning)
      → Holds x (total x c + count_scanned x ks) (add_keys fails ks c)
  unfolding add_keys
  add_keys-Holds [] c = omega arith
  add_keys-Holds (k ∷ ks) c =
      and_then-Holds (total x c + one_if (same_bytes k.key x)) _ (add_key fails k c)
        (add_keys fails ks) (add_key-Holds k c)
        (λ c' e. subst (λ n. Holds x n (add_keys fails ks c')) (omega arith) (add_keys-Holds ks c'))
        (add_key_open k c)

  unlink_groups-Holds :
      (gs : Groups) (c : Cleaning)
      → Holds x (count_batches x c.unlinked + count_groups x gs) (unlink_groups fails gs c)
  unfolding unlink_groups
  unlink_groups-Holds [] c = omega arith
  unlink_groups-Holds ((s, []) ∷ gs) c =
      subst (λ n. Holds x n (unlink_groups fails gs c)) (omega arith) (unlink_groups-Holds gs c)
  unlink_groups-Holds ((s, k ∷ keys) ∷ gs) c =
      if-Holds x _ (fails (length c.unlinked)) _ _ (λ _. tt)
        (λ _.
          let more = count_batches-append x c.unlinked (k ∷ keys) in
          subst (λ n. Holds x n (unlink_groups fails gs (sent (k ∷ keys) c))) (omega arith)
            (unlink_groups-Holds gs (sent (k ∷ keys) c)))

  clean-Holds :
      (order : Groups → Groups) (replies : List ScanReply) (c : Cleaning)
      → VisitsOnce order
      → Holds x (total x c + count_replies x replies) (clean fails order replies c)
  unfolding clean finish
  clean-Holds order [] c once = omega arith
  clean-Holds order (scan_failed ∷ replies) c once = tt
  clean-Holds order (page keys cursor ∷ replies) c once =
      and_then-Holds (total x c + count_scanned x keys) _ (add_keys fails keys c) _
        (add_keys-Holds keys c)
        (λ c' e.
          if-Holds x _ (cursor == 0) _ _
            (λ z.
              let visit = once.keeps_counts x c'.groups in
              subst (λ n. Holds x n (unlink_groups fails (order c'.groups) (with_cursor cursor c')))
                (rw z (omega arith))
                (unlink_groups-Holds (order c'.groups) (with_cursor cursor c')))
            (λ z.
              subst (λ n. Holds x n (clean fails order replies (with_cursor cursor c')))
                (rw z (omega arith)) (clean-Holds order replies (with_cursor cursor c') once)))
        (add_keys_open keys c)

  count_batches-Holds :
      (n : ℕ) (r : Cleaning × Outcome)
      → Holds x n r
      → r.1 ≡ cleaned
      → count_batches x r.0.unlinked ≡ n
  count_batches-Holds n (c, cleaned) h e = h
  count_batches-Holds n (c, scanning) h e = absurd (cc)
  count_batches-Holds n (c, scan_error) h e = absurd (cc)
  count_batches-Holds n (c, unlink_error) h e = absurd (cc)
  count_batches-Holds n (c, final_unlink_error) h e = absurd (cc)

-- Where Go visits each group of the map once and `Clean` ends without an error, every key stands in
-- the batches that were unlinked exactly as often as in the pages of the scan, up to the first page
-- with the cursor 0.
pub count_batches-clean :
    (fails : ℕ → Bool) (order : Groups → Groups) (replies : List ScanReply) (cursor : ℕ) (x : Bytes)
    → VisitsOnce order
    → (clean fails order replies (start_at cursor)).1 ≡ cleaned
    → count_batches x (clean fails order replies (start_at cursor)).0.unlinked
      ≡ count_replies x replies
count_batches-clean fails order replies cursor x once e =
    count_batches-Holds x fails (count_replies x replies)
      (clean fails order replies (start_at cursor))
      (subst (λ n. Holds x n (clean fails order replies (start_at cursor))) (omega arith)
        (clean-Holds x fails order replies (start_at cursor) once))
      e

-- A scan whose pages come to the cursor 0.
abbrev pub Completes : List ScanReply → Type 0
Completes [] = ⊥
Completes (scan_failed ∷ replies) = ⊥
Completes (page keys zero ∷ replies) = Unit
Completes (page keys (suc cursor) ∷ replies) = Completes replies

module _ (fails : ℕ → Bool) (never : (n : ℕ) → fails n ≡ false) where
  add_key_goes_on : (k : Scanned) (c : Cleaning) → (add_key fails k c).1 ≡ scanning
  unfolding add_key
  add_key_goes_on k c =
      let s = slot k.drawn k.key in
      let keys = group_of s c.groups ++ (k.key ∷ []) in
      elim (Bool-cases (leb 1500 (length keys))) [
        | inl e ↦ rw (e, never (length c.unlinked)) refl
        | inr e ↦ rw e refl
      ]

  and_then_goes_on :
      (r : Cleaning × Outcome) (next : Cleaning → Cleaning × Outcome) (o : Outcome)
      → r.1 ≡ scanning
      → ((c : Cleaning) → (next c).1 ≡ o)
      → (and_then r next).1 ≡ o
  and_then_goes_on (c, scanning) next o e h = h c
  and_then_goes_on (c, cleaned) next o e h = absurd (cc)
  and_then_goes_on (c, scan_error) next o e h = absurd (cc)
  and_then_goes_on (c, unlink_error) next o e h = absurd (cc)
  and_then_goes_on (c, final_unlink_error) next o e h = absurd (cc)

  add_keys_go_on : (ks : List Scanned) (c : Cleaning) → (add_keys fails ks c).1 ≡ scanning
  unfolding add_keys
  add_keys_go_on [] c = refl
  add_keys_go_on (k ∷ ks) c =
      and_then_goes_on (add_key fails k c) (add_keys fails ks) scanning (add_key_goes_on k c)
        (add_keys_go_on ks)

  unlink_groups_ends : (gs : Groups) (c : Cleaning) → (unlink_groups fails gs c).1 ≡ cleaned
  unfolding unlink_groups
  unlink_groups_ends [] c = refl
  unlink_groups_ends ((s, []) ∷ gs) c = unlink_groups_ends gs c
  unlink_groups_ends ((s, k ∷ keys) ∷ gs) c =
      rw (never (length c.unlinked)) (unlink_groups_ends gs (sent (k ∷ keys) c))

  if-ends :
      (b : Bool) (r r' : Cleaning × Outcome)
      → b ≡ false
      → r'.1 ≡ cleaned
      → (if b then r else r').1 ≡ cleaned
  if-ends true r r' e h = absurd (cc)
  if-ends false r r' e h = h

  -- Where no call of `UNLINK` fails and the pages of the scan come to the cursor 0, `Clean` ends
  -- without an error.
  pub clean_ends :
      (order : Groups → Groups) (replies : List ScanReply) (c : Cleaning)
      → Completes replies
      → (clean fails order replies c).1 ≡ cleaned
  unfolding clean finish
  clean_ends order [] c h = absurd h
  clean_ends order (scan_failed ∷ replies) c h = absurd h
  clean_ends order (page keys zero ∷ replies) c h =
      and_then_goes_on (add_keys fails keys c) _ cleaned (add_keys_go_on keys c)
        (λ c'. unlink_groups_ends (order c'.groups) (with_cursor 0 c'))
  clean_ends order (page keys (suc cursor) ∷ replies) c h =
      and_then_goes_on (add_keys fails keys c) _ cleaned (add_keys_go_on keys c) (λ c'.
        if-ends (suc cursor == 0) _ _ (ground arith)
          (clean_ends order replies (with_cursor (suc cursor) c') h))
