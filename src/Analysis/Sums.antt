-- ===== src/Analysis/Sums.antt =====
-- What the table of the users holds for each user.
use redis_agent.Common.{
  ℕ, ◌+◌, ◌%◌, ◌^◌, ◌<◌, Bool, true, false, Bool-cases, if◌then◌else◌, Bytes, List, [], ◌∷◌,
  same_bytes, same_bytes→eq, same_bytes_refl, ◌≡◌, refl, ap, sym, ◌∙◌, inl, inr, arith,
}
use mathlib.Core.Path.{subst}
use redis_agent.Loader.{Entry}
use redis_agent.Analysis.Owner.{owner, is_owner, counted-is_owner}
use redis_agent.Analysis.{
  UserOverhead, Users, is_skipped, user_of, new_user, charge, charge_user, add_entry, add_entries,
}

-- The row of a user; one without keys where there is none.
abbrev pub row_of : Bytes → Users → UserOverhead
row_of name [] = new_user name
row_of name (u ∷ us) = if same_bytes u.user_name name then u else row_of name us

-- Whether an entry counts for a user.
abbrev pub counts_for : Bytes → Entry → Bool
counts_for name e = is_owner name (owner e.key)

-- The sum over the entries of a user of what each brings.
abbrev pub sum_for : Bytes → (Entry → ℕ) → List Entry → ℕ
sum_for name f [] = 0
sum_for name f (e ∷ es) = (if counts_for name e then f e else 0) + sum_for name f es

abbrev pub one_key : Entry → ℕ
one_key e = 1

abbrev pub one_expiring : Entry → ℕ
one_expiring e = if e.is_expire_key then 1 else 0

abbrev pub overhead_of : Entry → ℕ
overhead_of e = e.overhead

same_bytes_eq : (a b : Bytes) → a ≡ b → same_bytes a b ≡ true
same_bytes_eq a b e = subst (λ c. same_bytes a c ≡ true) e (same_bytes_refl a)

-- The two rows of the first user, charged or not.
charged_row :
    (b : Bool) (e : Entry) (u r : UserOverhead)
    → (if b then charge e u else r)
      ≡ (if b then charge e (if b then u else r) else (if b then u else r))
charged_row true e u r = refl
charged_row false e u r = refl

other_row :
    (b c : Bool) (e : Entry) (u r r' : UserOverhead)
    → (b ≡ true → c ≡ true → ⊥)
    → r' ≡ (if c then charge e r else r)
    → (if b then u else r') ≡ (if c then charge e (if b then u else r) else (if b then u else r))
other_row true true e u r r' h k = absurd (h refl refl)
other_row true false e u r r' h k = refl
other_row false true e u r r' h k = k
other_row false false e u r r' h k = k

row_of-charge_user :
    (name n : Bytes) (e : Entry) (us : Users)
    → row_of name (charge_user n e us)
      ≡ (if same_bytes n name then charge e (row_of name us) else row_of name us)
unfolding charge_user
row_of-charge_user name n e [] = elim (Bool-cases (same_bytes n name)) [
  | inl h ↦ rw h (ap (λ m. charge e (new_user m)) (same_bytes→eq n name h))
  | inr h ↦ rw h refl
]
row_of-charge_user name n e (u ∷ us) = elim (Bool-cases (same_bytes u.user_name n)) [
  | inl h ↦ rw h (
      subst
        (λ m.
          (if same_bytes u.user_name name then charge e u else row_of name us)
          ≡ (if same_bytes m name then charge e (row_of name (u ∷ us)) else row_of name (u ∷ us)))
        (same_bytes→eq u.user_name n h)
        (charged_row (same_bytes u.user_name name) e u (row_of name us)))
  | inr h ↦ rw h (
      other_row (same_bytes u.user_name name) (same_bytes n name) e u (row_of name us)
        (row_of name (charge_user n e us))
        (λ a b.
          let a' = same_bytes→eq u.user_name name a in
          let b' = same_bytes→eq n name b in
          let c = same_bytes_eq u.user_name n (a' ∙ sym b') in absurd (cc))
        (row_of-charge_user name n e us))
]

row_of-added :
    (name : Bytes) (e : Entry) (us : Users)
    → row_of name (add_entry e us) ≡ (
        if (if is_skipped e.key then false else same_bytes (user_of e.key) name)
        then charge e (row_of name us)
        else row_of name us)
unfolding add_entry
row_of-added name e us = elim (Bool-cases (is_skipped e.key)) [
  | inl h ↦ rw h refl
  | inr h ↦ rw h (row_of-charge_user name (user_of e.key) e us)
]

row_of-add_entry :
    (name : Bytes) (e : Entry) (us : Users)
    → row_of name (add_entry e us)
      ≡ (if counts_for name e then charge e (row_of name us) else row_of name us)
row_of-add_entry name e us =
    row_of-added name e us
    ∙ ap (λ b. if b then charge e (row_of name us) else row_of name us)
        (counted-is_owner name e.key)

record RowFits (u : UserOverhead) : Type 0 where
  keys_fit : u.key_count < 2 ^ 64
  expiring_fit : u.expire_key_count < 2 ^ 64
  overhead_fits : u.overhead < 2 ^ 64

-- The second row has what the first one has, and the sums.
record Summed (name : Bytes) (es : List Entry) (u v : UserOverhead) : Type 0 where
  keys : v.key_count ≡ (u.key_count + sum_for name one_key es) % 2 ^ 64
  expiring : v.expire_key_count ≡ (u.expire_key_count + sum_for name one_expiring es) % 2 ^ 64
  overheads : v.overhead ≡ (u.overhead + sum_for name overhead_of es) % 2 ^ 64

charge-RowFits :
    (b : Bool) (e : Entry) (u : UserOverhead) → RowFits u → RowFits (if b then charge e u else u)
charge-RowFits true e u h = record {
  keys_fit = omega arith;
  expiring_fit = expiring_below e.is_expire_key u.expire_key_count h.expiring_fit;
  overhead_fits = omega arith;
}
  where
    expiring_below : (b : Bool) (n : ℕ) → n < 2 ^ 64 → (if b then (n + 1) % 2 ^ 64 else n) < 2 ^ 64
    expiring_below true n h = omega arith
    expiring_below false n h = h
charge-RowFits false e u h = h

-- One count, charged or not, and what follows.
charge_keys :
    (b : Bool) (e : Entry) (u : UserOverhead) (s n : ℕ)
    → n ≡ ((if b then charge e u else u).key_count + s) % 2 ^ 64
    → n ≡ (u.key_count + ((if b then 1 else 0) + s)) % 2 ^ 64
charge_keys true e u s n h = omega arith
charge_keys false e u s n h = omega arith

charge_expiring :
    (b x : Bool) (old s n : ℕ)
    → n ≡ ((if b then (if x then (old + 1) % 2 ^ 64 else old) else old) + s) % 2 ^ 64
    → n ≡ (old + ((if b then (if x then 1 else 0) else 0) + s)) % 2 ^ 64
charge_expiring true true old s n h = omega arith
charge_expiring true false old s n h = omega arith
charge_expiring false x old s n h = omega arith

if_expiring :
    (b : Bool) (e : Entry) (u : UserOverhead)
    → (if b then charge e u else u).expire_key_count ≡ (
        if b
        then (if e.is_expire_key then (u.expire_key_count + 1) % 2 ^ 64 else u.expire_key_count)
        else u.expire_key_count)
if_expiring true e u = refl
if_expiring false e u = refl

charge_overhead :
    (b : Bool) (e : Entry) (u : UserOverhead) (s n : ℕ)
    → n ≡ ((if b then charge e u else u).overhead + s) % 2 ^ 64
    → n ≡ (u.overhead + ((if b then e.overhead else 0) + s)) % 2 ^ 64
charge_overhead true e u s n h = omega arith
charge_overhead false e u s n h = omega arith

charge-Summed :
    (name : Bytes) (e : Entry) (es : List Entry) (u v : UserOverhead)
    → Summed name es (if counts_for name e then charge e u else u) v
    → Summed name (e ∷ es) u v
charge-Summed name e es u v h =
    let c = counts_for name e in
    record {
      keys = charge_keys c e u (sum_for name one_key es) v.key_count h.keys;
      expiring =
          charge_expiring c e.is_expire_key u.expire_key_count (sum_for name one_expiring es)
            v.expire_key_count
            (h.expiring
              ∙ ap (λ n. (n + sum_for name one_expiring es) % 2 ^ 64) (if_expiring c e u));
      overheads = charge_overhead c e u (sum_for name overhead_of es) v.overhead h.overheads;
    }

add_entries-Summed :
    (name : Bytes) (es : List Entry) (us : Users)
    → RowFits (row_of name us)
    → Summed name es (row_of name us) (row_of name (add_entries es us))
unfolding add_entries
add_entries-Summed name [] us h =
    let k = h.keys_fit in
    let x = h.expiring_fit in
    let o = h.overhead_fits in
    record { keys = omega arith; expiring = omega arith; overheads = omega arith }
add_entries-Summed name (e ∷ es) us h =
    let row = row_of-add_entry name e us in
    let c = counts_for name e in
    let fits = subst RowFits (sym row) (charge-RowFits c e (row_of name us) h) in
    let rec = add_entries-Summed name es (add_entry e us) fits in
    charge-Summed name e es (row_of name us) _
      (subst (λ u. Summed name es u (row_of name (add_entries es (add_entry e us)))) row rec)

-- After the loop over the entries the row of every user has the number of its keys, the number of
-- those that expire and the sum of their overheads, each modulo 2 ^ 64. A key counts for the text
-- before its first colon; one without a colon counts for nobody.
pub add_entries-sum_for :
    (name : Bytes) (es : List Entry)
    → let row = row_of name (add_entries es []) in
      (row.key_count ≡ sum_for name one_key es % 2 ^ 64)
      × (row.expire_key_count ≡ sum_for name one_expiring es % 2 ^ 64)
      × (row.overhead ≡ sum_for name overhead_of es % 2 ^ 64)
add_entries-sum_for name es =
    let h = add_entries-Summed name es [] (record {
      keys_fit = omega arith;
      expiring_fit = omega arith;
      overhead_fits = omega arith;
    }) in
    let k = h.keys in
    let x = h.expiring in let o = h.overheads in (omega arith, omega arith, omega arith)
