-- ===== src/Objects/StreamEntries/Ends.antt =====
-- The replay of the entries of a stream listpack ends on every list of elements.
use redis_agent.Common.{
  ℕ, zero, suc, ◌<◌, ◌≤◌, leb, ◌==◌, ◌&&◌, if◌then◌else◌, bit_and, Bool, true, false, Bytes, List,
  [], ◌∷◌, length, drop, codes, same_bytes, Option, none, some, ◌≢◌, arith,
}
use redis_agent.Common.Int.{ℤ, pos, negsuc, word64, add64, is_zero}
use redis_agent.Reader.{Result, ok, panic, stuck}
use redis_agent.Decimal.{parse_int}
use redis_agent.Objects.{RedisCmd}
use redis_agent.Objects.StreamEntries.{
  Cursor, give, ◌>>=◌, number_of, next_string, next_integer, next_slice, same_fields, own_fields,
  entry_fields, Master, xadd, read_entry, count_entry, read_entries, with_fuel, check_master_end,
  read_elements,
}

-- It succeeds with no more than `bound` elements left, or panics.
EndsAt : {A : Type 0} → ℕ → Result (A × List Bytes) → Type 0
EndsAt bound (ok (a, es)) = length es ≤ bound
EndsAt bound (panic e) = Unit
EndsAt bound stuck = ⊥

record Ends {A : Type 0} (m : Cursor A) : Type 0 where
  at : (es : List Bytes) → EndsAt (length es) (m es)

module _ {A : Type 0} where
  EndsAt-weaken : (r : Result (A × List Bytes)) (m n : ℕ) → m ≤ n → EndsAt m r → EndsAt n r
  unfolding EndsAt
  EndsAt-weaken (ok (a, es)) m n h t = omega arith
  EndsAt-weaken (panic e) m n h t = tt
  EndsAt-weaken stuck m n h t = t

  EndsAt-not_stuck : (r : Result (A × List Bytes)) (n : ℕ) → EndsAt n r → r ≢ stuck
  unfolding EndsAt
  EndsAt-not_stuck (ok (a, es)) n t e = cc
  EndsAt-not_stuck (panic x) n t e = cc
  EndsAt-not_stuck stuck n t e = t

  if-EndsAt :
      (b : Bool) (x y : Result (A × List Bytes)) (n : ℕ)
      → EndsAt n x
      → EndsAt n y
      → EndsAt n (if b then x else y)
  if-EndsAt true x y n hx hy = hx
  if-EndsAt false x y n hx hy = hy

  if-Ends : (b : Bool) (m k : Cursor A) → Ends m → Ends k → Ends (λ es. if b then m es else k es)
  if-Ends b m k hm hk = record {
    at = λ es. if-EndsAt b (m es) (k es) (length es) (hm.at es) (hk.at es);
  }

  give-Ends : (a : A) → Ends (give a)
  unfolding EndsAt
  give-Ends a = record { at = λ es. omega arith }

module _ {A B : Type 0} (m : Cursor A) (f : A → Cursor B) where
  bind_within :
      (r : Result (A × List Bytes)) (n : ℕ)
      → ((a : A) (es : List Bytes) → length es ≤ n → EndsAt (length es) (f a es))
      → EndsAt n r
      → EndsAt n (elim r [ ok (a, es) ↦ f a es | panic e ↦ panic e | stuck ↦ stuck ])
  unfolding EndsAt
  bind_within (ok (a, es)) n hf t = EndsAt-weaken (f a es) (length es) n t (hf a es t)
  bind_within (panic e) n hf t = tt
  bind_within stuck n hf t = t

  bind-Ends : Ends m → ((a : A) → Ends (f a)) → Ends (m >>= f)
  bind-Ends hm hf = record {
    at = λ es. bind_within (m es) (length es) (λ a es' _. (hf a).at es') (hm.at es);
  }

next_string-Ends : Ends next_string
unfolding EndsAt next_string
next_string-Ends = record { at = elim [ [] ↦ tt | e ∷ es ↦ omega arith ] }

number_of-Ends : (o : Option ℤ) → Ends (number_of o)
unfolding EndsAt
number_of-Ends none = record { at = λ es. tt }
number_of-Ends (some n) = give-Ends n

next_integer-Ends : Ends next_integer
unfolding next_integer
next_integer-Ends = bind-Ends next_string _ next_string-Ends (λ ele. number_of-Ends (parse_int ele))

length-drop_le : (n : ℕ) (es : List Bytes) → length (drop n es) ≤ length es
length-drop_le zero es = omega arith
length-drop_le (suc n) [] = omega arith
length-drop_le (suc n) (e ∷ es) = let h = length-drop_le n es in omega arith

next_slice_at : (n : ℤ) (es : List Bytes) → EndsAt (length es) (next_slice n es)
unfolding next_slice EndsAt
next_slice_at (pos n) es = if-EndsAt (leb n (length es)) _ _ (length es) (length-drop_le n es) tt
next_slice_at (negsuc n) es = tt

next_slice-Ends : (n : ℤ) → Ends (next_slice n)
next_slice-Ends n = record { at = next_slice_at n }

same_fields-Ends : (fs : List Bytes) → Ends (same_fields fs)
unfolding same_fields
same_fields-Ends [] = give-Ends []
same_fields-Ends (f ∷ fs) =
    bind-Ends next_string _ next_string-Ends
      (λ v. bind-Ends (same_fields fs) _ (same_fields-Ends fs) (λ rest. give-Ends (f ∷ v ∷ rest)))

own_fields-Ends : Ends own_fields
unfolding own_fields
own_fields-Ends =
    bind-Ends next_integer _ next_integer-Ends (λ num. next_slice-Ends (add64 num num))

entry_fields-Ends : (flags : ℤ) (fs : List Bytes) → Ends (entry_fields flags fs)
unfolding entry_fields
entry_fields-Ends flags fs =
    if-Ends (bit_and (word64 flags) 2 == 2) _ _ (same_fields-Ends fs) own_fields-Ends

module _ (master_key : Bytes) (m : Master) where
  entry_rest-Ends :
      (flags : ℤ)
      → Ends {A = ℤ × RedisCmd} (
          next_integer >>= λ ms. next_integer >>= λ sq. entry_fields flags m.fields >>= λ args.
          next_string >>= λ lp_count. give (flags, xadd master_key m ms sq args))
  entry_rest-Ends flags = bind-Ends next_integer _ next_integer-Ends (λ ms.
      bind-Ends next_integer _ next_integer-Ends (λ sq.
        bind-Ends (entry_fields flags m.fields) _ (entry_fields-Ends flags m.fields) (λ args.
          bind-Ends next_string _ next_string-Ends
            (λ c. give-Ends (flags, xadd master_key m ms sq args)))))

  -- A round takes an element at least.
  read_entry_at :
      (e : Bytes) (es : List Bytes) → EndsAt (length es) (read_entry master_key m (e ∷ es))
  unfolding read_entry next_integer next_string
  read_entry_at e es =
      bind_within (number_of (parse_int e)) _ (number_of (parse_int e) es) (length es)
        (λ flags es' _. (entry_rest-Ends flags).at es') ((number_of-Ends (parse_int e)).at es)

  count_entry_at :
      (more : ℤ → ℤ → Cursor (List RedisCmd)) (count deleted : ℤ) (r : ℤ × RedisCmd)
      (es : List Bytes)
      → ((c d : ℤ) → EndsAt (length es) (more c d es))
      → EndsAt (length es) (count_entry more count deleted r es)
  unfolding count_entry
  count_entry_at more count deleted (flags, cmd) es h =
      if-EndsAt (bit_and (word64 flags) 1 == 1) _ _ (length es) (h count (add64 deleted (negsuc 0)))
        (bind_within (more (add64 count (negsuc 0)) deleted) (λ rest. give (cmd ∷ rest)) _
          (length es) (λ rest es' _. (give-Ends (cmd ∷ rest)).at es')
          (h (add64 count (negsuc 0)) deleted))

  -- With more rounds than elements the loop does not run out of them.
  read_entries_at :
      (fuel : ℕ) (count deleted : ℤ) (es : List Bytes)
      → length es < fuel
      → EndsAt (length es) (read_entries fuel master_key m count deleted es)
  unfolding read_entries read_entry next_integer next_string EndsAt
  read_entries_at zero count deleted es h = absurd (omega arith)
  read_entries_at (suc fuel) count deleted [] h =
      if-EndsAt (is_zero count && is_zero deleted) (give [] []) _ 0
        ((give-Ends {A = List RedisCmd} []).at []) tt
  read_entries_at (suc fuel) count deleted (e ∷ es) h =
      if-EndsAt (is_zero count && is_zero deleted) (give [] (e ∷ es)) _ (suc (length es))
        ((give-Ends {A = List RedisCmd} []).at (e ∷ es))
        (EndsAt-weaken _ (length es) (suc (length es)) (omega arith) (
          bind_within (read_entry master_key m) _ (read_entry master_key m (e ∷ es)) (length es)
            (λ r es' k.
              count_entry_at (read_entries fuel master_key m) count deleted r es'
                (λ c d. read_entries_at fuel c d es' (omega arith)))
            (read_entry_at e es)))

check_master_end-Ends :
    (last_entry : Bytes) (entries : Cursor (List RedisCmd))
    → Ends entries
    → Ends (check_master_end last_entry entries)
unfolding EndsAt
check_master_end-Ends last_entry entries h =
    if-Ends (same_bytes last_entry (codes "0")) entries _ h (record { at = λ es. tt })

read_elements-Ends : (master_key : Bytes) (ms seq : ℤ) → Ends (read_elements master_key ms seq)
unfolding read_elements
read_elements-Ends master_key ms seq = bind-Ends next_integer _ next_integer-Ends (λ count.
    bind-Ends next_integer _ next_integer-Ends (λ deleted.
      bind-Ends next_integer _ next_integer-Ends (λ num_fields.
        bind-Ends (next_slice num_fields) _ (next_slice-Ends num_fields) (λ fields.
          bind-Ends next_string _ next_string-Ends (λ last_entry.
            let m : Master = record { master_ms = ms; master_seq = seq; fields = fields } in
            check_master_end-Ends last_entry (with_fuel master_key m count deleted) (record {
              at = λ es.
                  read_entries_at master_key m (suc (length es)) count deleted es (omega arith);
            }))))))

pub read_elements-not_stuck :
    (master_key : Bytes) (ms seq : ℤ) (es : List Bytes) → read_elements master_key ms seq es ≢ stuck
read_elements-not_stuck master_key ms seq es =
    EndsAt-not_stuck (read_elements master_key ms seq es) (length es)
      ((read_elements-Ends master_key ms seq).at es)
