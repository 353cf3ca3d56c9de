-- ===== src/Objects/HashObject/Laws.antt =====
-- The association lists of hash.go as maps: what a lookup finds after the assignments of a loop,
-- and what the loader makes of a plain hash.
use redis_agent.Common.{
  ◌^◌, ◌<◌, Bytes, [], ◌∷◌, map, length, Option, some, none, same_bytes, same_bytes→eq,
  if◌then◌else◌, true, false, Bool-cases, inl, inr, ◌≡◌, refl, ◌∙◌, ap, arith, All,
}
use redis_agent.Reader.{ok, repeat_read}
use redis_agent.Reader.Laws.{bind_ok, repeat_read-put_all}
use redis_agent.Length.{read_length}
use redis_agent.Length.RoundTrip.{read_length-put_length}
use redis_agent.Length.Counted.{put_counted, rounds_of}
use redis_agent.Text.{read_string}
use redis_agent.Text.RoundTrip.{put_raw, read_string-put_raw}
use redis_agent.Objects.HashObject.{
  Fields, HashObject, insert, insert_all, read_pair, read_hash, read_value, load_from_buffer,
}

abbrev pub lookup : Bytes → Fields → Option Bytes
lookup k [] = none
lookup k ((j, w) ∷ m) = if same_bytes j k then some w else lookup k m

-- The value of the last pair of the list with that key, or `before` when it has none.
abbrev pub last_value : Bytes → Fields → Option Bytes → Option Bytes
last_value k [] before = before
last_value k ((j, w) ∷ ps) before = last_value k ps (if same_bytes j k then some w else before)

same_key : (i j k : Bytes) → same_bytes i j ≡ true → same_bytes i k ≡ same_bytes j k
same_key i j k h = ap (λ x. same_bytes x k) (same_bytes→eq i j h)

other_key :
    (i j k : Bytes) → same_bytes i j ≡ false → same_bytes i k ≡ true → same_bytes j k ≡ false
other_key i j k h e = elim (Bool-cases (same_bytes j k)) [
  | inl g ↦
      let a : i ≡ k = same_bytes→eq i k e in let b : j ≡ k = same_bytes→eq j k g in absurd (cc)
  | inr g ↦ g
]

lookup-insert :
    (k j w : Bytes) (m : Fields)
    → lookup k (insert j w m) ≡ (if same_bytes j k then some w else lookup k m)
unfolding insert
lookup-insert k j w [] = refl
lookup-insert k j w ((i, v) ∷ m) =
    let rec = lookup-insert k j w m in
    elim (Bool-cases (same_bytes i j)) [
      | inl h ↦ elim (Bool-cases (same_bytes j k)) [
        | inl e ↦ rw (h, e)
        | inr e ↦ rw (h, same_key i j k h, e)
      ]
      | inr h ↦ elim (Bool-cases (same_bytes i k)) [
        | inl e ↦ rw (h, e, other_key i j k h e)
        | inr e ↦ rw (h, e, rec)
      ]
    ]

-- After the assignments of a loop, a key has the value of the last pair with that key, and a key
-- that no pair has keeps the value it had.
pub lookup-insert_all :
    (k : Bytes) (ps m : Fields) → lookup k (insert_all ps m) ≡ last_value k ps (lookup k m)
unfolding insert_all
lookup-insert_all k [] m = refl
lookup-insert_all k ((j, w) ∷ ps) m =
    lookup-insert_all k ps (insert j w m) ∙ ap (last_value k ps) (lookup-insert k j w m)

abbrev pub put_pair : Bytes × Bytes → Bytes → Bytes
put_pair (k, v) s = put_raw k (put_raw v s)

abbrev pub PairFits : Bytes × Bytes → Type 0
PairFits (k, v) = (length k < 2 ^ 63) × (length v < 2 ^ 63)

read_pair-put_pair :
    (p : Bytes × Bytes) (s : Bytes) → PairFits p → read_pair (put_pair p s) ≡ ok (p, s)
unfolding read_pair
read_pair-put_pair (k, v) s (hk, hv) =
    bind_ok read_string _ _ (read_string-put_raw k _ hk)
    ∙ bind_ok read_string _ _ (read_string-put_raw v s hv)

map_self : (ps : Fields) → map (λ p. p) ps ≡ ps
map_self [] = refl
map_self (p ∷ ps) = ap (λ r. p ∷ r) (map_self ps)

read_hash-put_fields :
    (ps : Fields) (s : Bytes)
    → length ps < 2 ^ 63
    → All PairFits ps
    → read_hash (put_counted put_pair ps s) ≡ ok (insert_all ps [], s)
unfolding read_hash
read_hash-put_fields ps s n h =
    bind_ok read_length _ _ (read_length-put_length (length ps) _ (omega arith))
    ∙ rw (rounds_of (length ps) n) (
        bind_ok (repeat_read (length ps) read_pair) _ _
          (repeat_read-put_all read_pair put_pair (λ p. p) PairFits read_pair-put_pair ps s h)
        ∙ ap (λ qs. ok (insert_all qs [], s)) (map_self ps))

pub read_hash_object-put_fields :
    (key : Bytes) (ps : Fields) (s : Bytes)
    → length ps < 2 ^ 63
    → All PairFits ps
    → load_from_buffer key 4 (put_counted put_pair ps s)
      ≡ ok (record { key = key; value = insert_all ps [] }, s)
unfolding load_from_buffer read_value
read_hash_object-put_fields key ps s n h =
    bind_ok (read_value 4) _ _ (read_hash-put_fields ps s n h)

-- A plain hash (fewer than 2^63 pairs, each text shorter than 2^63) is loaded as an object with its
-- key that leaves what follows, in which every field has the value of the last pair with that name
-- and no other field has one.
pub load_from_buffer-put_fields :
    (key : Bytes) (ps : Fields) (s : Bytes)
    → length ps < 2 ^ 63
    → All PairFits ps
    → (o : HashObject) × (load_from_buffer key 4 (put_counted put_pair ps s) ≡ ok (o, s))
      × (o.key ≡ key)
      × ((field : Bytes) → lookup field o.value ≡ last_value field ps none)
load_from_buffer-put_fields key ps s n h = (
  record { key = key; value = insert_all ps [] },
  read_hash_object-put_fields key ps s n h,
  refl,
  λ field. lookup-insert_all field ps [],
)
