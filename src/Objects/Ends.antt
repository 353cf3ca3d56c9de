-- ===== src/Objects/Ends.antt =====
-- The loaders of the objects, module objects and streams aside, end on every input.
use redis_agent.Common.{ℕ, ◌%◌, ◌==◌, Bytes, List, [], ◌∷◌, length, map, ◌≢◌}
use redis_agent.Common.Int.{ℤ, pos, negsuc, int_of_u64, rounds}
use redis_agent.Reader.{
  Result, ok, panic, stuck, Reader, ◌>>=◌, lift, repeat_read, unknown_type, unknown_container,
  bad_alloc, odd_size, not_implemented,
}
use redis_agent.Reader.Tame.{
  Tame, pure-Tame, raise-Tame, lift-Tame, if-Tame, bind-Tame, repeat_read-Tame,
}
use redis_agent.Length.{read_length}
use redis_agent.Text.{read_string}
use redis_agent.Text.Ends.{read_string-Tame, read_length-Tame}
use redis_agent.ZipList.{read_zip_list}
use redis_agent.ZipList.Ends.{read_zip_list-Tame}
use redis_agent.Listpack.{read_listpack}
use redis_agent.Listpack.Ends.{read_listpack-Tame}
use redis_agent.Intset.Ends.{read_intset-Tame}
use redis_agent.Objects.{alloc, pairs}
use redis_agent.Objects.StringObject as Strings
use redis_agent.Objects.ListObject as Lists
use redis_agent.Objects.SetObject as Sets
use redis_agent.Objects.HashObject as Hashes
use redis_agent.Objects.ZsetObject as Zsets
use redis_agent.Objects.ZsetObject.{FloatOps, ZsetEntry, entry_of}
use redis_agent.Objects.ModuleObject.Ends.{read_float-Tame, read_double-Tame}

alloc-Tame : (z : ℤ) → Tame (alloc z)
alloc-Tame (pos n) = pure-Tame tt
alloc-Tame (negsuc n) = raise-Tame bad_alloc

-- A number of things with that number in front.
counted-Tame :
    {A : Type 0} (m : Reader A)
    → Tame m
    → Tame (read_length >>= λ size. repeat_read (rounds (int_of_u64 size)) m)
counted-Tame m h =
    bind-Tame read_length _ read_length-Tame
      (λ size. repeat_read-Tame (rounds (int_of_u64 size)) m h)

pairs-not_stuck : (es : List Bytes) → pairs es ≢ stuck
unfolding pairs
pairs-not_stuck [] e = cc
pairs-not_stuck (a ∷ []) e = cc
pairs-not_stuck (a ∷ b ∷ es) e = step (pairs es) (pairs-not_stuck es) e
  where
    step :
        (r : Result (List (Bytes × Bytes)))
        → r ≢ stuck
        → elim r [ ok ps ↦ ok ((a, b) ∷ ps) | panic x ↦ panic x | stuck ↦ stuck ] ≢ stuck
    step (ok ps) h g = cc
    step (panic x) h g = cc
    step stuck h g = h g

pub string-Tame : (key : Bytes) → Tame (Strings.load_from_buffer key)
unfolding Strings.load_from_buffer
string-Tame key =
    bind-Tame read_string _ read_string-Tame
      (λ value. pure-Tame (record { key = key; value = value }))

read_container-Tame : (container : ℕ) → Tame (Lists.read_container container)
unfolding Lists.read_container
read_container-Tame container =
    if-Tame (container == 1) _ _
      (bind-Tame read_string _ read_string-Tame (λ ele. pure-Tame (ele ∷ [])))
      (if-Tame (container == 2) _ _ read_listpack-Tame (raise-Tame (unknown_container container)))

read_node-Tame : Tame Lists.read_node
unfolding Lists.read_node
read_node-Tame = bind-Tame read_length _ read_length-Tame read_container-Tame

read_quick_list-Tame : Tame Lists.read_quick_list
unfolding Lists.read_quick_list
read_quick_list-Tame = bind-Tame read_length _ read_length-Tame (λ size.
    bind-Tame (repeat_read (rounds (int_of_u64 size)) read_zip_list) _
      (repeat_read-Tame (rounds (int_of_u64 size)) read_zip_list read_zip_list-Tame)
      (λ nodes. pure-Tame (Lists.concat nodes)))

read_quick_list2-Tame : Tame Lists.read_quick_list2
unfolding Lists.read_quick_list2
read_quick_list2-Tame = bind-Tame read_length _ read_length-Tame (λ size.
    bind-Tame (repeat_read (rounds (int_of_u64 size)) Lists.read_node) _
      (repeat_read-Tame (rounds (int_of_u64 size)) Lists.read_node read_node-Tame)
      (λ nodes. pure-Tame (Lists.concat nodes)))

list_elements-Tame : (t : ℕ) → Tame (Lists.read_elements t)
unfolding Lists.read_elements Lists.read_list
list_elements-Tame t = if-Tame (t == 1) _ _ (counted-Tame read_string read_string-Tame) (
    if-Tame (t == 10) _ _ read_zip_list-Tame (
      if-Tame (t == 14) _ _ read_quick_list-Tame
        (if-Tame (t == 18) _ _ read_quick_list2-Tame (raise-Tame (unknown_type t)))))

pub list-Tame : (key : Bytes) (t : ℕ) → Tame (Lists.load_from_buffer key t)
unfolding Lists.load_from_buffer
list-Tame key t =
    bind-Tame (Lists.read_elements t) _ (list_elements-Tame t)
      (λ es. pure-Tame (record { key = key; elements = es }))

read_set-Tame : Tame Sets.read_set
unfolding Sets.read_set
read_set-Tame = bind-Tame read_length _ read_length-Tame (λ size.
    bind-Tame (alloc (int_of_u64 size)) _ (alloc-Tame (int_of_u64 size))
      (λ _. repeat_read-Tame (rounds (int_of_u64 size)) read_string read_string-Tame))

set_elements-Tame : (t : ℕ) → Tame (Sets.read_elements t)
unfolding Sets.read_elements
set_elements-Tame t =
    if-Tame (t == 2) _ _ read_set-Tame
      (if-Tame (t == 11) _ _ read_intset-Tame (raise-Tame (unknown_type t)))

pub set-Tame : (key : Bytes) (t : ℕ) → Tame (Sets.load_from_buffer key t)
unfolding Sets.load_from_buffer
set-Tame key t =
    bind-Tame (Sets.read_elements t) _ (set_elements-Tame t)
      (λ es. pure-Tame (record { key = key; elements = es }))

read_pair-Tame : Tame Hashes.read_pair
unfolding Hashes.read_pair
read_pair-Tame =
    bind-Tame read_string _ read_string-Tame
      (λ k. bind-Tame read_string _ read_string-Tame (λ v. pure-Tame (k, v)))

read_hash-Tame : Tame Hashes.read_hash
unfolding Hashes.read_hash
read_hash-Tame = bind-Tame read_length _ read_length-Tame (λ size.
    bind-Tame (repeat_read (rounds (int_of_u64 size)) Hashes.read_pair) _
      (repeat_read-Tame (rounds (int_of_u64 size)) Hashes.read_pair read_pair-Tame)
      (λ ps. pure-Tame (Hashes.insert_all ps [])))

-- The pairs of a packed hash.
paired-Tame :
    (m : Reader (List Bytes))
    → Tame m
    → Tame (m >>= λ list. lift (pairs list) >>= λ ps s. ok (Hashes.insert_all ps [], s))
paired-Tame m h = bind-Tame m _ h (λ list.
    bind-Tame (lift (pairs list)) _ (lift-Tame (pairs list) (pairs-not_stuck list))
      (λ ps. pure-Tame (Hashes.insert_all ps [])))

hash_value-Tame : (t : ℕ) → Tame (Hashes.read_value t)
unfolding Hashes.read_value Hashes.read_hash_ziplist Hashes.read_hash_listpack
hash_value-Tame t = if-Tame (t == 4) _ _ read_hash-Tame (
    if-Tame (t == 9) _ _ (raise-Tame not_implemented) (
      if-Tame (t == 13) _ _ (paired-Tame read_zip_list read_zip_list-Tame) (
        if-Tame (t == 16) _ _ (paired-Tame read_listpack read_listpack-Tame)
          (raise-Tame (unknown_type t)))))

pub hash-Tame : (key : Bytes) (t : ℕ) → Tame (Hashes.load_from_buffer key t)
unfolding Hashes.load_from_buffer
hash-Tame key t =
    bind-Tame (Hashes.read_value t) _ (hash_value-Tame t)
      (λ v. pure-Tame (record { key = key; value = v }))

module _ (ops : FloatOps) where
  read_scored-Tame : (read : Reader ops.Float) → Tame read → Tame (Zsets.read_scored ops read)
  unfolding Zsets.read_scored
  read_scored-Tame read h =
      bind-Tame read_string _ read_string-Tame (λ m.
        bind-Tame read _ h (λ v. pure-Tame (record { member = m; score = ops.format_float v })))

  read_zset-Tame : (read : Reader ops.Float) → Tame read → Tame (Zsets.read_zset ops read)
  unfolding Zsets.read_zset
  read_zset-Tame read h = bind-Tame read_length _ read_length-Tame (λ size.
      bind-Tame (alloc (int_of_u64 size)) _ (alloc-Tame (int_of_u64 size)) (λ _.
        repeat_read-Tame (rounds (int_of_u64 size)) (Zsets.read_scored ops read)
          (read_scored-Tame read h)))

  even_pairs-Tame : (list : List Bytes) → Tame (Zsets.even_pairs ops list)
  unfolding Zsets.even_pairs
  even_pairs-Tame list =
      if-Tame (length list % 2 == 0) _ _
        (bind-Tame (lift (pairs list)) _ (lift-Tame (pairs list) (pairs-not_stuck list))
          (λ ps. pure-Tame (map entry_of ps)))
        (raise-Tame (odd_size (length list)))

  zset_elements-Tame : (t : ℕ) → Tame (Zsets.read_elements ops t)
  unfolding Zsets.read_elements Zsets.read_zset_ziplist Zsets.read_zset_listpack
  zset_elements-Tame t =
      if-Tame (t == 3) _ _ (read_zset-Tame (Zsets.read_float ops) (read_float-Tame ops)) (
        if-Tame (t == 5) _ _ (read_zset-Tame (Zsets.read_double ops) (read_double-Tame ops)) (
          if-Tame (t == 12) _ _ (bind-Tame read_zip_list _ read_zip_list-Tame even_pairs-Tame) (
            if-Tame (t == 17) _ _ (bind-Tame read_listpack _ read_listpack-Tame even_pairs-Tame)
              (raise-Tame (unknown_type t)))))

  pub zset-Tame : (key : Bytes) (t : ℕ) → Tame (Zsets.load_from_buffer ops key t)
  unfolding Zsets.load_from_buffer
  zset-Tame key t =
      bind-Tame (Zsets.read_elements ops t) _ (zset_elements-Tame t)
        (λ es. pure-Tame (record { key = key; elements = es }))
