-- ===== src/Objects/ModuleObject/Signed.antt =====
-- What the loader of module2.go makes of the values of a module.
use redis_agent.Common.{
  ℕ, zero, suc, ◌^◌, ◌<◌, ◌≤◌, Bytes, List, [], ◌∷◌, ◌++◌, length, length-append, ◌==◌, false,
  lt→ltb, ◌≡◌, refl, ◌∙◌, ap, sym, arith, All,
}
use redis_agent.Common.Int.{pos}
use redis_agent.Reader.{◌>>=◌, ok, panic, unknown_opcode, read_byte, read_bytes}
use redis_agent.Reader.Laws.{bind_ok, bind_panic, read_bytes_append, put_all}
use redis_agent.Length.{read_length}
use redis_agent.Length.RoundTrip.{put_length, read_length-put_length}
use redis_agent.Text.{read_string}
use redis_agent.Text.RoundTrip.{put_raw, read_string-put_raw}
use redis_agent.Objects.ZsetObject.{FloatOps, read_double}
use redis_agent.Objects.ModuleObject.{skip_value, skip_values, load_from_buffer}

-- The values that the loader can skip, as `RedisModule_Save…` writes them.
pub data Item : Type 0 where
  unsigned : ℕ → Item
  double string : Bytes → Item

abbrev pub ItemFits : Item → Type 0
ItemFits (unsigned n) = n < 2 ^ 64
ItemFits (double bs) = length bs ≡ 8
ItemFits (string t) = length t < 2 ^ 63

abbrev pub opcode_of : Item → ℕ
opcode_of (unsigned n) = 2
opcode_of (double bs) = 4
opcode_of (string t) = 5

abbrev pub put_content : Item → Bytes → Bytes
put_content (unsigned n) s = put_length n s
put_content (double bs) s = bs ++ s
put_content (string t) s = put_raw t s

abbrev pub put_item : Item → Bytes → Bytes
put_item i s = opcode_of i ∷ put_content i s

read_eight : (bs s : Bytes) → length bs ≡ 8 → read_bytes (pos 8) (bs ++ s) ≡ ok (bs, s)
read_eight bs s h = ap (λ n. read_bytes (pos n) (bs ++ s)) (sym h) ∙ read_bytes_append bs s

put_length_grows : (n : ℕ) (s : Bytes) → length s ≤ length (put_length n s)
put_length_grows n s = ground arith

put_content_grows : (i : Item) (s : Bytes) → length s ≤ length (put_content i s)
put_content_grows (unsigned n) s = put_length_grows n s
put_content_grows (double bs) s = omega (arith, length-append bs s)
put_content_grows (string t) s =
    omega (arith, length-append t s, put_length_grows (length t) (t ++ s))

-- The fuel of the loop is enough for a list of values.
items_fuel : (is : List Item) (s : Bytes) → length is < length (put_all put_item is (0 ∷ s))
items_fuel [] s = omega arith
items_fuel (i ∷ is) s =
    let rec = items_fuel is s in
    let grows = put_content_grows i (put_all put_item is (0 ∷ s)) in omega arith

not_opcode : (n k : ℕ) → k < n → (n == k) ≡ false
not_opcode n k h = ground arith

module _ (ops : FloatOps) where
  skip_value-put_content :
      (i : Item) (s : Bytes)
      → ItemFits i
      → skip_value ops (opcode_of i) (put_content i s) ≡ ok (tt, s)
  unfolding skip_value read_double
  skip_value-put_content (unsigned n) s h = bind_ok read_length _ _ (read_length-put_length n s h)
  skip_value-put_content (double bs) s h =
      bind_ok (read_double ops) _ (bs ++ s)
        (bind_ok (read_bytes (pos 8)) _ (bs ++ s) (read_eight bs s h))
  skip_value-put_content (string t) s h = bind_ok read_string _ _ (read_string-put_raw t s h)

  skip_step :
      (i : Item) (s : Bytes) (fuel : ℕ)
      → ItemFits i
      → skip_values ops (suc fuel) (opcode_of i) (put_content i s)
        ≡ (read_byte >>= λ opcode. skip_values ops fuel opcode) s
  unfolding skip_values
  skip_step (unsigned n) s fuel h =
      bind_ok (skip_value ops 2) _ _ (skip_value-put_content (unsigned n) s h)
  skip_step (double bs) s fuel h =
      bind_ok (skip_value ops 4) _ _ (skip_value-put_content (double bs) s h)
  skip_step (string t) s fuel h =
      bind_ok (skip_value ops 5) _ _ (skip_value-put_content (string t) s h)

  skip_values-put_items :
      (is : List Item) (s : Bytes) (fuel : ℕ)
      → length is < fuel
      → All ItemFits is
      → (read_byte >>= λ opcode. skip_values ops fuel opcode) (put_all put_item is (0 ∷ s))
        ≡ ok (tt, s)
  unfolding skip_values read_byte
  skip_values-put_items [] s zero n h = absurd (omega arith)
  skip_values-put_items [] s (suc fuel) n h = refl
  skip_values-put_items (i ∷ is) s zero n h = absurd (omega arith)
  skip_values-put_items (i ∷ is) s (suc fuel) n (h, hs) =
      skip_step i (put_all put_item is (0 ∷ s)) fuel h
      ∙ skip_values-put_items is s fuel (omega arith) hs

  items_skipped :
      (is : List Item) (s : Bytes)
      → All ItemFits is
      → (read_byte >>= λ opcode left. skip_values ops (suc (length left)) opcode left)
          (put_all put_item is (0 ∷ s))
        ≡ ok (tt, s)
  unfolding skip_values read_byte
  items_skipped [] s h = refl
  items_skipped (i ∷ is) s h =
      skip_values-put_items (i ∷ is) s (suc (length (put_content i (put_all put_item is (0 ∷ s)))))
        (items_fuel (i ∷ is) s) h

  -- The values of a module (type byte 7), any number of unsigned integers, doubles and strings with
  -- their end mark, are skipped, and what follows them is left; the fuel of the loop is enough.
  pub load_from_buffer-put_items :
      (id : ℕ) (is : List Item) (s : Bytes)
      → id < 2 ^ 64
      → All ItemFits is
      → load_from_buffer ops 7 (put_length id (put_all put_item is (0 ∷ s))) ≡ ok (tt, s)
  unfolding load_from_buffer
  load_from_buffer-put_items id is s h fits =
      bind_ok read_length _ _ (read_length-put_length id _ h) ∙ items_skipped is s fits

  bad_opcode :
      (n fuel : ℕ) (s : Bytes) → 5 < n → skip_values ops (suc fuel) n s ≡ panic (unknown_opcode n)
  unfolding skip_values skip_value
  bad_opcode n fuel s h = rw (not_opcode n 0 (omega arith)) (
      bind_panic (skip_value ops n) _ s (
        rw (
          not_opcode n 1 (omega arith),
          not_opcode n 2 (omega arith),
          not_opcode n 3 (omega arith),
          not_opcode n 4 (omega arith),
          not_opcode n 5 (omega arith),
        )))

  -- A signed integer n of a module (type byte 7) with 5 < n < 64, which is written in one byte,
  -- makes the loader panic with n as an unknown opcode: the case of signed integers is empty, and
  -- Go does not fall through to the next one.
  pub load_from_buffer-signed :
      (id n : ℕ) (s : Bytes)
      → id < 2 ^ 64
      → 5 < n
      → n < 64
      → load_from_buffer ops 7 (put_length id (1 ∷ put_length n s)) ≡ panic (unknown_opcode n)
  unfolding load_from_buffer skip_value skip_values read_byte
  load_from_buffer-signed id n s h low high =
      bind_ok read_length _ _ (read_length-put_length id _ h)
      ∙ rw (lt→ltb n 64 high) (bad_opcode n (length s) s low)
