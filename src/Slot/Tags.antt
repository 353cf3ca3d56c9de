-- ===== src/Slot/Tags.antt =====
-- Hash tags: the part of a key that decides its slot.
use redis_agent.Common.{
  ℕ, zero, suc, ◌+◌, ◌%◌, ◌<◌, ltb, ◌==◌, Bytes, [], ◌∷◌, ◌++◌, length, take, drop, some, ◌≡◌, ◌≢◌,
  refl, sym, ◌∙◌, ap, arith, All, true, false,
}
use redis_agent.Slot.{slot_number, index_byte, key_of, slot, crc16sum}

-- The first c stands behind a part that has none.
index_byte-append :
    (pre post : Bytes) (c : ℕ)
    → All (λ b. b ≢ c) pre
    → index_byte (pre ++ c ∷ post) c ≡ some (length pre)
unfolding index_byte
index_byte-append [] post c h = ground arith
index_byte-append (b ∷ pre) post c (hb, h) =
    let ne : (b == c) ≡ false = ground arith in
    let rec = index_byte-append pre post c h in rw (ne, rec) (ap some (omega arith))

drop-append : (pre post : Bytes) (c n : ℕ) → n ≡ length pre + 1 → drop n (pre ++ c ∷ post) ≡ post
drop-append pre post c zero h = absurd (omega arith)
drop-append [] post c (suc n) h = let e : n ≡ 0 = omega arith in rw e refl
drop-append (b ∷ pre) post c (suc n) h = drop-append pre post c n (omega arith)

take-append : (pre post : Bytes) → take (length pre) (pre ++ post) ≡ pre
take-append [] post = refl
take-append (b ∷ pre) post = ap (λ t. b ∷ t) (take-append pre post)

-- A key with a tag: something without an opening brace, then a tag in braces.
abbrev pub tagged : Bytes → Bytes → Bytes → Bytes
tagged pre tag post = pre ++ 123 ∷ (tag ++ 125 ∷ post)

-- The part of a key that counts is what stands between the first opening brace and the first
-- closing brace behind it, if that is not empty.
pub key_of-tagged :
    (pre tag post : Bytes)
    → All (λ b. b ≢ 123) pre
    → 0 < length tag
    → All (λ b. b ≢ 125) tag
    → key_of (tagged pre tag post) ≡ tag
unfolding key_of
key_of-tagged pre tag post hp n ht =
    let opening = index_byte-append pre (tag ++ 125 ∷ post) 123 hp in
    let rest = drop-append pre (tag ++ 125 ∷ post) 123 (length pre + 1) refl in
    let closing = index_byte-append tag post 125 ht in
    let cut = take-append tag (125 ∷ post) in
    let some_tag : ltb 0 (length tag) ≡ true = ground arith in
    rw (opening, rest, closing, some_tag, rest, cut)

slot-tagged :
    (r : ℕ) (pre tag post : Bytes)
    → slot r (tagged pre tag post) ≡ crc16sum (key_of (tagged pre tag post)) % slot_number
unfolding slot
slot-tagged r [] tag post = refl
slot-tagged r (b ∷ pre) tag post = refl

-- Two keys with the same tag, behind parts without an opening brace, have the same slot, whatever
-- is drawn for empty keys, and that slot is below 16384.
pub slot_of_tag :
    (r r' : ℕ) (pre pre' tag post post' : Bytes)
    → All (λ b. b ≢ 123) pre
    → All (λ b. b ≢ 123) pre'
    → 0 < length tag
    → All (λ b. b ≢ 125) tag
    → (slot r (tagged pre tag post) ≡ slot r' (tagged pre' tag post'))
      × (slot r (tagged pre tag post) < slot_number)
slot_of_tag r r' pre pre' tag post post' hp hp' n ht =
    let value : ℕ = crc16sum tag % slot_number in
    let left : slot r (tagged pre tag post) ≡ value =
      slot-tagged r pre tag post ∙ rw (key_of-tagged pre tag post hp n ht) refl in
    let right : slot r' (tagged pre' tag post') ≡ value =
      slot-tagged r' pre' tag post' ∙ rw (key_of-tagged pre' tag post' hp' n ht) refl in
    (left ∙ sym right, rw left (omega arith))
