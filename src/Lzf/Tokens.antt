-- ===== src/Lzf/Tokens.antt =====
-- LZF as tokens over an unbounded output, and the decoder of string.go as an implementation of it.
use redis_agent.Common.{
  ℕ, zero, suc, ◌+◌, ◌-◌, ◌*◌, ◌/◌, ◌%◌, ◌<◌, ◌≤◌, ltb, if◌then◌else◌, bit_and, Bytes, List, [],
  ◌∷◌, ◌++◌, length, length-append, append_assoc, append-nil, get_elem?, get_or, set, replicate,
  some, ◌≡◌, refl, sym, ap, ◌∙◌, arith, false, ◌==◌, ltb→lt, lt→ltb, le→ltb_false, Bool-cases, inl,
  inr, true,
}
use Prim.Native.Nat.add
use redis_agent.Common.Bits.{low_five}
use redis_agent.Common.Int.{pos}
use redis_agent.Reader.{ok, panic, lzf_mismatch}
use redis_agent.Lzf.{
  State, copy_literal, copy_match, back_reference, copy_back, round, loop, lzf_decompress, finish,
}

-- A run of 1 to 32 bytes, or 3 to 264 bytes that start `distance` bytes back.
pub data Token : Type 0 where
  literal : Bytes → Token
  repeat : ℕ → ℕ → Token

-- The output w with n more bytes, each the one `distance` bytes before it.
unfoldable pub repeated : ℕ → ℕ → Bytes → Bytes
repeated zero distance w = w
repeated (suc n) distance w = repeated n distance (w ++ get_or w (length w - distance) 0 ∷ [])

unfoldable pub expand_one : Token → Bytes → Bytes
unfolding repeated
expand_one (literal bs) w = w ++ bs
expand_one (repeat n distance) w = repeated n distance w

unfoldable pub expand : List Token → Bytes → Bytes
expand [] w = w
expand (t ∷ ts) w = expand ts (expand_one t w)

abbrev pub TokenFits : Token → Bytes → Type 0
TokenFits (literal bs) w = (1 ≤ length bs) × (length bs ≤ 32)
TokenFits (repeat n distance) w =
    (3 ≤ n) × (n ≤ 264) × (1 ≤ distance) × (distance ≤ 8192) × (distance ≤ length w)

abbrev pub Fits : List Token → Bytes → Type 0
Fits [] w = Unit
Fits (t ∷ ts) w = TokenFits t w × Fits ts (expand_one t w)

-- The bytes of a token in front of s.
abbrev pub put_token : Token → Bytes → Bytes
put_token (literal bs) s = (length bs - 1) ∷ bs ++ s
put_token (repeat n distance) s =
    let high = (distance - 1) / 256 in
    let low = (distance - 1) % 256 in
    if ltb n 9 then ((n - 2) * 32 + high) ∷ low ∷ s else (7 * 32 + high) ∷ (n - 9) ∷ low ∷ s

abbrev pub put_tokens : List Token → Bytes
put_tokens [] = []
put_tokens (t ∷ ts) = put_token t (put_tokens ts)

-- The decoder with w written and room for k bytes more.
abbrev buffer : Bytes → Bytes → ℕ → State
buffer s w k = record { input = s; out = w ++ replicate k 0; o = length w }

set-append : (w r : Bytes) (z b : ℕ) → set (w ++ z ∷ r) (length w) b ≡ (w ++ b ∷ []) ++ r
set-append [] r z b = refl
set-append (x ∷ w) r z b = ap (λ t. x ∷ t) (set-append w r z b)

get_elem?-append : (w r : Bytes) (i : ℕ) → i < length w → get_elem? (w ++ r) i ≡ some (get_or w i 0)
get_elem?-append [] r i h = absurd (omega arith)
get_elem?-append (x ∷ w) r zero h = refl
get_elem?-append (x ∷ w) r (suc i) h = get_elem?-append w r i (omega arith)

-- One byte written at `o`.
write_one :
    (s w : Bytes) (b k : ℕ)
    → (record { input = s; out = set (w ++ replicate (suc k) 0) (length w) b; o = length w + 1 })
      ≡ buffer s (w ++ b ∷ []) k
write_one s w b k = rw (set-append w (replicate k 0) 0 b, length-append w (b ∷ []))

has_room : (w : Bytes) (k : ℕ) → ltb (length w) (length (w ++ replicate (suc k) 0)) ≡ true
has_room w k = lt→ltb _ _ (rw (length-append w (replicate (suc k) 0)) (omega arith))

copy_literal-buffer :
    (bs s w : Bytes) (k : ℕ)
    → copy_literal (length bs) (buffer (bs ++ s) w (length bs + k)) ≡ ok (buffer s (w ++ bs) k)
unfolding copy_literal
copy_literal-buffer [] s w k = rw (append-nil w, add.zero k)
copy_literal-buffer (b ∷ bs) s w k =
    rw (add.suc (length bs) k, has_room w (length bs + k), write_one (bs ++ s) w b (length bs + k))
      (copy_literal-buffer bs s (w ++ b ∷ []) k
        ∙ ap (λ v. ok (buffer s v k)) (append_assoc w (b ∷ []) bs))

copy_match_step :
    (n ref b : ℕ) (st : State)
    → get_elem? st.out ref ≡ some b
    → ltb st.o (length st.out) ≡ true
    → copy_match (suc n) ref st
      ≡ copy_match n (ref + 1) (record st { out = set st.out st.o b; o = st.o + 1 })
unfolding copy_match
copy_match_step n ref b st read room = ground (arith, read, room)

copy_match-buffer :
    (n distance k : ℕ) (s w : Bytes)
    → 1 ≤ distance
    → distance ≤ length w
    → copy_match n (length w - distance) (buffer s w (n + k))
      ≡ ok (buffer s (repeated n distance w) k)
unfolding copy_match repeated
copy_match-buffer zero distance k s w h fits = rw (add.zero k)
copy_match-buffer (suc n) distance k s w h fits =
    let ref = length w - distance in
    let x = get_or w ref 0 in
    let longer = length-append w (x ∷ []) in
    let next : ref + 1 ≡ length (w ++ x ∷ []) - distance = omega (arith, longer) in
    rw (add.suc n k) (
      copy_match_step n ref x (buffer s w (suc (n + k)))
        (get_elem?-append w (replicate (suc (n + k)) 0) ref (omega arith)) (has_room w (n + k))
      ∙ rw (write_one s w x (n + k), next)
          (copy_match-buffer n distance k s (w ++ x ∷ []) h (omega (arith, longer))))

back_reference-buffer :
    (n distance ctrl k : ℕ) (s w : Bytes)
    → 1 ≤ distance
    → distance ≤ length w
    → bit_and ctrl 0x1f ≡ (distance - 1) / 256
    → 2 ≤ n
    → back_reference ctrl (n - 2) (buffer (((distance - 1) % 256) ∷ s) w (n + k))
      ≡ ok (buffer s (repeated n distance w) k)
unfolding back_reference
back_reference-buffer n distance ctrl k s w h fits mask two =
    let back : bit_and ctrl 0x1f * 256 + (distance - 1) % 256 + 1 ≡ distance =
      omega (arith, mask) in
    let again : n - 2 + 2 ≡ n = omega arith in
    rw (back, again, le→ltb_false (length w) distance fits)
      (copy_match-buffer n distance k s w h fits)

-- The control byte of a token, and what stands behind it.
abbrev control : Token → ℕ
control (literal bs) = length bs - 1
control (repeat n distance) =
    if ltb n 9 then (n - 2) * 32 + (distance - 1) / 256 else 7 * 32 + (distance - 1) / 256

abbrev behind : Token → Bytes → Bytes
behind (literal bs) s = bs ++ s
behind (repeat n distance) s =
    if ltb n 9 then ((distance - 1) % 256) ∷ s else (n - 9) ∷ ((distance - 1) % 256) ∷ s

put_token-split : (t : Token) (s : Bytes) → put_token t s ≡ control t ∷ behind t s
put_token-split (literal bs) s = refl
put_token-split (repeat n distance) s = ground arith

grown : Token → ℕ
grown (literal bs) = length bs
grown (repeat n distance) = n

round_short :
    (ctrl : ℕ) (st : State)
    → 32 ≤ ctrl
    → ctrl < 224
    → round ctrl st ≡ back_reference ctrl (ctrl / 32) st
unfolding round copy_back
round_short ctrl st lo hi = ground arith

round_long :
    (ctrl more : ℕ) (s w : Bytes) (k : ℕ)
    → 224 ≤ ctrl
    → ctrl < 256
    → round ctrl (buffer (more ∷ s) w k) ≡ back_reference ctrl (7 + more) (buffer s w k)
unfolding round copy_back
round_long ctrl more s w k lo hi = ground arith

-- A round decodes a token.
round-buffer :
    (t : Token) (w s : Bytes) (k : ℕ)
    → TokenFits t w
    → round (control t) (buffer (behind t s) w (grown t + k)) ≡ ok (buffer s (expand_one t w) k)
unfolding round grown expand_one
round-buffer (literal bs) w s k (lo, hi) =
    let whole : length bs - 1 + 1 ≡ length bs = omega arith in
    rw (lt→ltb (length bs - 1) 32 (omega arith), whole) (copy_literal-buffer bs s w k)
round-buffer (repeat n distance) w s k (n_lo, n_hi, d_lo, d_hi, d_fits) =
    let high = (distance - 1) / 256 in
    elim (Bool-cases (ltb n 9)) [
      | inl short ↦
          let c = (n - 2) * 32 + high in
          let size : n < 9 = ltb→lt n 9 short in
          let len : c / 32 ≡ n - 2 = omega arith in
          rw short (
            round_short c (buffer (((distance - 1) % 256) ∷ s) w (n + k)) (omega arith)
              (omega arith)
            ∙ rw len (
                back_reference-buffer n distance c k s w d_lo d_fits
                  (low_five c (omega arith) ∙ omega arith) (omega arith)))
      | inr long ↦
          let c = 224 + high in
          let size : 9 ≤ n = ground arith in
          let len : 7 + (n - 9) ≡ n - 2 = omega arith in
          rw long (
            round_long c (n - 9) (((distance - 1) % 256) ∷ s) w (n + k) (omega arith) (omega arith)
            ∙ rw len (
                back_reference-buffer n distance c k s w d_lo d_fits
                  (low_five c (omega arith) ∙ omega arith) (omega arith)))
    ]

-- The room that a list of tokens needs.
total : List Token → ℕ
total [] = 0
total (t ∷ ts) = grown t + total ts

length-repeated : (n distance : ℕ) (w : Bytes) → length (repeated n distance w) ≡ length w + n
unfolding repeated
length-repeated zero distance w = omega arith
length-repeated (suc n) distance w =
    let x = get_or w (length w - distance) 0 in
    omega (arith, length-repeated n distance (w ++ x ∷ []), length-append w (x ∷ []))

length-expand_one : (t : Token) (w : Bytes) → length (expand_one t w) ≡ length w + grown t
unfolding expand_one grown
length-expand_one (literal bs) w = length-append w bs
length-expand_one (repeat n distance) w = length-repeated n distance w

length-expand : (ts : List Token) (w : Bytes) → length (expand ts w) ≡ length w + total ts
unfolding expand total
length-expand [] w = omega arith
length-expand (t ∷ ts) w = omega (arith, length-expand ts (expand_one t w), length-expand_one t w)

-- One round of the loop.
loop_step :
    (fuel ctrl : ℕ) (rest out : Bytes) (o : ℕ) (st : State)
    → round ctrl (record { input = rest; out = out; o = o }) ≡ ok st
    → loop (suc fuel) (record { input = ctrl ∷ rest; out = out; o = o }) ≡ loop fuel st
unfolding loop
loop_step fuel ctrl rest out o st h = rw (h, loop)

-- With room for `spare` more bytes than the tokens need.
loop-buffer :
    (ts : List Token) (w : Bytes) (spare fuel : ℕ)
    → Fits ts w
    → length ts ≤ fuel
    → loop fuel (buffer (put_tokens ts) w (total ts + spare)) ≡ ok (buffer [] (expand ts w) spare)
unfolding expand total
loop-buffer [] w spare zero h enough = rw (add.zero spare) (unfold loop in refl)
loop-buffer [] w spare (suc fuel) h enough = rw (add.zero spare) (unfold loop in refl)
loop-buffer (t ∷ ts) w spare zero h enough = absurd (omega arith)
loop-buffer (t ∷ ts) w spare (suc fuel) (ht, hts) enough =
    let room : grown t + total ts + spare ≡ grown t + (total ts + spare) = omega arith in
    rw (put_token-split t (put_tokens ts), room)
      (loop_step fuel (control t) (behind t (put_tokens ts))
          (w ++ replicate (grown t + (total ts + spare)) 0) (length w)
          (buffer (put_tokens ts) (expand_one t w) (total ts + spare))
          (round-buffer t w (put_tokens ts) (total ts + spare) ht)
        ∙ loop-buffer ts (expand_one t w) spare fuel hts (omega arith))

put_token-grows : (t : Token) (s : Bytes) → length s < length (put_token t s)
put_token-grows (literal bs) s = omega (arith, length-append bs s)
put_token-grows (repeat n distance) s = ground arith

length-put_tokens : (ts : List Token) → length ts ≤ length (put_tokens ts)
length-put_tokens [] = omega arith
length-put_tokens (t ∷ ts) = omega (arith, length-put_tokens ts, put_token-grows t (put_tokens ts))

finish_full : (w : Bytes) (n : ℕ) → length w ≡ n → finish n (ok (buffer [] w 0)) ≡ ok w
finish_full w n h = rw (append-nil w) (ground arith)

-- The decoder refines the meaning of LZF: told the right output length, it turns the bytes of every
-- list of tokens (runs of 1 to 32 bytes, matches of 3 to 264 bytes that start at most 8192 bytes
-- back, within the output) into what the tokens mean over an output without bound.
pub lzf_decompress-put_tokens :
    (ts : List Token)
    → Fits ts []
    → lzf_decompress (put_tokens ts) (pos (length (expand ts []))) ≡ ok (expand ts [])
unfolding lzf_decompress
lzf_decompress-put_tokens ts h =
    let size : length (expand ts []) ≡ total ts = omega (arith, length-expand ts []) in
    let run = loop-buffer ts [] 0 (length (put_tokens ts)) h (length-put_tokens ts) in
    let exact : total ts + 0 ≡ total ts = omega arith in
    rw size (
      ap (λ n. finish (total ts) (loop (length (put_tokens ts)) (buffer (put_tokens ts) [] n)))
        (sym exact)
      ∙ ap (finish (total ts)) run
      ∙ finish_full (expand ts []) (total ts) size)

finish_short :
    (w : Bytes) (spare : ℕ)
    → finish (length w + suc spare) (ok (buffer [] w (suc spare)))
      ≡ panic (lzf_mismatch (length w + suc spare) (length w))
finish_short w spare =
    let differs : (length w == length w + suc spare) ≡ false = ground arith in rw differs refl

-- A wrong output length is found out: told a length that is greater than that of what the tokens
-- mean, the decoder does not pad its output but panics, and reports the two lengths.
pub lzf_decompress_too_long :
    (ts : List Token) (spare : ℕ)
    → Fits ts []
    → lzf_decompress (put_tokens ts) (pos (length (expand ts []) + suc spare))
      ≡ panic (lzf_mismatch (length (expand ts []) + suc spare) (length (expand ts [])))
unfolding lzf_decompress
lzf_decompress_too_long ts spare h =
    let size : total ts ≡ length (expand ts []) = omega (arith, length-expand ts []) in
    let run : loop (length (put_tokens ts))
          (buffer (put_tokens ts) [] (length (expand ts []) + suc spare))
        ≡ ok (buffer [] (expand ts []) (suc spare)) =
      ap (λ n. loop (length (put_tokens ts)) (buffer (put_tokens ts) [] (n + suc spare))) (sym size)
      ∙ loop-buffer ts [] (suc spare) (length (put_tokens ts)) h (length-put_tokens ts) in
    ap (finish (length (expand ts []) + suc spare)) run ∙ finish_short (expand ts []) spare
