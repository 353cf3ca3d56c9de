-- ===== src/Objects/ZsetObject/Load.antt =====
-- What `LoadFromBuffer` makes of the two plain encodings of a sorted set.
use redis_agent.Common.{
  ℕ, ◌^◌, ◌<◌, ◌==◌, false, Bytes, List, ◌∷◌, ◌++◌, map, length, Option, none, some, ◌≡◌, refl, sym,
  ◌∙◌, ap, arith, All,
}
use redis_agent.Reader.{ok, Reader, lift, read_full, read_bytes, read_byte}
use redis_agent.Reader.Laws.{bind_ok, repeat_read-put_all, read_full_append}
use redis_agent.Numbers.{le_value, read_uint8}
use redis_agent.Numbers.Laws.{le_bytes}
use redis_agent.Length.{read_length}
use redis_agent.Length.RoundTrip.{read_length-put_length}
use redis_agent.Length.Counted.{put_counted, int_of_small}
use redis_agent.Text.{read_string}
use redis_agent.Text.RoundTrip.{put_raw, read_string-put_raw}
use redis_agent.Objects.ZsetObject.{
  FloatOps, ZsetEntry, parsed, read_float, read_float_from, read_double, read_scored, read_zset,
  read_elements, load_from_buffer,
}

-- A score of the older format: one of three marks, or a text that is parsed.
pub data Score : Type 0 where
  score_nan score_pos_inf score_neg_inf : Score
  score_text : Bytes → Score

abbrev pub put_score : Score → Bytes → Bytes
put_score score_nan s = 253 ∷ s
put_score score_pos_inf s = 254 ∷ s
put_score score_neg_inf s = 255 ∷ s
put_score (score_text t) s = length t ∷ t ++ s

abbrev pub put_scored : {X : Type 0} → (X → Bytes → Bytes) → Bytes × X → Bytes → Bytes
put_scored put (m, x) s = put_raw m (put x s)

abbrev pub ScoredFits : {X : Type 0} → (X → Type 0) → Bytes × X → Type 0
ScoredFits P (m, x) = (length m < 2 ^ 63) × P x

module _ (ops : FloatOps) where
  open ops use {Float, nan, pos_inf, neg_inf, zero_float, parse_float, from_bits, format_float}

  abbrev pub or_zero : Option Float → Float
  or_zero none = zero_float
  or_zero (some v) = v

  abbrev pub value_of : Score → Float
  value_of score_nan = nan
  value_of score_pos_inf = pos_inf
  value_of score_neg_inf = neg_inf
  value_of (score_text t) = or_zero (parse_float t)

  abbrev pub ScoreFits : Score → Type 0
  ScoreFits score_nan = Unit
  ScoreFits score_pos_inf = Unit
  ScoreFits score_neg_inf = Unit
  ScoreFits (score_text t) = (length t < 253) × ((v : Float) × (parse_float t ≡ some v))

  digits_of-parsed :
      (o : Option Float) (v : Float) (s : Bytes)
      → o ≡ some v
      → lift (parsed ops o) s ≡ ok (or_zero o, s)
  digits_of-parsed o v s e = ap (λ p. lift (parsed ops p) s) e ∙ sym (ap (λ p. ok (or_zero p, s)) e)

  read_float-put_score :
      (x : Score) (s : Bytes) → ScoreFits x → read_float ops (put_score x s) ≡ ok (value_of x, s)
  unfolding read_float read_float_from read_uint8 read_byte
  read_float-put_score score_nan s h = refl
  read_float-put_score score_pos_inf s h = refl
  read_float-put_score score_neg_inf s h = refl
  read_float-put_score (score_text t) s (h, (v, parses)) =
      let a : (length t == 253) ≡ false = ground arith in
      let b : (length t == 254) ≡ false = ground arith in
      let c : (length t == 255) ≡ false = ground arith in
      rw (a, b, c, read_full_append t s) (digits_of-parsed (parse_float t) v s parses)

  read_double-le_bytes :
      (bits : ℕ) (s : Bytes)
      → bits < 2 ^ 64
      → read_double ops (le_bytes 8 bits ++ s) ≡ ok (from_bits bits, s)
  unfolding read_double read_bytes read_full
  read_double-le_bytes bits s h = ap (λ n. ok (from_bits n, s)) (same bits h)
    where
      same : (n : ℕ) → n < 2 ^ 64 → le_value (le_bytes 8 n) ≡ n
      same n h = omega arith

  -- A member with the print of its score.
  abbrev pub scored : {X : Type 0} → (X → Float) → Bytes × X → ZsetEntry
  scored value (m, x) = record { member = m; score = format_float (value x) }

  -- Members with scores of either format.
  module _ {X : Type 0} (read : Reader Float) (put : X → Bytes → Bytes) (value : X → Float)
      (P : X → Type 0) (reads : (x : X) (s : Bytes) → P x → read (put x s) ≡ ok (value x, s)) where
    read_scored-put_scored :
        (e : Bytes × X) (s : Bytes)
        → ScoredFits P e
        → read_scored ops read (put_scored put e s) ≡ ok (scored value e, s)
    unfolding read_scored
    read_scored-put_scored (m, x) s (hm, hx) =
        bind_ok read_string _ _ (read_string-put_raw m _ hm) ∙ bind_ok read _ _ (reads x s hx)

    read_zset-put_scored :
        (es : List (Bytes × X)) (s : Bytes)
        → length es < 2 ^ 63
        → All (ScoredFits P) es
        → read_zset ops read (put_counted (put_scored put) es s) ≡ ok (map (scored value) es, s)
    unfolding read_zset
    read_zset-put_scored es s n h =
        bind_ok read_length _ _ (read_length-put_length (length es) _ (omega arith))
        ∙ rw (int_of_small (length es) n) (
            repeat_read-put_all (read_scored ops read) (put_scored put) (scored value)
              (ScoredFits P) read_scored-put_scored es s h)

-- A sorted set with the scores in the older or the newer format.
pub data Plain : Type 0 where
  with_texts : List (Bytes × Score) → Plain
  with_doubles : List (Bytes × ℕ) → Plain

abbrev pub plain_type : Plain → ℕ
plain_type (with_texts es) = 3
plain_type (with_doubles es) = 5

abbrev pub put_double : ℕ → Bytes → Bytes
put_double bits s = le_bytes 8 bits ++ s

abbrev pub put_plain : Plain → Bytes → Bytes
put_plain (with_texts es) s = put_counted (put_scored put_score) es s
put_plain (with_doubles es) s = put_counted (put_scored put_double) es s

abbrev pub PlainFits : FloatOps → Plain → Type 0
PlainFits ops (with_texts es) = (length es < 2 ^ 63) × All (ScoredFits (ScoreFits ops)) es
PlainFits ops (with_doubles es) = (length es < 2 ^ 63) × All (ScoredFits (λ bits. bits < 2 ^ 64)) es

abbrev pub plain_elements : FloatOps → Plain → List ZsetEntry
plain_elements ops (with_texts es) = map (scored ops (value_of ops)) es
plain_elements ops (with_doubles es) = map (scored ops ops.from_bits) es

-- A plain sorted set of fewer than 2 ^ 63 members is loaded, and what follows it is left, as its
-- members in order, each with the print of its score: of the bits of a double in the newer format,
-- and in the older one of the marks for infinities and no number or of what the text is parsed to.
pub load_from_buffer-put_plain :
    (ops : FloatOps) (key : Bytes) (z : Plain) (s : Bytes)
    → PlainFits ops z
    → load_from_buffer ops key (plain_type z) (put_plain z s)
      ≡ ok (record { key = key; elements = plain_elements ops z }, s)
unfolding load_from_buffer read_elements
load_from_buffer-put_plain ops key (with_texts es) s (n, h) = bind_ok (read_elements ops 3) _ _ (
    read_zset-put_scored ops (read_float ops) put_score (value_of ops) (ScoreFits ops)
      (read_float-put_score ops) es s n h)
load_from_buffer-put_plain ops key (with_doubles es) s (n, h) = bind_ok (read_elements ops 5) _ _ (
    read_zset-put_scored ops (read_double ops) put_double ops.from_bits (λ bits. bits < 2 ^ 64)
      (read_double-le_bytes ops) es s n h)
