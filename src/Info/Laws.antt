-- ===== src/Info/Laws.antt =====
-- What `ParseInfoProp` finds in a reply made of headings, empty lines and `name:value` lines.
use redis_agent.Common.{
  ℕ, ◌==◌, if◌then◌else◌, Bytes, List, [], ◌∷◌, ◌++◌, ◌≡◌, ◌≢◌, false, refl, ap, arith, All,
  same_bytes,
}
use redis_agent.Info.{onto_first, split_byte, split_lines, find_prop, parse_info_prop}

-- A line of a reply: a heading such as `# Replication`, an empty line, or `name:value`.
pub data Line : Type 0 where
  heading : Bytes → Line
  property : Bytes → Bytes → Line

abbrev pub put_lines : List Line → Bytes
put_lines [] = []
put_lines (heading t ∷ ls) = t ++ (13 ∷ 10 ∷ put_lines ls)
put_lines (property name value ∷ ls) = name ++ (58 ∷ value ++ (13 ∷ 10 ∷ put_lines ls))

-- No colon and no line break.
abbrev pub IsPlain : Bytes → Type 0
IsPlain = All (λ b. (b ≢ 58) × (b ≢ 13))

abbrev pub LineFits : Line → Type 0
LineFits (heading t) = IsPlain t
LineFits (property name value) = IsPlain name × IsPlain value

-- The value of the first line with that name.
abbrev pub first_value : Bytes → List Line → Bytes
first_value prop [] = []
first_value prop (heading t ∷ ls) = first_value prop ls
first_value prop (property name value ∷ ls) =
    if same_bytes prop name then value else first_value prop ls

split_byte-plain : (t : Bytes) → IsPlain t → split_byte 58 t ≡ t ∷ []
unfolding split_byte
split_byte-plain [] h = refl
split_byte-plain (b ∷ t) ((h, _), hs) = let rec = split_byte-plain t hs in ground (arith, rec)

split_byte-pair :
    (name value : Bytes)
    → IsPlain name
    → IsPlain value
    → split_byte 58 (name ++ (58 ∷ value)) ≡ name ∷ value ∷ []
unfolding split_byte
split_byte-pair [] value hn hv = rw (split_byte-plain value hv) refl
split_byte-pair (b ∷ name) value ((h, _), hs) hv =
    let rec = split_byte-pair name value hs hv in ground (arith, rec)

-- A line without a carriage return ends at the line break.
NoReturn : Bytes → Type 0
NoReturn = All (λ b. b ≢ 13)

==-false : (b c : ℕ) → b ≢ c → (b == c) ≡ false
==-false b c h = ground arith

split_lines-skip :
    (b c : ℕ) (s : Bytes) → b ≢ 13 → split_lines (b ∷ c ∷ s) ≡ onto_first b (split_lines (c ∷ s))
unfolding split_lines
split_lines-skip b c s h = rw (==-false b 13 h) refl

split_lines-line :
    (line rest : Bytes)
    → NoReturn line
    → split_lines (line ++ (13 ∷ 10 ∷ rest)) ≡ line ∷ split_lines rest
unfolding split_lines NoReturn
split_lines-line [] rest h = refl
split_lines-line (b ∷ []) rest (h, hs) = rw (split_lines-skip b 13 (10 ∷ rest) h) refl
split_lines-line (b ∷ c ∷ line) rest (h, hs) =
    rw (split_lines-skip b c (line ++ (13 ∷ 10 ∷ rest)) h)
      (ap (onto_first b) (split_lines-line (c ∷ line) rest hs))

no_return : (t : Bytes) → IsPlain t → NoReturn t
unfolding NoReturn
no_return [] h = tt
no_return (b ∷ t) ((_, h), hs) = (h, no_return t hs)

All-colon : (name value : Bytes) → IsPlain name → IsPlain value → NoReturn (name ++ (58 ∷ value))
unfolding NoReturn
All-colon [] value hn hv = (omega arith, no_return value hv)
All-colon (b ∷ name) value ((_, h), hs) hv = (h, All-colon name value hs hv)

append_colon :
    (name value rest : Bytes) → name ++ (58 ∷ value ++ rest) ≡ (name ++ (58 ∷ value)) ++ rest
append_colon [] value rest = refl
append_colon (b ∷ name) value rest = ap (λ t. b ∷ t) (append_colon name value rest)

-- In a reply made of lines that are headings, empty or `name:value`, none of whose texts has a
-- colon or a carriage return, the value found is that of the first line with the name asked for,
-- and the empty text where there is no such line.
pub parse_info_prop-put_lines :
    (prop : Bytes) (ls : List Line)
    → All LineFits ls
    → parse_info_prop (put_lines ls) prop ≡ first_value prop ls
unfolding parse_info_prop find_prop split_lines split_byte
parse_info_prop-put_lines prop [] h = refl
parse_info_prop-put_lines prop (heading t ∷ ls) (ht, hs) =
    rw (split_lines-line t (put_lines ls) (no_return t ht), split_byte-plain t ht)
      (parse_info_prop-put_lines prop ls hs)
parse_info_prop-put_lines prop (property name value ∷ ls) ((hn, hv), hs) =
    rw
      (
        append_colon name value (13 ∷ 10 ∷ put_lines ls),
        split_lines-line (name ++ (58 ∷ value)) (put_lines ls) (All-colon name value hn hv),
        split_byte-pair name value hn hv,
      )
      (ap (λ r. if same_bytes prop name then value else r) (parse_info_prop-put_lines prop ls hs))
