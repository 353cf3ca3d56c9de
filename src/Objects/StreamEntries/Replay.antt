-- ===== src/Objects/StreamEntries/Replay.antt =====
-- The entries of a listpack as Redis writes them (`streamAppendItem`), and the commands of the live
-- ones.
use redis_agent.Common.{
  ℕ, zero, suc, ◌*◌, ◌^◌, ◌<◌, ◌≤◌, leb, ◌&&◌, if◌then◌else◌, Bool, true, false, Bytes, List, [],
  ◌∷◌, ◌++◌, length, length-append, take, drop, codes, ◌≡◌, refl, ◌∙◌, ap, arith, All,
}
use redis_agent.Common.Int.{ℤ, pos, negsuc, add64, is_zero}
use redis_agent.Reader.{ok}
use redis_agent.Numbers.Laws.{Fits}
use redis_agent.Decimal.{format_int, parse_int}
use redis_agent.Decimal.RoundTrip.{parse_int-format_int}
use redis_agent.Objects.{RedisCmd}
use redis_agent.Objects.StreamEntries.{
  Cursor, give, ◌>>=◌, next_string, number_of, next_integer, next_slice, same_fields, own_fields,
  entry_fields, Master, xadd, read_entry, count_entry, read_entries, read_elements,
}

-- An entry has a value for each field of the master entry, or fields of its own.
pub data Body : Type 0 where
  shared : List Bytes → Body
  own : List (Bytes × Bytes) → Body

pub record Item : Type 0 where
  pub removed : Bool
  pub ms : ℤ
  pub seq : ℤ
  pub body : Body
  pub lp_count : Bytes

abbrev pub flat : List (Bytes × Bytes) → List Bytes
flat [] = []
flat ((k, v) ∷ ps) = k ∷ v ∷ flat ps

abbrev pub interleave : List Bytes → List Bytes → List Bytes
interleave [] vs = []
interleave (f ∷ fs) [] = []
interleave (f ∷ fs) (v ∷ vs) = f ∷ v ∷ interleave fs vs

abbrev pub arguments : List Bytes → Body → List Bytes
arguments fields (shared vs) = interleave fields vs
arguments fields (own ps) = flat ps

abbrev pub put_body : Body → List Bytes → List Bytes
put_body (shared vs) es = vs ++ es
put_body (own ps) es = format_int (pos (length ps)) ∷ (flat ps ++ es)

abbrev pub flags_of : Bool → Body → ℕ
flags_of false (own ps) = 0
flags_of true (own ps) = 1
flags_of false (shared vs) = 2
flags_of true (shared vs) = 3

abbrev pub put_item : Item → List Bytes → List Bytes
put_item i es =
    format_int (pos (flags_of i.removed i.body))
    ∷ format_int i.ms
    ∷ format_int i.seq
    ∷ put_body i.body (i.lp_count ∷ es)

abbrev pub put_items : List Item → List Bytes → List Bytes
put_items [] es = es
put_items (i ∷ is) es = put_item i (put_items is es)

abbrev pub BodyFits : List Bytes → Body → Type 0
BodyFits fields (shared vs) = length vs ≡ length fields
BodyFits fields (own ps) = length ps < 2 ^ 62

pub record ItemFits (fields : List Bytes) (i : Item) : Type 0 where
  pub ms_fits : Fits 64 i.ms
  pub seq_fits : Fits 64 i.seq
  pub body_fits : BodyFits fields i.body

-- The commands of the entries that are not removed, in order, and how many of each kind there are.
abbrev pub command_of : Bytes → Master → Item → RedisCmd
command_of master_key m i = xadd master_key m i.ms i.seq (arguments m.fields i.body)

abbrev pub cons_if : Bool → RedisCmd → List RedisCmd → List RedisCmd
cons_if removed cmd cmds = if removed then cmds else cmd ∷ cmds

abbrev pub live_commands : Bytes → Master → List Item → List RedisCmd
live_commands master_key m [] = []
live_commands master_key m (i ∷ is) =
    cons_if i.removed (command_of master_key m i) (live_commands master_key m is)

abbrev pub live : List Item → ℕ
live [] = 0
live (i ∷ is) = if i.removed then live is else suc (live is)

abbrev pub dead : List Item → ℕ
dead [] = 0
dead (i ∷ is) = if i.removed then suc (dead is) else dead is

bind_ok :
    {A B : Type 0} (m : Cursor A) (f : A → Cursor B) (es : List Bytes) {a : A} {es' : List Bytes}
    → m es ≡ ok (a, es')
    → (m >>= f) es ≡ f a es'
bind_ok m f es h = rw (h, ◌>>=◌)

next_integer-format_int :
    (z : ℤ) (es : List Bytes) → Fits 64 z → next_integer (format_int z ∷ es) ≡ ok (z, es)
unfolding next_integer
next_integer-format_int z es h =
    bind_ok next_string (λ ele. number_of (parse_int ele)) (format_int z ∷ es) refl
    ∙ ap (λ o. number_of o es) (parse_int-format_int z h)

next_string_lem : (e : Bytes) (es : List Bytes) → next_string (e ∷ es) ≡ ok (e, es)
unfolding next_string
next_string_lem e es = refl

same_fields-append :
    (fs vs es : List Bytes)
    → length vs ≡ length fs
    → same_fields fs (vs ++ es) ≡ ok (interleave fs vs, es)
unfolding same_fields next_string
same_fields-append [] [] es h = refl
same_fields-append [] (v ∷ vs) es h = absurd (omega arith)
same_fields-append (f ∷ fs) [] es h = absurd (omega arith)
same_fields-append (f ∷ fs) (v ∷ vs) es h =
    bind_ok (same_fields fs) (λ rest. give (f ∷ v ∷ rest)) (vs ++ es)
      (same_fields-append fs vs es (omega arith))

take-append : (xs es : List Bytes) → take (length xs) (xs ++ es) ≡ xs
take-append [] es = refl
take-append (x ∷ xs) es = ap (λ r. x ∷ r) (take-append xs es)

drop-append : (xs es : List Bytes) → drop (length xs) (xs ++ es) ≡ es
drop-append [] es = refl
drop-append (x ∷ xs) es = drop-append xs es

next_slice-append :
    (n : ℕ) (xs es : List Bytes) → n ≡ length xs → next_slice (pos n) (xs ++ es) ≡ ok (xs, es)
unfolding next_slice
next_slice-append n xs es h =
    let room : leb (length xs) (length (xs ++ es)) ≡ true = ground (arith, length-append xs es) in
    rw (h, room, take-append xs es, drop-append xs es)

length-flat : (ps : List (Bytes × Bytes)) → length (flat ps) ≡ 2 * length ps
length-flat [] = omega arith
length-flat ((k, v) ∷ ps) = omega (arith, length-flat ps)

double : (n : ℕ) → n < 2 ^ 62 → add64 (pos n) (pos n) ≡ pos (2 * n)
unfolding add64
double n h = ground arith

-- One less, which is how a count goes down.
one_less : (n : ℕ) → n < 2 ^ 63 → add64 (pos (suc n)) (negsuc 0) ≡ pos n
unfolding add64
one_less n h = ground arith

own_fields-flat :
    (ps : List (Bytes × Bytes)) (es : List Bytes)
    → length ps < 2 ^ 62
    → own_fields (format_int (pos (length ps)) ∷ (flat ps ++ es)) ≡ ok (flat ps, es)
unfolding own_fields
own_fields-flat ps es h =
    bind_ok next_integer (λ num. next_slice (add64 num num)) _
      (next_integer-format_int (pos (length ps)) (flat ps ++ es) (omega arith))
    ∙ rw (double (length ps) h)
        (next_slice-append (2 * length ps) (flat ps) es (omega (arith, length-flat ps)))

entry_fields-put_body :
    (fields : List Bytes) (removed : Bool) (b : Body) (es : List Bytes)
    → BodyFits fields b
    → entry_fields (pos (flags_of removed b)) fields (put_body b es) ≡ ok (arguments fields b, es)
unfolding entry_fields
entry_fields-put_body fields false (shared vs) es h = same_fields-append fields vs es h
entry_fields-put_body fields true (shared vs) es h = same_fields-append fields vs es h
entry_fields-put_body fields false (own ps) es h = own_fields-flat ps es h
entry_fields-put_body fields true (own ps) es h = own_fields-flat ps es h

flags_small : (removed : Bool) (b : Body) → flags_of removed b < 2 ^ 63
flags_small false (own ps) = omega arith
flags_small true (own ps) = omega arith
flags_small false (shared vs) = omega arith
flags_small true (shared vs) = omega arith

read_entry-put_item :
    (key : Bytes) (m : Master) (i : Item) (es : List Bytes)
    → ItemFits m.fields i
    → read_entry key m (put_item i es)
      ≡ ok ((pos (flags_of i.removed i.body), command_of key m i), es)
unfolding read_entry
read_entry-put_item key m i es h =
    bind_ok next_integer _ _
      (next_integer-format_int (pos (flags_of i.removed i.body)) _ (flags_small i.removed i.body))
    ∙ bind_ok next_integer _ _ (next_integer-format_int i.ms _ h.ms_fits)
    ∙ bind_ok next_integer _ _ (next_integer-format_int i.seq _ h.seq_fits)
    ∙ bind_ok (entry_fields (pos (flags_of i.removed i.body)) m.fields) _ _
        (entry_fields-put_body m.fields i.removed i.body (i.lp_count ∷ es) h.body_fits)
    ∙ unfold next_string in refl

-- What a round leaves to the loop.
count_entry-put_item :
    (more : ℤ → ℤ → Cursor (List RedisCmd)) (removed : Bool) (b : Body) (n k : ℕ) (cmd : RedisCmd)
    (cmds : List RedisCmd) (es es' : List Bytes)
    → n < 2 ^ 62
    → k < 2 ^ 62
    → more (pos n) (pos k) es ≡ ok (cmds, es')
    → count_entry more
        (pos (if removed then n else suc n))
        (pos (if removed then suc k else k))
        (pos (flags_of removed b), cmd)
        es
      ≡ ok (cons_if removed cmd cmds, es')
unfolding count_entry
count_entry-put_item more true (shared vs) n k cmd cmds es es' hn hk h =
    rw (one_less k (omega arith)) h
count_entry-put_item more true (own ps) n k cmd cmds es es' hn hk h =
    rw (one_less k (omega arith)) h
count_entry-put_item more false (shared vs) n k cmd cmds es es' hn hk h =
    rw (one_less n (omega arith)) (bind_ok (more (pos n) (pos k)) _ es h)
count_entry-put_item more false (own ps) n k cmd cmds es es' hn hk h =
    rw (one_less n (omega arith)) (bind_ok (more (pos n) (pos k)) _ es h)

live-le : (is : List Item) → live is ≤ length is
live-le [] = omega arith
live-le (i ∷ is) = ground (arith, live-le is)

dead-le : (is : List Item) → dead is ≤ length is
dead-le [] = omega arith
dead-le (i ∷ is) = ground (arith, dead-le is)

unfinished :
    (removed : Bool) (n k : ℕ)
    → (is_zero (pos (if removed then n else suc n)) && is_zero (pos (if removed then suc k else k)))
      ≡ false
unfinished true n k = ground arith
unfinished false n k = ground arith

read_entries-put_items :
    (fuel : ℕ) (key : Bytes) (m : Master) (is : List Item) (es : List Bytes)
    → length is < fuel
    → length is < 2 ^ 62
    → All (ItemFits m.fields) is
    → read_entries fuel key m (pos (live is)) (pos (dead is)) (put_items is es)
      ≡ ok (live_commands key m is, es)
unfolding read_entries
read_entries-put_items zero key m is es h n fits = absurd (omega arith)
read_entries-put_items (suc fuel) key m [] es h n fits = refl
read_entries-put_items (suc fuel) key m (i ∷ is) es h n (fit, fits) =
    rw (unfinished i.removed (live is) (dead is)) (
      bind_ok (read_entry key m) _ _ (read_entry-put_item key m i (put_items is es) fit)
      ∙ count_entry-put_item (read_entries fuel key m) i.removed i.body (live is) (dead is)
          (command_of key m i) (live_commands key m is) (put_items is es) es
          (omega (arith, live-le is)) (omega (arith, dead-le is))
          (read_entries-put_items fuel key m is es (omega arith) (omega arith) fits))

length-put_items : (is : List Item) (es : List Bytes) → length is ≤ length (put_items is es)
length-put_items [] es = omega arith
length-put_items (i ∷ is) es =
    let rec = length-put_items is es in
    let grows = put_body_grows i.body (i.lp_count ∷ put_items is es) in omega arith
  where
    put_body_grows : (b : Body) (xs : List Bytes) → length xs ≤ length (put_body b xs)
    put_body_grows (shared vs) xs = omega (arith, length-append vs xs)
    put_body_grows (own ps) xs = omega (arith, length-append (flat ps) xs)

-- A listpack of a stream: the counts, the shared fields, a zero and the entries.
abbrev pub put_listpack_elements : List Bytes → List Item → List Bytes → List Bytes
put_listpack_elements fields is es =
    format_int (pos (live is))
    ∷ format_int (pos (dead is))
    ∷ format_int (pos (length fields))
    ∷ (fields ++ codes "0" ∷ put_items is es)

pub read_elements-put_listpack_elements :
    (key : Bytes) (ms seq : ℤ) (fields : List Bytes) (is : List Item) (es : List Bytes)
    → length fields < 2 ^ 62
    → length is < 2 ^ 62
    → All (ItemFits fields) is
    → read_elements key ms seq (put_listpack_elements fields is es)
      ≡ ok (live_commands key (record { master_ms = ms; master_seq = seq; fields = fields }) is, es)
unfolding read_elements
read_elements-put_listpack_elements key ms seq fields is es nf n fits =
    let m : Master = record { master_ms = ms; master_seq = seq; fields = fields } in
    bind_ok next_integer _ _ (next_integer-format_int (pos (live is)) _ (omega (arith, live-le is)))
    ∙ bind_ok next_integer _ _
        (next_integer-format_int (pos (dead is)) _ (omega (arith, dead-le is)))
    ∙ bind_ok next_integer _ _ (next_integer-format_int (pos (length fields)) _ (omega arith))
    ∙ bind_ok (next_slice (pos (length fields))) _ _
        (next_slice-append (length fields) fields (codes "0" ∷ put_items is es) refl)
    ∙ bind_ok next_string _ (codes "0" ∷ put_items is es)
        (next_string_lem (codes "0") (put_items is es))
    ∙ read_entries-put_items (suc (length (put_items is es))) key m is es
        (omega (arith, length-put_items is es)) n fits
