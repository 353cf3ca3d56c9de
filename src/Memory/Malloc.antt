-- ===== src/Memory/Malloc.antt =====
-- `MallocOverhead` picks the least size class that is large enough, although the table of classes
-- repeats four of them out of order.
use redis_agent.Common.{
  ℕ, zero, suc, ◌-◌, ◌<◌, ◌≤◌, ltb, leb, leb→le, ltb→lt, Bool, true, false, not, ◌&&◌, ◌||◌,
  Bool-cases, ◌⊎◌, inl, inr, List, [], ◌∷◌, length, get_or, ◌≡◌, refl, arith,
}
use redis_agent.Memory.{jemalloc_size_classes, sort_search, malloc_in, malloc_overhead}
use redis_agent.Memory.Search.{sort_search-Boundary}

leb_false→lt : (a b : ℕ) → leb a b ≡ false → b < a
leb_false→lt a b h = ground arith

-- No class lies between a and b.
no_gap : ℕ → ℕ → List ℕ → Bool
no_gap a b [] = true
no_gap a b (c ∷ cs) = (not (ltb a c) || leb b c) && no_gap a b cs

-- So for every two neighbours of a table.
no_gaps : List ℕ → List ℕ → Bool
no_gaps whole [] = true
no_gaps whole (a ∷ []) = true
no_gaps whole (a ∷ b ∷ rest) = no_gap a b whole && no_gaps whole (b ∷ rest)

no_gap_sound :
    (a b : ℕ) (cs : List ℕ) (i : ℕ)
    → no_gap a b cs ≡ true
    → i < length cs
    → a < get_or cs i 0
    → b ≤ get_or cs i 0
unfolding no_gap
no_gap_sound a b [] i h k lt = absurd (omega arith)
no_gap_sound a b (c ∷ cs) zero h k lt = ground arith
no_gap_sound a b (c ∷ cs) (suc i) h k lt = ground (arith, no_gap_sound a b cs i)

no_gaps_sound :
    (whole cs : List ℕ) (r i : ℕ)
    → no_gaps whole cs ≡ true
    → suc r < length cs
    → i < length whole
    → get_or cs r 0 < get_or whole i 0
    → get_or cs (suc r) 0 ≤ get_or whole i 0
unfolding no_gaps
no_gaps_sound whole [] r i h kr ki lt = absurd (omega arith)
no_gaps_sound whole (a ∷ []) r i h kr ki lt = absurd (omega arith)
no_gaps_sound whole (a ∷ b ∷ rest) zero i h kr ki lt = no_gap_sound a b whole i (ground arith) ki lt
no_gaps_sound whole (a ∷ b ∷ rest) (suc r) i h kr ki lt =
    no_gaps_sound whole (b ∷ rest) r i (ground arith) (omega arith) ki lt

-- No class is below the first.
none_below : ℕ → List ℕ → Bool
none_below a [] = true
none_below a (c ∷ cs) = leb a c && none_below a cs

none_below_sound :
    (a : ℕ) (cs : List ℕ) (i : ℕ) → none_below a cs ≡ true → i < length cs → a ≤ get_or cs i 0
unfolding none_below
none_below_sound a [] i h k = absurd (omega arith)
none_below_sound a (c ∷ cs) zero h k = ground arith
none_below_sound a (c ∷ cs) (suc i) h k = ground (arith, none_below_sound a cs i)

-- No class is above a.
none_above : ℕ → List ℕ → Bool
none_above a [] = true
none_above a (c ∷ cs) = leb c a && none_above a cs

none_above_sound :
    (a : ℕ) (cs : List ℕ) (i : ℕ) → none_above a cs ≡ true → i < length cs → get_or cs i 0 ≤ a
unfolding none_above
none_above_sound a [] i h k = absurd (omega arith)
none_above_sound a (c ∷ cs) zero h k = ground arith
none_above_sound a (c ∷ cs) (suc i) h k = ground (arith, none_above_sound a cs i)

-- An answer for `size`: the least class that holds it, or, above all classes, the size itself.
pub record LeastClass (classes : List ℕ) (size answer : ℕ) : Type 0 where
  pub enough : size ≤ answer
  pub least : (i : ℕ) → i < length classes → size ≤ get_or classes i 0 → answer ≤ get_or classes i 0
  pub origin :
      ((i : ℕ) × (i < length classes) × (answer ≡ get_or classes i 0))
      ⊎ ((answer ≡ size) × ((i : ℕ) → i < length classes → get_or classes i 0 < size))

module _ (classes : List ℕ) (first last : ℕ) (starts : get_or classes 0 0 ≡ first)
    (ends : get_or classes (length classes - 1) 0 ≡ last) (inhabited : 0 < length classes)
    (bottom : none_below first classes ≡ true) (top : none_above last classes ≡ true)
    (gaps : no_gaps classes classes ≡ true) where
  chosen :
      (size r : ℕ)
      → r < length classes
      → size ≤ get_or classes r 0
      → (0 < r → get_or classes (r - 1) 0 < size)
      → LeastClass classes size (get_or classes r 0)
  chosen size zero k hit miss = record {
    enough = hit;
    least = λ i ki fits. rw starts (none_below_sound first classes i bottom ki);
    origin = inl (0, k, refl);
  }
  chosen size (suc r) k hit miss =
      let before : suc r - 1 ≡ r = omega arith in
      let lower : get_or classes r 0 < size = rw before at (miss (omega arith)) in
      record {
        enough = hit;
        least =
            λ i ki fits. no_gaps_sound classes classes r i gaps k ki (omega (arith, lower, fits));
        origin = inl (suc r, k, refl);
      }

  beyond : (size : ℕ) → get_or classes (length classes - 1) 0 < size → LeastClass classes size size
  beyond size over = record {
    enough = omega arith;
    least = λ i ki fits. fits;
    origin = inr (refl, λ i ki. omega (arith, none_above_sound last classes i top ki, ends, over));
  }

  malloc_in-LeastClass : (size : ℕ) → LeastClass classes size (malloc_in classes size)
  unfolding malloc_in
  malloc_in-LeastClass size =
      let test : ℕ → Bool = λ i. leb size (get_or classes i 0) in
      let r = sort_search (length classes) test in
      let b = sort_search-Boundary (length classes) test in
      elim (Bool-cases (ltb r (length classes))) [
        | inl inside ↦
            let k : r < length classes = ltb→lt _ _ inside in
            rw inside
              (chosen size r k (leb→le size _ (b.hit k)) (λ lt. leb_false→lt size _ (b.miss lt)))
        | inr outside ↦
            let e : r ≡ length classes = ground (arith, b.below) in
            rw outside
              (beyond size (leb_false→lt size _ (rw e at (b.miss (omega (arith, e, inhabited))))))
      ]

jemalloc_no_gaps : no_gaps jemalloc_size_classes jemalloc_size_classes ≡ true
unfolding no_gaps no_gap
jemalloc_no_gaps = refl

jemalloc_bottom : none_below 8 jemalloc_size_classes ≡ true
unfolding none_below
jemalloc_bottom = refl

jemalloc_top : none_above 17592186044416 jemalloc_size_classes ≡ true
unfolding none_above
jemalloc_top = refl

-- Whatever the request, `MallocOverhead` answers with the least size class that holds it, or, if it
-- is above all classes, with the request itself.
pub malloc_overhead-LeastClass :
    (size : ℕ) → LeastClass jemalloc_size_classes size (malloc_overhead size)
unfolding malloc_overhead
malloc_overhead-LeastClass =
    malloc_in-LeastClass jemalloc_size_classes 8 17592186044416 refl refl (omega arith)
      jemalloc_bottom jemalloc_top jemalloc_no_gaps

LeastClass-mono :
    (cs : List ℕ) {s t a b : ℕ} → s ≤ t → LeastClass cs s a → LeastClass cs t b → a ≤ b
LeastClass-mono cs {s} {t} {a} {b} h la lb = go lb.origin la.origin
  where
    go :
        ((i : ℕ) × (i < length cs) × (b ≡ get_or cs i 0))
          ⊎ ((b ≡ t) × ((i : ℕ) → i < length cs → get_or cs i 0 < t))
        → ((i : ℕ) × (i < length cs) × (a ≡ get_or cs i 0))
          ⊎ ((a ≡ s) × ((i : ℕ) → i < length cs → get_or cs i 0 < s))
        → a ≤ b
    go (inl (i, ki, e)) o = rw e (la.least i ki (omega (arith, lb.enough, e, h)))
    go (inr (e, over)) (inl (j, kj, d)) = omega (arith, over j kj)
    go (inr (e, over)) (inr (d, below)) = omega arith

LeastClass-twice : (cs : List ℕ) {s a b : ℕ} → LeastClass cs s a → LeastClass cs a b → b ≡ a
LeastClass-twice cs {s} {a} {b} la lb = go la.origin lb.origin
  where
    go :
        ((i : ℕ) × (i < length cs) × (a ≡ get_or cs i 0))
          ⊎ ((a ≡ s) × ((i : ℕ) → i < length cs → get_or cs i 0 < s))
        → ((i : ℕ) × (i < length cs) × (b ≡ get_or cs i 0))
          ⊎ ((b ≡ a) × ((i : ℕ) → i < length cs → get_or cs i 0 < a))
        → b ≡ a
    go (inl (i, ki, e)) o = omega (arith, lb.least i ki (omega (arith, e)), lb.enough, e)
    go (inr (e, over)) (inl (j, kj, d)) = omega (arith, over j kj, lb.enough)
    go (inr (e, over)) (inr (d, below)) = d

-- Of two requests `MallocOverhead` answers the larger one with at least as much.
pub malloc_overhead_mono : (s t : ℕ) → s ≤ t → malloc_overhead s ≤ malloc_overhead t
malloc_overhead_mono s t h =
    LeastClass-mono jemalloc_size_classes h (malloc_overhead-LeastClass s)
      (malloc_overhead-LeastClass t)

-- Rounding what has been rounded changes nothing.
pub malloc_overhead_twice : (s : ℕ) → malloc_overhead (malloc_overhead s) ≡ malloc_overhead s
malloc_overhead_twice s =
    LeastClass-twice jemalloc_size_classes (malloc_overhead-LeastClass s)
      (malloc_overhead-LeastClass (malloc_overhead s))
