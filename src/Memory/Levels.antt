-- ===== src/Memory/Levels.antt =====
-- The levels of a skip list.
use redis_agent.Common.{
  ℕ, zero, suc, ◌+◌, ◌*◌, ◌/◌, ◌^◌, ◌<◌, ◌≤◌, leb, Bool-cases, inl, inr, List, [], ◌∷◌, length,
  get_or, All, ◌≡◌, sym, ◌∙◌, ap, arith, leb→le,
}
use redis_agent.Memory.{levels_from, gen_level_and_level_size}
use native.Mathlib.Nat.{pow-suc, zero-div, div-one, div-div-eq-div-mul}

abbrev pub sum : List ℕ → ℕ
sum [] = 0
sum (x ∷ xs) = x + sum xs

levels_from-get : (fuel n k : ℕ) → n < 4 ^ fuel → get_or (levels_from fuel n) k 0 ≡ n / 4 ^ k
unfolding levels_from
levels_from-get zero n k h =
    let none_left : n ≡ 0 = omega arith in rw none_left (sym (zero-div (4 ^ k)))
levels_from-get (suc fuel) n k h = elim (Bool-cases (leb 1 n)) [
  | inl more ↦
      rw more (step k (λ j. levels_from-get fuel (n / 4) j (omega (arith, pow-suc 4 fuel))))
  | inr done ↦ let none_left : n ≡ 0 = ground arith in rw (done, none_left) (sym (zero-div (4 ^ k)))
]
  where
    step :
        (k : ℕ)
        → ((j : ℕ) → get_or (levels_from fuel (n / 4)) j 0 ≡ n / 4 / 4 ^ j)
        → get_or (n ∷ levels_from fuel (n / 4)) k 0 ≡ n / 4 ^ k
    step zero ih = sym (div-one n)
    step (suc j) ih =
        ih j ∙ div-div-eq-div-mul n 4 (4 ^ j) ∙ ap (λ t. n / t) (rw (pow-suc 4 j) (omega arith))

levels_from-bounds :
    (fuel n : ℕ)
    → All (λ c. 1 ≤ c) (levels_from fuel n)
      × (length (levels_from fuel n) ≤ fuel)
      × (3 * sum (levels_from fuel n) ≤ 4 * n)
unfolding levels_from
levels_from-bounds zero n = (tt, omega arith, omega arith)
levels_from-bounds (suc fuel) n = elim (Bool-cases (leb 1 n)) [
  | inl more ↦
      let (pos_all, len, total) = levels_from-bounds fuel (n / 4) in
      rw more ((leb→le _ _ more, pos_all), omega arith, omega arith)
  | inr done ↦ rw done (tt, omega arith, omega arith)
]

-- Level k of the skip list that `GenLevelAndLevelSize` lays out for a `uint64` of elements holds a
-- 4 ^ k-th of them, rounded down, until that is 0: no more than 32 levels, none of them empty, and
-- together at most four thirds of the elements.
pub gen_level_and_level_size_lem :
    (n : ℕ)
    → n < 2 ^ 64
    → ((k : ℕ) → get_or (gen_level_and_level_size n) k 0 ≡ n / 4 ^ k)
      × All (λ c. 1 ≤ c) (gen_level_and_level_size n)
      × (length (gen_level_and_level_size n) ≤ 32)
      × (3 * sum (gen_level_and_level_size n) ≤ 4 * n)
unfolding gen_level_and_level_size
gen_level_and_level_size_lem n h =
    let (each, few, total) = levels_from-bounds 32 n in
    (λ k. levels_from-get 32 n k (omega arith), each, few, total)
