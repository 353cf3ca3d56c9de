-- ===== src/Memory/Random.antt =====
-- The random levels of a skip list, and the sizes of the entries of a ziplist.
use redis_agent.Common.{
  ℕ, zero, suc, ◌+◌, ◌*◌, ◌/◌, ◌%◌, ◌^◌, ◌<◌, ◌≤◌, ltb, if◌then◌else◌, Bool-cases, Bytes, length,
  none, some, ◌⊎◌, inl, inr, true, ◌≡◌, refl, ◌∙◌, ap, arith,
}
use mathlib.Core.Path.{subst}
use redis_agent.Common.Int.{ℤ, pos, negsuc}
use redis_agent.Numbers.Laws.{Fits}
use redis_agent.Decimal.{format_int, parse_int}
use redis_agent.Decimal.RoundTrip.{parse_int-format_int, parse_int-Fits}
use redis_agent.Memory.Profile.{
  rand_level_from, zset_rand_level, zsl_level_from, zsl_random_level, ziplist_entry_overhead,
  elem_of, elem_len,
}

abbrev quarter : ℕ
quarter = 65535 * 1 / 4

-- The draws from k on: n of them in the lowest quarter, then one above it.
abbrev Climbs : (ℕ → ℕ) → ℕ → ℕ → Type 0
Climbs draws k n = ((j : ℕ) → j < n → draws (k + j) < quarter) × (quarter ≤ draws (k + n))

below_next :
    (draws : ℕ → ℕ) (k n j : ℕ)
    → draws k < quarter
    → ((j : ℕ) → j < n → draws (k + 1 + j) < quarter)
    → j < suc n
    → draws (k + j) < quarter
below_next draws k n zero here low lt = subst (λ i. draws i < quarter) (omega arith) here
below_next draws k n (suc j) here low lt =
    subst (λ i. draws i < quarter) (omega arith) (low j (omega arith))

rand_level_from-Climbs :
    (draws : ℕ → ℕ) (fuel k level : ℕ)
    → ((n : ℕ) × (n < fuel)
        × Climbs draws k n
        × (rand_level_from fuel draws k level ≡ some (level + n)))
      ⊎ (((j : ℕ) → j < fuel → draws (k + j) < quarter)
          × (rand_level_from fuel draws k level ≡ none))
unfolding rand_level_from
rand_level_from-Climbs draws zero k level = inr (λ j lt. absurd (omega arith), refl)
rand_level_from-Climbs draws (suc fuel) k level = elim (Bool-cases (ltb (draws k) quarter)) [
  | inl low ↦
      let here : draws k < quarter = ground arith in
      elim (rand_level_from-Climbs draws fuel (k + 1) (level + 1)) [
        | inl (n, lt, (lows, high), made) ↦ inl (
          suc n,
          omega arith,
          (
            λ j lt'. below_next draws k n j here lows lt',
            subst (λ i. quarter ≤ draws i) {x = k + 1 + n} (omega arith) high,
          ),
          rw low (made ∙ ap some (omega arith)),
        )
        | inr (lows, made) ↦ inr (λ j lt'. below_next draws k fuel j here lows lt', rw low made)
      ]
  | inr high ↦ inl (
    zero,
    omega arith,
    (
      λ j lt. absurd (omega arith),
      subst (λ i. quarter ≤ draws i) {x = k} (omega arith) (ground arith),
    ),
    rw high (ap some (omega arith)),
  )
]

-- The level that `zsetRandLevel` gives a node is one more than the number of draws below a quarter
-- of the range in front of the first other draw, capped at 32; it is found in as many rounds, and
-- the loop goes on just as long as every draw is below the quarter.
pub zset_rand_level_lem :
    (draws : ℕ → ℕ) (fuel : ℕ)
    → ((n : ℕ) × (n < fuel)
        × Climbs draws 0 n
        × (zset_rand_level fuel draws ≡ some (if ltb (1 + n) 32 then 1 + n else 32)))
      ⊎ (((j : ℕ) → j < fuel → draws (0 + j) < quarter) × (zset_rand_level fuel draws ≡ none))
unfolding zset_rand_level
zset_rand_level_lem draws fuel = elim (rand_level_from-Climbs draws fuel 0 1) [
  | inl (n, lt, climbs, made) ↦ inl (n, lt, climbs, rw made refl)
  | inr (lows, made) ↦ inr (lows, rw made refl)
]

zsl_level_from-endless :
    (fuel r level : ℕ) → ltb (4 * r) 65535 ≡ true → zsl_level_from fuel r level ≡ none
unfolding zsl_level_from
zsl_level_from-endless zero r level h = refl
zsl_level_from-endless (suc fuel) r level h =
    rw h (zsl_level_from-endless fuel r ((level + 1) % 2 ^ 64) h)

-- `ZslRandomLevel` draws once and its loop tests that draw again and again: for a draw in the
-- lowest quarter of the range it goes on for any number of rounds, and for each other draw the
-- level is 1, in one round. No level but 1 is ever given.
pub zsl_random_level_lem :
    (fuel draw : ℕ)
    → draw < 65535
    → ((draw ≤ 16383) × (zsl_random_level fuel draw ≡ none))
      ⊎ ((16383 < draw) × (zsl_random_level (suc fuel) draw ≡ some 1))
unfolding zsl_random_level
zsl_random_level_lem fuel draw h =
    let same : draw % 2 ^ 16 ≡ draw = omega arith in
    elim (Bool-cases (ltb (4 * draw) 65535)) [
      | inl low ↦ inl (ground arith, rw (same, zsl_level_from-endless fuel draw 1 low) refl)
      | inr high ↦ inr (ground arith, unfold zsl_level_from in rw (same, high) refl)
    ]

-- An entry of a ziplist that prints a negative `int64` is estimated at one byte, whatever its size:
-- the first bound, 12, is not a bound of the magnitude. A number from 0 on costs the byte of its
-- header and at most 8 more, and none only below 12.
pub ziplist_entry_overhead_numbers :
    (n : ℕ)
    → n < 2 ^ 63
    → (ziplist_entry_overhead (format_int (negsuc n)) ≡ 1)
      × (ziplist_entry_overhead (format_int (pos n)) ≤ 9)
      × ((n < 12) ⊎ (2 ≤ ziplist_entry_overhead (format_int (pos n))))
unfolding ziplist_entry_overhead
ziplist_entry_overhead_numbers n h =
    let below = parse_int-format_int (negsuc n) h in
    let above = parse_int-format_int (pos n) h in
    (rw below refl, rw above (ground arith), rw above (ground arith))

-- The length of an element is its number of bytes, or 8 where it prints an `int64`: the 16 that the
-- code has for numbers out of that range is given to none.
pub elem_len_cases :
    (element : Bytes)
    → ((z : ℤ) × (parse_int element ≡ some z) × (elem_len element ≡ 8))
      ⊎ ((parse_int element ≡ none) × (elem_len element ≡ length element))
unfolding elem_len
elem_len_cases element = elim (parse_int-Fits element) [
  | inl unread ↦ inr (unread, ap (elem_of element) unread)
  | inr (z, read, fits) ↦ inl (z, read, ap (elem_of element) read ∙ eight z fits)
]
  where
    eight : (z : ℤ) → Fits 64 z → elem_of element (some z) ≡ 8
    eight (pos n) h = ground arith
    eight (negsuc n) h = ground arith
