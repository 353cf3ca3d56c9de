-- ===== src/Memory/Search.antt =====
-- Go's binary search for any predicate, monotone or not.
use redis_agent.Common.{
  ℕ, zero, suc, ◌+◌, ◌-◌, ◌/◌, ◌<◌, ◌≤◌, ltb, ltb→lt, if◌then◌else◌, Bool, true, false, Bool-cases,
  inl, inr, ◌≡◌, arith,
}
use redis_agent.Memory.{search_from, sort_search}

-- Where a search between i and j may stop.
pub record Boundary (i j : ℕ) (f : ℕ → Bool) (r : ℕ) : Type 0 where
  pub above : i ≤ r
  pub below : r ≤ j
  pub hit : r < j → f r ≡ true
  pub miss : i < r → f (r - 1) ≡ false

search_step :
    (i j : ℕ) (f : ℕ → Bool) (left right : ℕ)
    → i < j
    → Boundary i ((i + j) / 2) f left
    → Boundary ((i + j) / 2 + 1) j f right
    → Boundary i j f (if f ((i + j) / 2) then left else right)
search_step i j f left right h hl hr = elim (Bool-cases (f ((i + j) / 2))) [
  | inl found ↦ rw found (record {
    above = hl.above;
    below = omega arith;
    hit = λ lt. elim (Bool-cases (ltb left ((i + j) / 2))) [
      | inl inside ↦ hl.hit (ltb→lt _ _ inside)
      | inr edge ↦ let e : left ≡ (i + j) / 2 = ground (arith, hl.below) in rw e found
    ];
    miss = hl.miss;
  })
  | inr missed ↦ rw missed (record {
    above = omega arith;
    below = hr.below;
    hit = hr.hit;
    miss = λ lt. elim (Bool-cases (ltb ((i + j) / 2 + 1) right)) [
      | inl inside ↦ hr.miss (ltb→lt _ _ inside)
      | inr edge ↦ let e : right - 1 ≡ (i + j) / 2 = ground (arith, hr.above) in rw e missed
    ];
  })
]

search_from-Boundary :
    (fuel i j : ℕ) (f : ℕ → Bool) → i ≤ j → j ≤ i + fuel → Boundary i j f (search_from fuel i j f)
unfolding search_from
search_from-Boundary zero i j f h k = record {
  above = omega arith;
  below = omega arith;
  hit = λ lt. absurd (omega arith);
  miss = λ lt. absurd (omega arith);
}
search_from-Boundary (suc fuel) i j f h k = elim (Bool-cases (ltb i j)) [
  | inl open_range ↦
      let lt : i < j = ltb→lt i j open_range in
      rw open_range (
        search_step i j f _ _ lt
          (search_from-Boundary fuel i ((i + j) / 2) f (omega arith) (omega arith))
          (search_from-Boundary fuel ((i + j) / 2 + 1) j f (omega arith) (omega arith)))
  | inr closed ↦
      let e : i ≡ j = ground arith in
      rw closed (record {
        above = omega arith;
        below = h;
        hit = λ lt. absurd (omega arith);
        miss = λ lt. absurd (omega arith);
      })
]

-- Go's search ends, whatever the predicate, at a place where the predicate turns true: it holds
-- there unless that is the end, and it fails just before unless that is the start.
pub sort_search-Boundary : (n : ℕ) (f : ℕ → Bool) → Boundary 0 n f (sort_search n f)
unfolding sort_search
sort_search-Boundary n f = search_from-Boundary n 0 n f (omega arith) (omega arith)
