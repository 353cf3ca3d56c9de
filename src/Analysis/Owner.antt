-- ===== src/Analysis/Owner.antt =====
-- Whom a key counts for, apart from the way that memstatistics.go splits it.
use redis_agent.Common.{
  ℕ, ◌==◌, ltb, Bool, Bool-cases, true, false, if◌then◌else◌, Bytes, List, [], ◌∷◌, ◌++◌, length,
  same_bytes, Option, none, some, ◌≡◌, ◌≢◌, refl, ◌⊎◌, inl, inr, arith, All,
}
use redis_agent.Info.{split_byte}
use redis_agent.Analysis.{contains, is_skipped, user_of}

abbrev pub with_first : ℕ → Option Bytes → Option Bytes
with_first b none = none
with_first b (some t) = some (b ∷ t)

-- The text before the first colon of a key, none where there is no colon.
unfoldable pub owner : Bytes → Option Bytes
owner [] = none
owner (b ∷ key) = let rest = owner key in if b == 58 then some [] else with_first b rest

abbrev pub is_owner : Bytes → Option Bytes → Bool
is_owner name none = false
is_owner name (some user) = same_bytes user name

split_byte-cons : (s : Bytes) → (p : Bytes) × (ps : List Bytes) × (split_byte 58 s ≡ p ∷ ps)
unfolding split_byte
split_byte-cons [] = ([], [], refl)
split_byte-cons (b ∷ s) =
    let (p, ps, e) = split_byte-cons s in
    elim (Bool-cases (b == 58)) [
      | inl h ↦ ([], split_byte 58 s, rw h refl)
      | inr h ↦ (b ∷ p, ps, rw (h, e) refl)
    ]

-- A key without a colon, and one whose parts begin with the owner.
owner_cases :
    (key : Bytes)
    → ((owner key ≡ none) × (contains 58 key ≡ false))
      ⊎ ((user : Bytes) × (p : Bytes) × (ps : List Bytes) × (owner key ≡ some user)
          × (contains 58 key ≡ true)
          × (split_byte 58 key ≡ user ∷ p ∷ ps))
unfolding owner contains split_byte
owner_cases [] = inl (refl, refl)
owner_cases (b ∷ key) = elim (Bool-cases (b == 58)) [
  | inl h ↦
      let (p, ps, e) = split_byte-cons key in inr ([], p, ps, rw h refl, rw h refl, rw (h, e) refl)
  | inr h ↦ elim (owner_cases key) [
    | inl (o, c) ↦ inl (rw (h, o) refl, rw (h, c) refl)
    | inr (user, p, ps, o, c, e) ↦
        inr (b ∷ user, p, ps, rw (h, o) refl, rw (h, c) refl, rw (h, e) refl)
  ]
]

-- What the loop tests and the user that it charges, together.
pub counted-is_owner :
    (name key : Bytes)
    → (if is_skipped key then false else same_bytes (user_of key) name) ≡ is_owner name (owner key)
unfolding is_skipped
counted-is_owner name [] = unfold owner in refl
counted-is_owner name (b ∷ key) =
    let some_bytes : (length (b ∷ key) == 0) ≡ false = ground arith in
    elim (owner_cases (b ∷ key)) [
      | inl (o, c) ↦ rw (o, c, some_bytes) refl
      | inr (user, p, ps, o, c, e) ↦
          let parts : ltb (length (user ∷ p ∷ ps)) 2 ≡ false = ground arith in
          rw (o, c, e, some_bytes, parts) refl
    ]

pub owner-append :
    (user rest : Bytes) → All (λ b. b ≢ 58) user → owner (user ++ (58 ∷ rest)) ≡ some user
unfolding owner
owner-append [] rest h = refl
owner-append (b ∷ user) rest (h, hs) =
    let other : (b == 58) ≡ false = ground arith in rw (other, owner-append user rest hs) refl
