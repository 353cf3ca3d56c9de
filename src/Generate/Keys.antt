-- ===== src/Generate/Keys.antt =====
-- The keys that are generated, and how the analysis counts them.
use redis_agent.Common.{
  ℕ, zero, suc, ◌+◌, ◌<◌, Bool-cases, true, false, Bytes, List, [], ◌∷◌, ◌++◌, All, append_assoc,
  ◌/◌, ◌==◌, codes, same_bytes, Option, Option-cases, none, some, ◌⊎◌, inl, inr, ◌≡◌, ◌≢◌, refl,
  ◌∙◌, ap, arith,
}
use mathlib.Core.Path.{subst}
use redis_agent.Decimal.{digits, format_uint}
use redis_agent.Info.{split_byte}
use redis_agent.Generate.{
  GenerateUserDataParam, Made, key_at, set_from, generate_string, generate_data,
}

-- The commands of the n rounds from i on.
abbrev pub commands : (ℕ → Bytes) → Bytes → ℕ → ℕ → List (Bytes × Bytes)
commands values user_name i zero = []
commands values user_name i (suc n) =
    (key_at user_name i, values i) ∷ commands values user_name (i + 1) n

-- The replies to them are no errors.
abbrev pub Passed : (ℕ → Option Bytes) → ℕ → ℕ → Type 0
Passed replies i zero = Unit
Passed replies i (suc n) = (replies i ≡ none) × Passed replies (i + 1) n

-- All n rounds from i on, or those up to the first reply that is an error.
abbrev Rounds : (ℕ → Bytes) → (ℕ → Option Bytes) → Bytes → ℕ → ℕ → Made → Type 0
Rounds values replies user_name i n made =
    (Passed replies i n × (made ≡ record { sent = commands values user_name i n; err = none }))
    ⊎ ((k : ℕ) × (err : Bytes) × (k < n)
        × Passed replies i k
        × (replies (i + k) ≡ some err)
        × (made ≡ record { sent = commands values user_name i (suc k); err = some err }))

set_from-Rounds :
    (values : ℕ → Bytes) (replies : ℕ → Option Bytes) (user_name : Bytes) (i n : ℕ)
    → Rounds values replies user_name i n (set_from values replies user_name i n)
unfolding set_from
set_from-Rounds values replies user_name i zero = inl (tt, refl)
set_from-Rounds values replies user_name i (suc n) = elim (Option-cases (replies i)) [
  | inr (err, failed) ↦ inr (
    0,
    err,
    omega arith,
    tt,
    subst (λ j. replies j ≡ some err) {x = i} (omega arith) failed,
    rw failed refl,
  )
  | inl passed ↦ elim (set_from-Rounds values replies user_name (i + 1) n) [
    | inl (rest, made) ↦ inl ((passed, rest), rw (passed, made) refl)
    | inr (k, err, lt, rest, failed, made) ↦ inr (
      suc k,
      err,
      omega arith,
      (passed, rest),
      subst (λ j. replies j ≡ some err) {x = i + 1 + k} (omega arith) failed,
      rw (passed, made) refl,
    )
  ]
]

pub set_from-Passed :
    (values : ℕ → Bytes) (replies : ℕ → Option Bytes) (user_name : Bytes) (i n : ℕ)
    → Passed replies i n
    → set_from values replies user_name i n
      ≡ record { sent = commands values user_name i n; err = none }
unfolding set_from
set_from-Passed values replies user_name i zero h = refl
set_from-Passed values replies user_name i (suc n) (passed, rest) =
    rw (passed, set_from-Passed values replies user_name (i + 1) n rest) refl

-- A task that generates strings sends one `Set` for each number below the count, in order, to the
-- key of the user and the number, and stops with the error of the first reply that is one, whose
-- command is the last; for each other type the function sends nothing and returns no error.
pub generate_data_lem :
    (values : ℕ → Bytes) (replies : ℕ → Option Bytes) (param : GenerateUserDataParam)
    → ((same_bytes param.redis_type (codes "string") ≡ true)
        × ((Passed replies 0 param.count
              × (generate_data values replies param
                  ≡ record { sent = commands values param.user_name 0 param.count; err = none }))
            ⊎ ((k : ℕ) × (err : Bytes) × (k < param.count)
                × Passed replies 0 k
                × (replies (0 + k) ≡ some err)
                × (generate_data values replies param ≡ record {
                  sent = commands values param.user_name 0 (suc k);
                  err = some err;
                }))))
      ⊎ ((same_bytes param.redis_type (codes "string") ≡ false)
          × (generate_data values replies param ≡ record { sent = []; err = none }))
unfolding generate_data generate_string
generate_data_lem values replies param =
    elim (Bool-cases (same_bytes param.redis_type (codes "string"))) [
      | inr other ↦ inr (other, rw other refl)
      | inl h ↦ elim (set_from-Rounds values replies param.user_name 0 param.count) [
        | inl (passed, made) ↦ inl (h, inl (passed, rw h made))
        | inr (k, err, lt, passed, failed, made) ↦
            inl (h, inr (k, err, lt, passed, failed, rw h made))
      ]
    ]

-- No byte of a decimal number is a colon.
digits_plain :
    (fuel n : ℕ) (out : Bytes) → All (λ b. b ≢ 58) out → All (λ b. b ≢ 58) (digits fuel n out)
unfolding digits
digits_plain zero n out h = h
digits_plain (suc fuel) n out h = elim (Bool-cases (n / 10 == 0)) [
  | inl done ↦ rw done (λ e. absurd (omega arith), h)
  | inr more ↦ rw more (digits_plain fuel (n / 10) _ (λ e. absurd (omega arith), h))
]

split_byte-none : (t : Bytes) → All (λ b. b ≢ 58) t → split_byte 58 t ≡ t ∷ []
unfolding split_byte
split_byte-none [] h = refl
split_byte-none (b ∷ t) (h, hs) = let rec = split_byte-none t hs in ground (arith, rec)

split_byte-key :
    (user_name number : Bytes)
    → All (λ b. b ≢ 58) user_name
    → All (λ b. b ≢ 58) number
    → split_byte 58 (user_name ++ (58 ∷ number)) ≡ user_name ∷ number ∷ []
unfolding split_byte
split_byte-key [] number hu hn = rw (split_byte-none number hn) refl
split_byte-key (b ∷ user_name) number (h, hs) hn =
    let rec = split_byte-key user_name number hs hn in ground (arith, rec)

pub split_byte-key_at :
    (user_name : Bytes) (i : ℕ)
    → All (λ b. b ≢ 58) user_name
    → split_byte 58 (key_at user_name i) ≡ user_name ∷ format_uint i ∷ []
split_byte-key_at user_name i h =
    ap (split_byte 58) (append_assoc user_name _ _)
    ∙ split_byte-key user_name (format_uint i) h (unfold format_uint in digits_plain 20 i [] tt)
