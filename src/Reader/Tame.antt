-- ===== src/Reader/Tame.antt =====
-- Readers that end on every input and never give bytes back: each loop of the model has fuel
-- enough.
use redis_agent.Common.{
  ℕ, zero, suc, ◌<◌, ◌≤◌, Bytes, [], ◌∷◌, length, ◌≢◌, refl, arith, Bool, true, false,
  if◌then◌else◌,
}
use redis_agent.Common.Int.{ℤ, pos, negsuc}
use redis_agent.Reader.{
  Result, ok, panic, stuck, Fault, Reader, ◌>>=◌, pure, raise, lift, within, repeat_read, read_full,
  read_bytes, read_byte,
}

-- Of a reader with `bound` bytes left: it succeeds with no more than those, or panics.
abbrev pub TameAt : {A : Type 0} → ℕ → Result (A × Bytes) → Type 0
TameAt bound (ok (a, s)) = length s ≤ bound
TameAt bound (panic e) = Unit
TameAt bound stuck = ⊥

pub record Tame {A : Type 0} (m : Reader A) : Type 0 where
  pub at : (s : Bytes) → TameAt (length s) (m s)

-- Tame, and a success takes a byte at least.
abbrev pub BriskAt : {A : Type 0} → ℕ → Result (A × Bytes) → Type 0
BriskAt bound (ok (a, s)) = length s < bound
BriskAt bound (panic e) = Unit
BriskAt bound stuck = ⊥

pub record Brisk {A : Type 0} (m : Reader A) : Type 0 where
  pub at : (s : Bytes) → BriskAt (length s) (m s)

module _ {A : Type 0} where
  pub TameAt-weaken : (r : Result (A × Bytes)) (m n : ℕ) → m ≤ n → TameAt m r → TameAt n r
  TameAt-weaken (ok (a, s)) m n h t = omega arith
  TameAt-weaken (panic e) m n h t = tt
  TameAt-weaken stuck m n h t = t

  BriskAt-weaken : (r : Result (A × Bytes)) (m n : ℕ) → m ≤ n → BriskAt m r → BriskAt n r
  BriskAt-weaken (ok (a, s)) m n h t = omega arith
  BriskAt-weaken (panic e) m n h t = tt
  BriskAt-weaken stuck m n h t = t

  BriskAt-of_lt : (r : Result (A × Bytes)) (m n : ℕ) → m < n → TameAt m r → BriskAt n r
  BriskAt-of_lt (ok (a, s)) m n h t = omega arith
  BriskAt-of_lt (panic e) m n h t = tt
  BriskAt-of_lt stuck m n h t = t

  TameAt-of_Brisk : (r : Result (A × Bytes)) (n : ℕ) → BriskAt n r → TameAt n r
  TameAt-of_Brisk (ok (a, s)) n t = omega arith
  TameAt-of_Brisk (panic e) n t = tt
  TameAt-of_Brisk stuck n t = t

  pub Tame-of_Brisk : (m : Reader A) → Brisk m → Tame m
  Tame-of_Brisk m h = record { at = λ s. TameAt-of_Brisk (m s) (length s) (h.at s) }

  pub pure-Tame : (a : A) → Tame (pure a)
  pure-Tame a = record { at = λ s. omega arith }

  pub raise-Tame : (e : Fault) → Tame (raise {A = A} e)
  raise-Tame e = record { at = λ s. tt }

  pub if-TameAt :
      (b : Bool) (x y : Result (A × Bytes)) (n : ℕ)
      → TameAt n x
      → TameAt n y
      → TameAt n (if b then x else y)
  if-TameAt true x y n hx hy = hx
  if-TameAt false x y n hx hy = hy

  pub if-Tame : (b : Bool) (m k : Reader A) → Tame m → Tame k → Tame (λ s. if b then m s else k s)
  if-Tame b m k hm hk = record { at = λ s. if-TameAt b (m s) (k s) (length s) (hm.at s) (hk.at s) }

module _ {A B : Type 0} (m : Reader A) (f : A → Reader B) where
  bind_at :
      (r : Result (A × Bytes)) (n : ℕ)
      → ((a : A) → Tame (f a))
      → TameAt n r
      → TameAt n (elim r [ ok (a, s') ↦ f a s' | panic e ↦ panic e | stuck ↦ stuck ])
  bind_at (ok (a, s')) n hf t = TameAt-weaken (f a s') (length s') n t ((hf a).at s')
  bind_at (panic e) n hf t = tt
  bind_at stuck n hf t = t

  brisk_at :
      (r : Result (A × Bytes)) (n : ℕ)
      → ((a : A) → Tame (f a))
      → BriskAt n r
      → BriskAt n (elim r [ ok (a, s') ↦ f a s' | panic e ↦ panic e | stuck ↦ stuck ])
  brisk_at (ok (a, s')) n hf t = BriskAt-of_lt (f a s') (length s') n t ((hf a).at s')
  brisk_at (panic e) n hf t = tt
  brisk_at stuck n hf t = t

  -- The same for a continuation that is tame only on what is left: a loop on fuel.
  pub bind_within :
      (r : Result (A × Bytes)) (n : ℕ)
      → ((a : A) (s' : Bytes) → length s' ≤ n → TameAt (length s') (f a s'))
      → TameAt n r
      → TameAt n (elim r [ ok (a, s') ↦ f a s' | panic e ↦ panic e | stuck ↦ stuck ])
  bind_within (ok (a, s')) n hf t = TameAt-weaken (f a s') (length s') n t (hf a s' t)
  bind_within (panic e) n hf t = tt
  bind_within stuck n hf t = t

  pub bind-Tame : Tame m → ((a : A) → Tame (f a)) → Tame (m >>= f)
  bind-Tame hm hf = record { at = λ s. bind_at (m s) (length s) hf (hm.at s) }

  pub bind-Brisk : Brisk m → ((a : A) → Tame (f a)) → Brisk (m >>= f)
  bind-Brisk hm hf = record { at = λ s. brisk_at (m s) (length s) hf (hm.at s) }

module _ {A : Type 0} where
  pub repeat_read-Tame : (n : ℕ) (m : Reader A) → Tame m → Tame (repeat_read n m)
  unfolding repeat_read
  repeat_read-Tame zero m h = pure-Tame []
  repeat_read-Tame (suc n) m h =
      bind-Tame m _ h
        (λ a. bind-Tame (repeat_read n m) _ (repeat_read-Tame n m h) (λ rest. pure-Tame (a ∷ rest)))

  lift_at : (r : Result A) (s : Bytes) → r ≢ stuck → TameAt (length s) (lift r s)
  lift_at (ok a) s h = omega arith
  lift_at (panic e) s h = tt
  lift_at stuck s h = absurd (h refl)

  pub lift-Tame : (r : Result A) → r ≢ stuck → Tame (lift r)
  lift-Tame r h = record { at = λ s. lift_at r s h }

  within_at :
      (r : Result (A × Bytes)) (n : ℕ) (s : Bytes)
      → TameAt n r
      → TameAt (length s) (elim r [ ok (a, left) ↦ ok (a, s) | panic e ↦ panic e | stuck ↦ stuck ])
  within_at (ok (a, left)) n s t = omega arith
  within_at (panic e) n s t = tt
  within_at stuck n s t = t

  pub within-Tame : (m : Reader A) (inner : Bytes) → Tame m → Tame (within m inner)
  within-Tame m inner h = record { at = λ s. within_at (m inner) (length inner) s (h.at inner) }

pub read_byte-Brisk : Brisk read_byte
unfolding read_byte
read_byte-Brisk = record { at = elim [ [] ↦ tt | b ∷ s ↦ omega arith ] }

read_full-suc_at :
    (n : ℕ) (s : Bytes) → Tame (read_full n) → TameAt (length s) (read_full (suc n) s)
unfolding read_full
read_full-suc_at n [] h = tt
read_full-suc_at n (b ∷ s) h =
    TameAt-weaken _ (length s) (suc (length s)) (omega arith)
      ((bind-Tame (read_full n) (λ bs. pure (b ∷ bs)) h (λ bs. pure-Tame (b ∷ bs))).at s)

pub read_full-Tame : (n : ℕ) → Tame (read_full n)
read_full-Tame zero = unfold read_full in pure-Tame []
read_full-Tame (suc n) = record { at = λ s. read_full-suc_at n s (read_full-Tame n) }

pub read_bytes-Tame : (n : ℤ) → Tame (read_bytes n)
unfolding read_bytes
read_bytes-Tame (pos n) = read_full-Tame n
read_bytes-Tame (negsuc n) = raise-Tame _
