-- ===== src/Reader/Laws.antt =====
-- Laws of the readers of byte.go.
use redis_agent.Common.{
  ℕ, zero, suc, ◌<◌, Bytes, [], ◌∷◌, ◌++◌, length, ◌≡◌, refl, arith, All, IsByte, List, map, ◌∙◌,
}
use redis_agent.Common.Int.{pos}
use redis_agent.Reader.{
  Result, ok, panic, stuck, Fault, short_read, Reader, ◌>>=◌, pure, repeat_read, read_full,
  read_bytes,
}

-- A step of a chain that succeeds.
pub bind_ok :
    {A B : Type 0} (m : Reader A) (f : A → Reader B) (s : Bytes) {a : A} {s' : Bytes}
    → m s ≡ ok (a, s')
    → (m >>= f) s ≡ f a s'
bind_ok m f s h = rw (h, ◌>>=◌)

-- A step of a chain that panics.
pub bind_panic :
    {A B : Type 0} (m : Reader A) (f : A → Reader B) (s : Bytes) {e : Fault}
    → m s ≡ panic e
    → (m >>= f) s ≡ panic e
bind_panic m f s h = rw (h, ◌>>=◌)

-- Inversion of a chain that succeeds.
pub bind-eq-ok :
    {A B : Type 0} (m : Reader A) (f : A → Reader B) (s : Bytes) {b : B} {t : Bytes}
    → (m >>= f) s ≡ ok (b, t)
    → (a : A) × (s' : Bytes) × (m s ≡ ok (a, s')) × (f a s' ≡ ok (b, t))
bind-eq-ok {A} {B} m f s {b} {t} h = go (m s) h
  where
    go :
        (r : Result (A × Bytes))
        → elim r [ ok (a, s') ↦ f a s' | panic e ↦ panic e | stuck ↦ stuck ] ≡ ok (b, t)
        → (a : A) × (s' : Bytes) × (r ≡ ok (a, s')) × (f a s' ≡ ok (b, t))
    go (ok (a, s')) e = (a, s', refl, e)
    go (panic x) e = cc
    go stuck e = cc

pub read_full_append : (xs s : Bytes) → read_full (length xs) (xs ++ s) ≡ ok (xs, s)
unfolding read_full
read_full_append [] s = refl
read_full_append (x ∷ xs) s = rw (read_full_append xs s)

pub read_bytes_append : (xs s : Bytes) → read_bytes (pos (length xs)) (xs ++ s) ≡ ok (xs, s)
unfolding read_bytes
read_bytes_append xs s = read_full_append xs s

-- A full read takes exactly n bytes off the front.
pub read_full_sound :
    (n : ℕ) (s bs s' : Bytes) → read_full n s ≡ ok (bs, s') → (s ≡ bs ++ s') × (length bs ≡ n)
unfolding read_full
read_full_sound zero s bs s' h = ground arith
read_full_sound (suc n) [] bs s' h = cc
read_full_sound (suc n) (b ∷ s) bs s' h =
    let (cs, t, e, g) = bind-eq-ok (read_full n) (λ cs. pure (b ∷ cs)) s h in
    ground (arith, read_full_sound n s cs t e)

-- With too few bytes left it panics.
pub read_full_short : (n : ℕ) (s : Bytes) → length s < n → read_full n s ≡ panic short_read
unfolding read_full
read_full_short zero s h = absurd (omega arith)
read_full_short (suc n) [] h = refl
read_full_short (suc n) (b ∷ s) h = rw (read_full_short n s (omega arith))

pub All-split : (xs ys : Bytes) → All IsByte (xs ++ ys) → All IsByte xs × All IsByte ys
All-split [] ys h = (tt, h)
All-split (x ∷ xs) ys (hx, h) = let r = All-split xs ys h in ((hx, r.0), r.1)

-- Things written one after the other by the same function.
module _ {X : Type 0} where
  abbrev pub put_all : (X → Bytes → Bytes) → List X → Bytes → Bytes
  put_all put [] s = s
  put_all put (x ∷ xs) s = put x (put_all put xs s)

  -- They are read back by as many rounds of a reader that reads back each.
  pub repeat_read-put_all :
      {A : Type 0} (m : Reader A) (put : X → Bytes → Bytes) (val : X → A) (P : X → Type 0)
      → ((x : X) (s : Bytes) → P x → m (put x s) ≡ ok (val x, s))
      → (xs : List X) (s : Bytes) → All P xs
      → repeat_read (length xs) m (put_all put xs s) ≡ ok (map val xs, s)
  unfolding repeat_read
  repeat_read-put_all m put val P each [] s h = refl
  repeat_read-put_all m put val P each (x ∷ xs) s (h, hs) =
      bind_ok m _ _ (each x (put_all put xs s) h)
      ∙ bind_ok (repeat_read (length xs) m) _ _ (repeat_read-put_all m put val P each xs s hs)
