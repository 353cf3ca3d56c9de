-- ===== src/Loader/Steps.antt =====
-- Runs of the loop of rdb.go over the records of a dump, whatever fuel is left.
use redis_agent.Common.{
  ℕ, zero, suc, ◌<◌, ◌≤◌, ◌==◌, false, Bytes, ◌∷◌, length, ◌≡◌, refl, ◌∙◌, arith,
}
use redis_agent.Reader.{Result, ok, panic, stuck, read_byte}
use redis_agent.Reader.Laws.{bind_ok}
use redis_agent.Reader.Tame.{TameAt}
use redis_agent.Objects.ZsetObject.{FloatOps}
use redis_agent.Loader.{Loader, Round, read_field, is_master, end_round, next_round, read_rounds}
use redis_agent.Loader.Ends.{read_field-Tame}

TameAt-ok :
    {A : Type 0} (r : Result (A × Bytes)) (n : ℕ) (a : A) (s : Bytes)
    → r ≡ ok (a, s)
    → TameAt n r
    → length s ≤ n
TameAt-ok (ok (b, t)) n a s e h = ground arith
TameAt-ok (panic x) n a s e h = cc
TameAt-ok stuck n a s e h = cc

module _ (ops : FloatOps) (world : ℕ → Round) where
  -- From the first state the loop comes to the second one, with rounds enough for what is left.
  abbrev pub Runs : ℕ × Loader × Bytes → ℕ × Loader × Bytes → Type 0
  Runs (i, ld, s) (j, ld', s') =
      (fuel : ℕ)
      → length s < fuel
      → (fuel' : ℕ) × (length s' < fuel')
        × (read_rounds ops world fuel i ld s ≡ read_rounds ops world fuel' j ld' s')

  pub Runs-refl : (x : ℕ × Loader × Bytes) → Runs x x
  Runs-refl (i, ld, s) fuel h = (fuel, h, refl)

  pub Runs-trans : (x y z : ℕ × Loader × Bytes) → Runs x y → Runs y z → Runs x z
  Runs-trans (i, ld, s) (j, ld', s') (k, ld'', s'') f g fuel h =
      let (fuel', h', e) = f fuel h in let (fuel'', h'', e') = g fuel' h' in (fuel'', h'', e ∙ e')

  -- One round on a record.
  pub Runs-field :
      (i : ℕ) (ld ld' : Loader) (b : ℕ) (s s' : Bytes)
      → (b == 255) ≡ false
      → is_master (world i).tick ≡ false
      → read_field ops (world i).now b ld s ≡ ok (ld', s')
      → Runs (i, ld, b ∷ s) (suc i, ld', s')
  unfolding read_rounds next_round end_round read_byte
  Runs-field i ld ld' b s s' hb hq e zero h = absurd (omega arith)
  Runs-field i ld ld' b s s' hb hq e (suc fuel) h =
      let k =
        TameAt-ok (read_field ops (world i).now b ld s) (length s) ld' s' e
          ((read_field-Tame ops (world i).now b ld).at s) in
      (fuel, omega arith, rw hb (bind_ok (read_field ops (world i).now b ld) _ s e ∙ rw hq refl))
