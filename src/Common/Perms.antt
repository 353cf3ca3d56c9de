-- ===== src/Common/Perms.antt =====
-- What lists of the same elements in another order share.
use mathlib.Core.Path.{◌≡◌, refl, ap, ◌∙◌}
use mathlib.Core.Logic.{∥∥₁_elim}
use mathlib.Core.List.{List, [], ◌∷◌, Perm, Permᴰ}
use native.Mathlib.Nat.{ℕ_set}
use native.Mathlib.Omega.{arith}
use Prim.Native.Nat.{ℕ}
use redis_agent.Common.Lists.{length, weigh}

module _ {ℓ} {A : Type ℓ} where
  Permᴰ-weigh : (w : A → ℕ) {a b : List A} → Permᴰ a b → weigh w a ≡ weigh w b
  Permᴰ-weigh w Permᴰ.nil = refl
  Permᴰ-weigh w (Permᴰ.cons e p) = omega (arith, ap w e, Permᴰ-weigh w p)
  Permᴰ-weigh w (Permᴰ.swap e f) = omega (arith, ap w e, ap w f)
  Permᴰ-weigh w (Permᴰ.trans p q) = Permᴰ-weigh w p ∙ Permᴰ-weigh w q

  pub weigh-perm : (w : A → ℕ) {a b : List A} → Perm a b → weigh w a ≡ weigh w b
  weigh-perm w p = ∥∥₁_elim p (ℕ_set _ _) (Permᴰ-weigh w)

  length-weigh : (a : List A) → weigh (λ x. 1) a ≡ length a
  length-weigh [] = refl
  length-weigh (x ∷ a) = omega (arith, length-weigh a)

  pub length-perm : {a b : List A} → Perm a b → length a ≡ length b
  length-perm {a} {b} p = omega (arith, weigh-perm (λ x. 1) p, length-weigh a, length-weigh b)
