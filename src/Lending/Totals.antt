-- ===== src/Lending/Totals.antt =====
-- Sums over the threads.
use amp_project.Base.{ℕ, zero, suc, ◌+◌, ◌≡◌, some, List, [], ◌∷◌, arith, get_elem?, set}

module _ {ℓ} {A : Type ℓ} (f : A → ℕ) where
  abbrev pub total : List A → ℕ
  total [] = 0
  total (x ∷ xs) = f x + total xs

  pub total-set :
      (xs : List A) (t : ℕ) (a b : A)
      → get_elem? xs t ≡ some a
      → total (set xs t b) + f a ≡ total xs + f b
  total-set [] t a b h = cc h
  total-set (x ∷ xs) zero a b h = ground arith
  total-set (x ∷ xs) (suc t) a b h = omega (arith, total-set xs t a b h)
