-- ===== src/Dict/Sum.antt =====
-- Sums over the indices of the bucket array.
use holyhttp.Prelude.{
  ℕ, zero, suc, ◌+◌, ◌≤◌, ◌<◌, ◌≡◌, refl, arith, if◌then◌else◌, ◌==◌, ap, Bool-cases, inl, inr,
}

-- The sum of `f` over the numbers below `n`.
pub sum_below : ℕ → (ℕ → ℕ) → ℕ
sum_below zero f = 0
sum_below (suc n) f = f n + sum_below n f

sum_below-update_out :
    (n : ℕ) (f : ℕ → ℕ) (j v : ℕ)
    → n ≤ j
    → sum_below n (λ i. if i == j then v else f i) ≡ sum_below n f
unfolding sum_below
sum_below-update_out zero f j v h = refl
sum_below-update_out (suc n) f j v h = ground (arith, sum_below-update_out n f j v)

pub sum_below-update :
    (n : ℕ) (f : ℕ → ℕ) (j v : ℕ)
    → j < n
    → sum_below n (λ i. if i == j then v else f i) + f j ≡ sum_below n f + v
unfolding sum_below
sum_below-update zero f j v h = absurd (omega arith)
sum_below-update (suc n) f j v h = elim (Bool-cases (n == j)) [
  | inl here ↦ let e : j ≡ n = ground arith in ground (arith, sum_below-update_out n f j v, ap f e)
  | inr below ↦ ground (arith, sum_below-update n f j v)
]

pub sum_below_congr : (n : ℕ) (f g : ℕ → ℕ) → ((i : ℕ) → f i ≡ g i) → sum_below n f ≡ sum_below n g
unfolding sum_below
sum_below_congr zero f g h = refl
sum_below_congr (suc n) f g h = omega (arith, h n, sum_below_congr n f g h)

pub sum_below_zero : (n : ℕ) → sum_below n (λ i. 0) ≡ 0
unfolding sum_below
sum_below_zero zero = refl
sum_below_zero (suc n) = omega (arith, sum_below_zero n)

-- A sum of zeros.
pub sum_below_none : (n : ℕ) (f : ℕ → ℕ) → ((i : ℕ) → i < n → f i ≡ 0) → sum_below n f ≡ 0
unfolding sum_below
sum_below_none zero f h = refl
sum_below_none (suc n) f h =
    omega (arith, h n (omega arith), sum_below_none n f (λ i lt. h i (omega arith)))
