-- ===== src/Awaiter/Sums.antt =====
-- Sums over the workers of an operation.
use xredis_client.Base.{ℕ, zero, suc, ◌+◌, ◌<◌, ◌≤◌, ◌≡◌, ◌≢◌, refl, arith}
use xredis_client.Shared.{update}
use native.Mathlib.Decide.{dec_lt, ℕ_discrete}

module _ {A : Type 0} (f : A → ℕ) where
  pub sum : ℕ → (ℕ → A) → ℕ
  sum zero g = 0
  sum (suc n) g = sum n g + f (g n)

  sum-outside : (n : ℕ) (g : ℕ → A) (i : ℕ) (a : A) → n ≤ i → sum n (update g i a) ≡ sum n g
  unfolding sum
  sum-outside zero g i a h = refl
  sum-outside (suc n) g i a h = ground (arith, sum-outside n g i a)

  pub sum-update :
      (n : ℕ) (g : ℕ → A) (i : ℕ) (a : A) → i < n → sum n (update g i a) + f (g i) ≡ sum n g + f a
  unfolding sum
  sum-update zero g i a h = absurd (omega arith)
  sum-update (suc n) g i a h = elim (dec_lt i n) [
    | yes lt ↦ ground (arith, sum-update n g i a lt)
    | no ge ↦ ground (arith, sum-outside n g i a)
  ]

  -- A sum of less than `n` numbers below 2 has a 0, and a positive one a number that is not 0.
  pub sum-zero_at : (n : ℕ) (g : ℕ → A) → sum n g < n → (i : ℕ) × (i < n) × (f (g i) ≡ 0)
  unfolding sum
  sum-zero_at zero g h = absurd (omega arith)
  sum-zero_at (suc n) g h = elim (ℕ_discrete (f (g n)) 0) [
    | yes e ↦ (n, omega arith, e)
    | no ne ↦ let (i, lt, e) = sum-zero_at n g (omega arith) in (i, omega arith, e)
  ]

  pub sum-positive_at : (n : ℕ) (g : ℕ → A) → 0 < sum n g → (i : ℕ) × (i < n) × (f (g i) ≢ 0)
  unfolding sum
  sum-positive_at zero g h = absurd (omega arith)
  sum-positive_at (suc n) g h = elim (ℕ_discrete (f (g n)) 0) [
    | yes e ↦ let (i, lt, ne) = sum-positive_at n g (omega arith) in (i, omega arith, ne)
    | no ne ↦ (n, omega arith, ne)
  ]

  pub sum-constant : (n : ℕ) (a : A) → f a ≡ 0 → sum n (λ _. a) ≡ 0
  unfolding sum
  sum-constant zero a h = refl
  sum-constant (suc n) a h = omega (arith, h, sum-constant n a h)

  -- A sum of `n` numbers below 2 that is `n` has no 0.
  pub sum-full : (n : ℕ) (g : ℕ → A) → ((a : A) → f a ≤ 1) → (sum n g ≤ n)
  unfolding sum
  sum-full zero g h = omega arith
  sum-full (suc n) g h = omega (arith, h (g n), sum-full n g h)

  pub sum-full_at :
      (n : ℕ) (g : ℕ → A) → ((a : A) → f a ≤ 1) → sum n g ≡ n → (i : ℕ) → i < n → f (g i) ≡ 1
  unfolding sum
  sum-full_at zero g h e i lt = absurd (omega arith)
  sum-full_at (suc n) g h e i lt = elim (ℕ_discrete i n) [
    | yes q ↦ ground (arith, q, e, h (g n), sum-full n g h)
    | no ne ↦ sum-full_at n g h (omega (arith, e, h (g n), sum-full n g h)) i (omega arith)
  ]
