-- ===== src/Prelude/Families.antt =====
-- Families of values by their number: one of them changed, and sums over the first of them.
use Prim.Native.Nat.{ℕ, zero, suc, ◌+◌, ◌≤◌, ◌<◌}
use mathlib.Core.Path.{◌≡◌, refl, ap}
use mathlib.Core.Logic.{inl, inr}
use mathlib.Core.Bool.{false}
use native.Mathlib.Omega.{arith}
use minetest_map_analyzer.Prelude.Tests.{◌==◌, if◌then◌else◌, Bool-cases}

module _ {ℓ} {A : Type ℓ} where
  abbrev pub update : (ℕ → A) → ℕ → A → ℕ → A
  update f i a j = if j == i then a else f j

  pub update-all :
      (P : A → Type 0) (f : ℕ → A) (i : ℕ) (a : A)
      → P a
      → ((j : ℕ) → P (f j))
      → (j : ℕ) → P (update f i a j)
  update-all P f i a h k j = elim (Bool-cases (j == i)) [ inl e ↦ rw e h | inr e ↦ rw e (k j) ]

module _ {ℓ} {A : Type ℓ} (weight : A → ℕ) where
  -- The sum of the weights below `n`.
  abbrev pub total : ℕ → (ℕ → A) → ℕ
  total zero f = 0
  total (suc n) f = total n f + weight (f n)

  total-update_above :
      (n : ℕ) (f : ℕ → A) (i : ℕ) (a : A) → n ≤ i → total n (update f i a) ≡ total n f
  total-update_above zero f i a h = refl
  total-update_above (suc n) f i a h =
      let other : (n == i) ≡ false = ground arith in
      rw (other, total-update_above n f i a (omega arith)) refl

  pub total-update :
      (n : ℕ) (f : ℕ → A) (i : ℕ) (a : A)
      → i < n
      → total n (update f i a) + weight (f i) ≡ total n f + weight a
  total-update zero f i a h = absurd (omega arith)
  total-update (suc n) f i a h = elim (Bool-cases (n == i)) [
    | inl same ↦
        let here : n ≡ i = ground arith in
        let there : weight (f n) ≡ weight (f i) = ap (λ j. weight (f j)) here in
        rw (same, total-update_above n f i a (omega arith)) (omega (arith, there))
    | inr other ↦
        let below : i < n = ground arith in rw other (omega (arith, total-update n f i a below))
  ]

  pub total-zero : (n : ℕ) (f : ℕ → A) → ((i : ℕ) → i < n → weight (f i) ≡ 0) → total n f ≡ 0
  total-zero zero f h = refl
  total-zero (suc n) f h =
      omega (arith, h n (omega arith), total-zero n f λ i lt. h i (omega arith))
