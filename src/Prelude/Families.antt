-- ===== src/Prelude/Families.antt =====
-- Families indexed by native numbers: one changed member, and sums over the first members.
use Prim.Native.Nat.{ℕ, zero, suc, ◌+◌, ◌<◌, ◌≤◌}
use mathlib.Core.Path.{◌≡◌, refl}
use mathlib.Core.Logic.{inl, inr}
use mathlib.Core.Bool.{true, false}
use native.Mathlib.Omega.{arith}
use recording_agent_continuo.Prelude.Tests.{◌==◌, if◌then◌else◌, Bool-cases}

abbrev pub set_at {ℓ} : {A : Type ℓ} → ℕ → A → (ℕ → A) → ℕ → A
set_at i a f j = if i == j then a else f j

pub ==_same : (i : ℕ) → (i == i) ≡ true
==_same i = ground arith

pub set_at_same {ℓ} : {A : Type ℓ} (i : ℕ) (a : A) (f : ℕ → A) → set_at i a f i ≡ a
set_at_same i a f = rw (==_same i) refl

pub set_at_other {ℓ} :
    {A : Type ℓ} (i j : ℕ) (a : A) (f : ℕ → A) → (i == j) ≡ false → set_at i a f j ≡ f j
set_at_other i j a f h = rw h refl

module _ {ℓ} {A : Type ℓ} (weight : A → ℕ) where
  unfoldable pub total : ℕ → (ℕ → A) → ℕ
  total zero f = 0
  total (suc n) f = total n f + weight (f n)

  pub total-set_at_above :
      (n : ℕ) (f : ℕ → A) (i : ℕ) (a : A) → n ≤ i → total n (set_at i a f) ≡ total n f
  unfolding total
  total-set_at_above zero f i a h = refl
  total-set_at_above (suc n) f i a h = ground (arith, total-set_at_above n f i a)

  pub total-set_at :
      (n : ℕ) (f : ℕ → A) (i : ℕ) (a : A)
      → i < n
      → total n (set_at i a f) + weight (f i) ≡ total n f + weight a
  unfolding total
  total-set_at zero f i a h = absurd (omega arith)
  total-set_at (suc n) f i a h = elim (Bool-cases (i == n)) [
    | inl last ↦ ground (arith, total-set_at_above n f i a)
    | inr below ↦ ground (arith, total-set_at n f i a)
  ]

  pub total-same :
      (n : ℕ) (f g : ℕ → A) → ((j : ℕ) → weight (g j) ≡ weight (f j)) → total n g ≡ total n f
  unfolding total
  total-same zero f g h = refl
  total-same (suc n) f g h = omega (arith, total-same n f g h, h n)
