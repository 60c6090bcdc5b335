-- ===== src/Prelude/Int.antt =====
-- Signed integers over the native numbers, as far as the message handlers use them.
use recording_agent_continuo.Prelude.{ℕ, suc, ltb, ◌==◌, ◌≡◌, Bool, true, false, arith}

-- `negsuc n` is -(n + 1).
pub data ℤ : Type 0 where
  pos : ℕ → ℤ
  negsuc : ℕ → ℤ

-- x < 0
abbrev pub is_negative : ℤ → Bool
is_negative (pos n) = false
is_negative (negsuc n) = true

-- x > 0
abbrev pub is_positive : ℤ → Bool
is_positive (pos (suc n)) = true
is_positive _ = false

-- x == 0
abbrev pub is_zero : ℤ → Bool
is_zero (pos n) = n == 0
is_zero (negsuc n) = false

-- -n
abbrev pub negate_ℕ : ℕ → ℤ
negate_ℕ ℕ.zero = pos 0
negate_ℕ (suc n) = negsuc n

-- x * -1
abbrev pub negate : ℤ → ℤ
negate (pos n) = negate_ℕ n
negate (negsuc n) = pos (suc n)

-- x < y
abbrev pub ltb_ℤ : ℤ → ℤ → Bool
ltb_ℤ (pos a) (pos b) = ltb a b
ltb_ℤ (pos a) (negsuc b) = false
ltb_ℤ (negsuc a) (pos b) = true
ltb_ℤ (negsuc a) (negsuc b) = ltb b a

-- x == y
abbrev pub eq_ℤ : ℤ → ℤ → Bool
eq_ℤ (pos a) (pos b) = a == b
eq_ℤ (pos a) (negsuc b) = false
eq_ℤ (negsuc a) (pos b) = false
eq_ℤ (negsuc a) (negsuc b) = a == b

pub ltb_ℤ_asymm : (x y : ℤ) → ltb_ℤ x y ≡ true → ltb_ℤ y x ≡ false
ltb_ℤ_asymm x y h = ground arith

pub ltb_ℤ_irrefl : (x : ℤ) → ltb_ℤ x x ≡ false
ltb_ℤ_irrefl x = ground arith

pub ltb_ℤ-le_trans : (x y z : ℤ) → ltb_ℤ y x ≡ false → ltb_ℤ z y ≡ false → ltb_ℤ z x ≡ false
ltb_ℤ-le_trans x y z h k = ground arith

pub eq_ℤ-le : (t x y : ℤ) → eq_ℤ x y ≡ true → ltb_ℤ y t ≡ false → ltb_ℤ x t ≡ false
eq_ℤ-le t x y e h = ground arith
