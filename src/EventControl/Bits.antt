-- ===== src/EventControl/Bits.antt =====
-- The bits of a register of fixed width, and the operations of C on them.
use recording_agent_continuo.Prelude.{
  ℕ, zero, suc, ◌+◌, ◌*◌, ◌/◌, ◌%◌, ◌<◌, ◌==◌, ◌≡◌, Bool, true, false, not, arith,
}

-- Bit i of a number.
unfoldable pub bit : ℕ → ℕ → Bool
bit zero n = n % 2 == 1
bit (suc i) n = bit i (n / 2)

abbrev pub to_nat : Bool → ℕ
to_nat true = 1
to_nat false = 0

-- Two registers of width w, bit by bit.
unfoldable pub bitwise : (Bool → Bool → Bool) → (w : ℕ) → ℕ → ℕ → ℕ
bitwise f zero a b = 0
bitwise f (suc w) a b = to_nat (f (a % 2 == 1) (b % 2 == 1)) + 2 * bitwise f w (a / 2) (b / 2)

abbrev pub differ : Bool → Bool → Bool
differ true b = not b
differ false b = b

to_nat_low : (b : Bool) (n : ℕ) → ((to_nat b + 2 * n) % 2 == 1) ≡ b
to_nat_low true n = ground arith
to_nat_low false n = ground arith

to_nat_high : (b : Bool) (n : ℕ) → (to_nat b + 2 * n) / 2 ≡ n
to_nat_high true n = omega arith
to_nat_high false n = omega arith

pub bit-bitwise :
    (f : Bool → Bool → Bool) (i w a b : ℕ) → i < w → bit i (bitwise f w a b) ≡ f (bit i a) (bit i b)
unfolding bit bitwise
bit-bitwise f i zero a b h = absurd (omega arith)
bit-bitwise f zero (suc w) a b h =
    to_nat_low (f (a % 2 == 1) (b % 2 == 1)) (bitwise f w (a / 2) (b / 2))
bit-bitwise f (suc i) (suc w) a b h =
    rw (to_nat_high (f (a % 2 == 1) (b % 2 == 1)) (bitwise f w (a / 2) (b / 2)))
      (bit-bitwise f i w (a / 2) (b / 2) (omega arith))
