-- ===== src/Base/Bits/Step.antt =====
-- The law for the lowest digit of `bit_and` and `bit_or`, from the definition that the native
-- operations stand for.
use Prim.Native.Nat.{
  ℕ, zero, suc, ◌+◌, ◌*◌, ◌/◌, ◌%◌, ◌≤◌, min, max, bit_and, bit_or, digits, bit_and-bitwise,
  bit_or-bitwise,
}
use mathlib.Core.Path.{◌≡◌, refl}
use native.Mathlib.Omega.{arith}

-- Both operations at once: `f` on two digits, `z` where the first number has run out.
module _ (z : ℕ → ℕ) (f : ℕ → ℕ → ℕ) where
  -- A count of digits beyond the first number changes nothing.
  spare_digits : (x n m y : ℕ) → x ≤ n → x ≤ m → digits z f n x y ≡ digits z f m x y
  spare_digits x zero zero y p q = refl
  spare_digits zero zero (suc m) y p q = refl
  spare_digits (suc x) zero (suc m) y p q = elim p [ ]
  spare_digits zero (suc n) zero y p q = refl
  spare_digits (suc x) (suc n) zero y p q = elim q [ ]
  spare_digits zero (suc n) (suc m) y p q = refl
  spare_digits (suc x) (suc n) (suc m) y p q =
      let tail = spare_digits (suc x / 2) n m (y / 2) (omega arith) (omega arith) in omega arith

  pub lowest_digit :
      (x y : ℕ)
      → digits z f (suc x) (suc x) y
        ≡ digits z f (suc x / 2) (suc x / 2) (y / 2) * 2 + f (suc x % 2) (y % 2)
  lowest_digit x y =
      let tail = spare_digits (suc x / 2) x (suc x / 2) (y / 2) (omega arith) (omega arith) in
      omega arith

pub bit_and_step : (x y : ℕ) → bit_and x y ≡ bit_and (x / 2) (y / 2) * 2 + min (x % 2) (y % 2)
bit_and_step zero y = omega (arith, bit_and-bitwise 0 y, bit_and-bitwise 0 (y / 2))
bit_and_step (suc x) y = omega (
  arith,
  bit_and-bitwise (suc x) y,
  lowest_digit (λ k. 0) min x y,
  bit_and-bitwise (suc x / 2) (y / 2),
)

pub bit_or_step : (x y : ℕ) → bit_or x y ≡ bit_or (x / 2) (y / 2) * 2 + max (x % 2) (y % 2)
bit_or_step zero y = omega (arith, bit_or-bitwise 0 y, bit_or-bitwise 0 (y / 2))
bit_or_step (suc x) y = omega (
  arith,
  bit_or-bitwise (suc x) y,
  lowest_digit (λ k. k) max x y,
  bit_or-bitwise (suc x / 2) (y / 2),
)
