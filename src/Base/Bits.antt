-- ===== src/Base/Bits.antt =====
-- The binary digits of a number, and what the word operations do to each of them.
mod Step
use Prim.Native.Nat.{
  ℕ, zero, suc, ◌+◌, ◌-◌, ◌*◌, ◌/◌, ◌%◌, ◌^◌, ◌≤◌, ◌<◌, bit_and, bit_or, bit_and-bitwise,
  bit_or-bitwise,
}
use native.Mathlib.Nat.{pow-suc, one-le-pow, pow-le-pow_right, div-div-eq-div-mul, mod-eq_of_lt}
use mathlib.Core.Path.{◌≡◌, refl, ap, sym, ◌∙◌}
use mathlib.Core.Bool.{Bool, true, false, not, ◌&&◌, ◌||◌}
use mathlib.Core.Logic.{inl, inr}
use native.Mathlib.Decide.{dec_lt}
use native.Mathlib.Omega.{arith}
use whypa.Base.Tests.{ltb, ◌==◌, if◌then◌else◌, Bool-cases}
use whypa.Base.Word.{complement}
use Step.{bit_or_step, bit_and_step}

-- Digit `i` of `x`.
unfoldable pub bit : ℕ → ℕ → Bool
bit x zero = x % 2 == 1
bit x (suc i) = bit (x / 2) i

pub bit-zero : (i : ℕ) → bit 0 i ≡ false
unfolding bit
bit-zero zero = refl
bit-zero (suc i) = bit-zero i

pub bit-bit_and : (x y i : ℕ) → bit (bit_and x y) i ≡ (bit x i && bit y i)
unfolding bit
bit-bit_and x y zero = ground (arith, bit_and_step x y)
bit-bit_and x y (suc i) =
    let half : bit_and x y / 2 ≡ bit_and (x / 2) (y / 2) = omega (arith, bit_and_step x y) in
    rw half (bit-bit_and (x / 2) (y / 2) i)

pub bit-bit_or : (x y i : ℕ) → bit (bit_or x y) i ≡ (bit x i || bit y i)
unfolding bit
bit-bit_or x y zero = ground (arith, bit_or_step x y)
bit-bit_or x y (suc i) =
    let half : bit_or x y / 2 ≡ bit_or (x / 2) (y / 2) = omega (arith, bit_or_step x y) in
    rw half (bit-bit_or (x / 2) (y / 2) i)

pub bit-complement : (w x i : ℕ) → x < 2 ^ w → i < w → bit (complement w x) i ≡ not (bit x i)
unfolding bit complement
bit-complement zero x i h k = elim k [ ]
bit-complement (suc w) x zero h k = ground (arith, pow-suc 2 w, one-le-pow w 2)
bit-complement (suc w) x (suc i) h k =
    let half : (2 ^ suc w - 1 - x) / 2 ≡ 2 ^ w - 1 - x / 2 = omega (arith, pow-suc 2 w) in
    rw half (bit-complement w (x / 2) i (omega (arith, pow-suc 2 w)) (omega arith))

pub bit-two_pow : (k i : ℕ) → bit (2 ^ k) i ≡ (k == i)
unfolding bit
bit-two_pow zero zero = refl
bit-two_pow zero (suc i) = bit-zero i ∙ (ground arith)
bit-two_pow (suc k) zero = ground (arith, pow-suc 2 k)
bit-two_pow (suc k) (suc i) =
    let half : 2 ^ suc k / 2 ≡ 2 ^ k = omega (arith, pow-suc 2 k) in
    rw half (bit-two_pow k i ∙ (ground arith))

-- Numbers with the same digits are equal.
pub bit_ext : (w x y : ℕ) → x < 2 ^ w → y < 2 ^ w → ((i : ℕ) → i < w → bit x i ≡ bit y i) → x ≡ y
unfolding bit
bit_ext zero x y hx hy h = omega arith
bit_ext (suc w) x y hx hy h =
    let tails : x / 2 ≡ y / 2 =
      bit_ext w (x / 2) (y / 2) (omega (arith, pow-suc 2 w)) (omega (arith, pow-suc 2 w))
        (λ i k. h (suc i) (omega arith)) in
    ground (arith, tails, h 0)

-- `x & (1 << k) != 0` asks for digit `k`.
bit_and-zero_upto : (n x : ℕ) → x ≤ n → bit_and x 0 ≡ 0
bit_and-zero_upto n zero h = omega (arith, bit_and_step 0 0)
bit_and-zero_upto zero (suc x) h = elim h [ ]
bit_and-zero_upto (suc n) (suc x) h =
    omega (arith, bit_and_step (suc x) 0, bit_and-zero_upto n (suc x / 2) (omega arith))

pub bit_and-two_pow : (x k : ℕ) → bit_and x (2 ^ k) ≡ (if bit x k then 2 ^ k else 0)
unfolding bit
bit_and-two_pow x zero = ground (arith, bit_and_step x 1, bit_and-zero_upto (x / 2) (x / 2))
bit_and-two_pow x (suc k) = ground (
  arith,
  bit_and_step x (2 ^ suc k),
  pow-suc 2 k,
  ap (bit_and (x / 2)) halved,
  bit_and-two_pow (x / 2) k,
)
  where
    halved : 2 ^ suc k / 2 ≡ 2 ^ k
    halved = omega (arith, pow-suc 2 k)

pub bit_test : (x k : ℕ) → (bit_and x (2 ^ k) == 0) ≡ not (bit x k)
bit_test x k = ground (arith, bit_and-two_pow x k, one-le-pow k 2)

-- The digits of shifted and truncated numbers.
pub bit-shr : (x k i : ℕ) → bit (x / 2 ^ k) i ≡ bit x (k + i)
unfolding bit
bit-shr x zero i =
    let quotient : x / 1 ≡ x = omega arith in
    let index : 0 + i ≡ i = omega arith in rw (quotient, index)
bit-shr x (suc k) i =
    let quotient : x / 2 ^ suc k ≡ x / 2 / 2 ^ k =
      ap (λ (d : ℕ). x / d) (omega (arith, pow-suc 2 k)) ∙ sym (div-div-eq-div-mul x 2 (2 ^ k)) in
    let index : suc k + i ≡ suc (k + i) = omega arith in rw (quotient, index) (bit-shr (x / 2) k i)

-- A low half of a doubled modulus.
mod-double-half : (x d : ℕ) → 0 < d → x % (2 * d) / 2 ≡ x / 2 % d
mod-double-half x d h = grind (arith, div-div-eq-div-mul x 2 d)

mod-double-parity : (x d : ℕ) → 0 < d → x % (2 * d) % 2 ≡ x % 2
mod-double-parity x d h = grind (arith)

mod_two_pow-half : (x k : ℕ) → x % 2 ^ suc k / 2 ≡ x / 2 % 2 ^ k
mod_two_pow-half x k =
    ap (λ (d : ℕ). x % d / 2) (omega (arith, pow-suc 2 k))
    ∙ mod-double-half x (2 ^ k) (one-le-pow k 2 (omega arith))

mod_two_pow-parity : (x k : ℕ) → x % 2 ^ suc k % 2 ≡ x % 2
mod_two_pow-parity x k =
    ap (λ (d : ℕ). x % d % 2) (omega (arith, pow-suc 2 k))
    ∙ mod-double-parity x (2 ^ k) (one-le-pow k 2 (omega arith))

pub bit-mod_two_pow : (x k i : ℕ) → bit (x % 2 ^ k) i ≡ (ltb i k && bit x i)
unfolding bit
bit-mod_two_pow x zero i = ap (λ (y : ℕ). bit y i) (omega arith) ∙ bit-zero i ∙ ground arith
bit-mod_two_pow x (suc k) zero = ground (arith, mod_two_pow-parity x k)
bit-mod_two_pow x (suc k) (suc i) =
    rw (mod_two_pow-half x k) (bit-mod_two_pow (x / 2) k i ∙ ground arith)

-- A mask of `k` ones takes the remainder by `2 ^ k`.
pub bit_and-low_mask : (k x : ℕ) → bit_and x (2 ^ k - 1) ≡ x % 2 ^ k
bit_and-low_mask zero x = omega (arith, bit_and-zero_upto x x)
bit_and-low_mask (suc k) x =
    let halved : (2 ^ suc k - 1) / 2 ≡ 2 ^ k - 1 = omega (arith, pow-suc 2 k) in
    omega (
      arith,
      bit_and_step x (2 ^ suc k - 1),
      ap (bit_and (x / 2)) halved,
      bit_and-low_mask k (x / 2),
      pow-suc 2 k,
      one-le-pow k 2 (omega arith),
      mod_two_pow-half x k,
      mod_two_pow-parity x k,
    )

pub bit_and_self : (n x : ℕ) → x ≤ n → bit_and x x ≡ x
bit_and_self n zero h = omega (arith, bit_and_step 0 0)
bit_and_self zero (suc x) h = elim h [ ]
bit_and_self (suc n) (suc x) h =
    omega (arith, bit_and_step (suc x) (suc x), bit_and_self n (suc x / 2) (omega arith))

-- A number that shares no digit with its predecessor is a power of two.
power_of_two_upto : (n x : ℕ) → x ≤ n → 0 < x → bit_and x (x - 1) ≡ 0 → (k : ℕ) × (x ≡ 2 ^ k)
power_of_two_upto zero x h p e = absurd (omega arith)
power_of_two_upto (suc n) x h p e = elim (Bool-cases (x % 2 == 0)) [
  | inl even ↦
      let halves : x % 2 ≡ 0 = ground arith in
      let less : (x - 1) / 2 ≡ x / 2 - 1 = omega arith in
      let rest =
        power_of_two_upto n (x / 2) (omega arith) (omega arith)
          (omega (arith, bit_and_step x (x - 1), ap (bit_and (x / 2)) less)) in
      (suc rest.0, omega (arith, rest.1, pow-suc 2 rest.0))
  | inr odd ↦
      let parity : x % 2 ≡ 1 = ground arith in
      let same : (x - 1) / 2 ≡ x / 2 = omega arith in
      (
        0,
        omega (
          arith,
          bit_and_step x (x - 1),
          ap (bit_and (x / 2)) same,
          bit_and_self (x / 2) (x / 2) (omega arith),
        ),
      )
]

pub power_of_two : (x : ℕ) → 0 < x → bit_and x (x - 1) ≡ 0 → (k : ℕ) × (x ≡ 2 ^ k)
power_of_two x = power_of_two_upto x x (omega arith)

-- Clearing and setting one digit.
pub bit_clear :
    (w x i j : ℕ)
    → i < w
    → j < w
    → bit (bit_and x (complement w (2 ^ i))) j ≡ (bit x j && not (i == j))
bit_clear w x i j hi hj =
    let fits : 2 ^ i < 2 ^ w = omega (
      arith,
      pow-le-pow_right {n = 2} (omega arith) {i = suc i} {j = w} hi,
      pow-suc 2 i,
      one-le-pow i 2 (omega arith),
    ) in
    ground (
      arith,
      bit-bit_and x (complement w (2 ^ i)) j,
      bit-complement w (2 ^ i) j fits hj,
      bit-two_pow i j,
    )

pub bit_raise : (x i j : ℕ) → bit (bit_or x (2 ^ i)) j ≡ (bit x j || i == j)
bit_raise x i j = ground (arith, bit-bit_or x (2 ^ i) j, bit-two_pow i j)

-- Shifting to the left puts zeros below.
pub bit-shl : (x k i : ℕ) → bit (x * 2 ^ k) i ≡ (if ltb i k then false else bit x (i - k))
unfolding bit
bit-shl x zero i =
    let same : x * 1 ≡ x = omega arith in
    let index : i - 0 ≡ i = omega arith in rw (same, index) (ground arith)
bit-shl x (suc k) zero = ground (arith, ap (λ (p : ℕ). x * p) (pow-suc 2 k))
bit-shl x (suc k) (suc i) =
    let half : x * 2 ^ suc k / 2 ≡ x * 2 ^ k = omega (arith, ap (λ (p : ℕ). x * p) (pow-suc 2 k)) in
    let index : suc i - suc k ≡ i - k = omega arith in
    rw (half, index) (bit-shl x k i ∙ ground arith)

-- The digits of a mask of `k` ones.
pub bit-low_mask : (k i : ℕ) → bit (2 ^ k - 1) i ≡ ltb i k
bit-low_mask k i =
    let small : (2 ^ k - 1) % 2 ^ k ≡ 2 ^ k - 1 = mod-eq_of_lt (omega (arith, one-le-pow k 2)) in
    let cut : bit (2 ^ k - 1) i ≡ (ltb i k && bit (2 ^ k - 1) i) =
      rw small at (bit-mod_two_pow (2 ^ k - 1) k i) in
    elim (dec_lt i k) [
      | yes h ↦
          let ones = bit-complement k 0 i (one-le-pow k 2 (omega arith)) h in
          unfold complement in (ground (arith, ones, bit-zero i))
      | no h ↦ cut ∙ ground arith
    ]

bit_and_zero : (y : ℕ) → bit_and 0 y ≡ 0
bit_and_zero y = bit_and-bitwise 0 y

bit_and_le_upto : (n x y : ℕ) → x ≤ n → bit_and x y ≤ x
bit_and_le_upto n zero y h = omega (arith, bit_and_zero y)
bit_and_le_upto zero (suc x) y h = elim h [ ]
bit_and_le_upto (suc n) (suc x) y h =
    omega (arith, bit_and_step (suc x) y, bit_and_le_upto n (suc x / 2) (y / 2) (omega arith))

-- The bits of both are at most those of one.
pub bit_and_le : (x y : ℕ) → bit_and x y ≤ x
bit_and_le x y = bit_and_le_upto x x y (omega arith)

-- The digits of either stay within the width.
pub bit_or_lt : (w x y : ℕ) → x < 2 ^ w → y < 2 ^ w → bit_or x y < 2 ^ w
bit_or_lt zero zero y h k = omega (arith, bit_or-bitwise 0 y)
bit_or_lt zero (suc x) y h k = ground arith
bit_or_lt (suc w) x y h k =
    let rest =
      bit_or_lt w (x / 2) (y / 2) (omega (arith, pow-suc 2 w)) (omega (arith, pow-suc 2 w)) in
    omega (arith, bit_or_step x y, rest, pow-suc 2 w)
