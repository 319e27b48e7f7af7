-- ===== src/Common/Bits.antt =====
-- A mask of one bit: x & 2^k tells the binary digit k of x.
use Prim.Native.Nat.{
  ℕ, zero, suc, ◌+◌, ◌*◌, ◌/◌, ◌%◌, ◌≤◌, ◌^◌, min, bit_and, digits, bit_and-bitwise,
}
use mathlib.Core.Path.{◌≡◌, refl, ap}
use native.Mathlib.Decide.{dec_le}
use native.Mathlib.Nat.{pow-suc, div-div-eq-div-mul, mul_comm}
use native.Mathlib.Omega.{arith}

-- The digit recursion that `bit_and` stands for, on fuel.
abbrev common_bits : ℕ → ℕ → ℕ → ℕ
common_bits fuel x y = digits (λ _. zero) min fuel x y

common_bits-nil : (fuel y : ℕ) → common_bits fuel 0 y ≡ 0
common_bits-nil zero y = refl
common_bits-nil (suc fuel) y = refl

-- More fuel than digits changes nothing.
common_bits-fuel : (x y fuel : ℕ) → x ≤ fuel → common_bits fuel x y ≡ common_bits (suc fuel) x y
common_bits-fuel zero y fuel h = omega (arith, common_bits-nil fuel y, common_bits-nil (suc fuel) y)
common_bits-fuel (suc x) y zero h = absurd (omega arith)
common_bits-fuel (suc x) y (suc fuel) h =
    omega (arith, common_bits-fuel (suc x / 2) (y / 2) fuel (omega arith))

common_bits-enough : (x y fuel : ℕ) → x ≤ fuel → common_bits fuel x y ≡ bit_and x y
common_bits-enough zero y zero h = omega (arith, bit_and-bitwise 0 y)
common_bits-enough (suc x) y zero h = absurd (omega arith)
common_bits-enough x y (suc fuel) h = elim (dec_le x fuel) [
  | yes small ↦ omega (arith, common_bits-fuel x y fuel small, common_bits-enough x y fuel small)
  | no big ↦
      let e : x ≡ suc fuel = omega arith in
      omega (arith, bit_and-bitwise x y, ap (λ n. common_bits n x y) e)
]

bit_and-digit : (x y : ℕ) → bit_and x y ≡ 2 * bit_and (x / 2) (y / 2) + min (x % 2) (y % 2)
bit_and-digit zero y = omega (arith, bit_and-bitwise 0 y, bit_and-bitwise 0 (y / 2))
bit_and-digit (suc x) y =
    omega (arith, bit_and-bitwise (suc x) y, common_bits-enough (suc x / 2) (y / 2) x (omega arith))

bit_and-nil : (k x : ℕ) → x ≤ k → bit_and x 0 ≡ 0
bit_and-nil k zero h = refl
bit_and-nil zero (suc x) h = absurd (omega arith)
bit_and-nil (suc k) (suc x) h =
    omega (arith, bit_and-digit (suc x) 0, bit_and-nil k (suc x / 2) (omega arith))

double_half : (p : ℕ) → p * 2 / 2 ≡ p
double_half p = omega arith

-- x & (1 << k)
pub bit_and-pow : (k x : ℕ) → bit_and x (2 ^ k) ≡ 2 ^ k * (x / 2 ^ k % 2)
bit_and-pow zero x = omega (arith, bit_and-digit x 1, bit_and-nil (x / 2) (x / 2) (omega arith))
bit_and-pow (suc k) x = rw (pow-suc 2 k) (
    omega (
      arith,
      bit_and-digit x (2 ^ k * 2),
      ap (λ (m : ℕ). bit_and (x / 2) m) (double_half (2 ^ k)),
      bit_and-pow k (x / 2),
      ap (λ (m : ℕ). 2 ^ k * (m % 2)) (div-div-eq-div-mul x 2 (2 ^ k)),
      ap (λ (m : ℕ). 2 ^ k * (x / m % 2)) (mul_comm 2 (2 ^ k)),
    ))
