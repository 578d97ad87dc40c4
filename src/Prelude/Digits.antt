-- ===== src/Prelude/Digits.antt =====
-- The bitwise operations at their lowest digit.
use Prim.Native.Nat.{
  ℕ, zero, suc, ◌+◌, ◌*◌, ◌/◌, ◌%◌, ◌-◌, ◌≤◌, min, max, differ, digits, bitwise, bit_and, bit_or,
  bit_xor, bit_and-bitwise, bit_or-bitwise, bit_xor-bitwise,
}
use mathlib.Core.Path.{◌≡◌, refl, ap, ◌∙◌}
use native.Mathlib.Omega.{arith}

module _ (z : ℕ → ℕ) (f : ℕ → ℕ → ℕ) where
  -- More digits to go than needed make no difference.
  digits_enough : (k a b : ℕ) → a ≤ k → digits z f k a b ≡ bitwise z f a b
  digits_enough k a b h = between k a a b h (omega arith)
    where
      between : (k j x y : ℕ) → x ≤ k → x ≤ j → digits z f k x y ≡ digits z f j x y
      between zero zero x y h g = refl
      between zero (suc j) zero y h g = refl
      between zero j (suc x) y h g = absurd (omega arith)
      between (suc k) zero zero y h g = refl
      between k zero (suc x) y h g = absurd (omega arith)
      between (suc k) (suc j) zero y h g = refl
      between (suc k) (suc j) (suc x) y h g =
          rw (between k j (suc x / 2) (y / 2) (omega arith) (omega arith)) refl

  lowest :
      (a b : ℕ)
      → bitwise z f (suc a) b ≡ bitwise z f (suc a / 2) (b / 2) * 2 + f (suc a % 2) (b % 2)
  lowest a b = rw (digits_enough a (suc a / 2) (b / 2) (omega arith)) refl

pub bit_and_lowest : (a b : ℕ) → bit_and a b ≡ bit_and (a / 2) (b / 2) * 2 + min (a % 2) (b % 2)
bit_and_lowest zero b = omega (arith, bit_and-bitwise 0 b, bit_and-bitwise 0 (b / 2))
bit_and_lowest (suc a) b =
    omega (
      arith,
      bit_and-bitwise (suc a) b,
      bit_and-bitwise (suc a / 2) (b / 2),
      lowest (λ y. 0) min a b,
    )

pub bit_or_lowest : (a b : ℕ) → bit_or a b ≡ bit_or (a / 2) (b / 2) * 2 + max (a % 2) (b % 2)
bit_or_lowest zero b = omega (arith, bit_or-bitwise 0 b, bit_or-bitwise 0 (b / 2))
bit_or_lowest (suc a) b =
    omega
      (arith, bit_or-bitwise (suc a) b, bit_or-bitwise (suc a / 2) (b / 2), lowest (λ y. y) max a b)

pub bit_xor_lowest : (a b : ℕ) → bit_xor a b ≡ bit_xor (a / 2) (b / 2) * 2 + differ (a % 2) (b % 2)
bit_xor_lowest zero b =
    let d : differ (0 % 2) (b % 2) ≡ b % 2 = refl in
    omega (arith, bit_xor-bitwise 0 b, bit_xor-bitwise 0 (b / 2), d)
bit_xor_lowest (suc a) b = omega (
  arith,
  bit_xor-bitwise (suc a) b,
  bit_xor-bitwise (suc a / 2) (b / 2),
  lowest (λ y. y) differ a b,
)

differ_one : (x : ℕ) → x ≤ 1 → differ x 1 ≡ 1 - x
differ_one zero h = refl
differ_one (suc zero) h = refl
differ_one (suc (suc x)) h = absurd (omega arith)

differ_le : (x y : ℕ) → x ≤ 1 → y ≤ 1 → differ x y ≤ 1
differ_le zero y h g = g
differ_le (suc x) zero h g = h
differ_le (suc x) (suc y) h g = differ_le x y (omega arith) (omega arith)

pub bit_and-half : (a b : ℕ) → bit_and a b / 2 ≡ bit_and (a / 2) (b / 2)
bit_and-half a b = omega (arith, bit_and_lowest a b)

pub bit_and-parity : (a b : ℕ) → bit_and a b % 2 ≡ min (a % 2) (b % 2)
bit_and-parity a b = omega (arith, bit_and_lowest a b)

pub bit_or-half : (a b : ℕ) → bit_or a b / 2 ≡ bit_or (a / 2) (b / 2)
bit_or-half a b = omega (arith, bit_or_lowest a b)

pub bit_or-parity : (a b : ℕ) → bit_or a b % 2 ≡ max (a % 2) (b % 2)
bit_or-parity a b = omega (arith, bit_or_lowest a b)

pub bit_xor-half : (a b : ℕ) → bit_xor a b / 2 ≡ bit_xor (a / 2) (b / 2)
bit_xor-half a b =
    omega (arith, bit_xor_lowest a b, differ_le (a % 2) (b % 2) (omega arith) (omega arith))

-- The parity of a word whose digits are turned over
pub bit_xor-parity : (a b : ℕ) → b % 2 ≡ 1 → bit_xor a b % 2 ≡ 1 - a % 2
bit_xor-parity a b h =
    let d : differ (a % 2) (b % 2) ≡ 1 - a % 2 =
      ap (λ y. differ (a % 2) y) h ∙ differ_one (a % 2) (omega arith) in
    omega (arith, bit_xor_lowest a b, d)

bit_or-zero_within : (k a : ℕ) → a ≤ k → bit_or a 0 ≡ a
bit_or-zero_within zero zero h = refl
bit_or-zero_within zero (suc a) h = absurd (omega arith)
bit_or-zero_within (suc k) a h =
    omega (arith, bit_or_lowest a 0, bit_or-zero_within k (a / 2) (omega arith))

bit_and-zero_within : (k a : ℕ) → a ≤ k → bit_and a 0 ≡ 0
bit_and-zero_within zero zero h = refl
bit_and-zero_within zero (suc a) h = absurd (omega arith)
bit_and-zero_within (suc k) a h =
    omega (arith, bit_and_lowest a 0, bit_and-zero_within k (a / 2) (omega arith))

pub bit_or-zero : (a : ℕ) → bit_or a 0 ≡ a
bit_or-zero a = bit_or-zero_within a a (omega arith)

pub bit_and-zero : (a : ℕ) → bit_and a 0 ≡ 0
bit_and-zero a = bit_and-zero_within a a (omega arith)

pub zero-bit_and : (b : ℕ) → bit_and 0 b ≡ 0
zero-bit_and b = bit_and-bitwise 0 b
