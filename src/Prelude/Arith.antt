-- ===== src/Prelude/Arith.antt =====
-- Unsigned machine words, and the remainder of a sum of two indices.
use Prim.Native.Nat.{ℕ, ◌+◌, ◌-◌, ◌%◌, ◌^◌, ◌≤◌, ◌<◌}
use mathlib.Core.Path.{◌≡◌}
use native.Mathlib.Omega.{arith}
use native.Mathlib.Nat.{mod-eq_of_lt, mod-eq-sub-mod}

-- `unsigned int` addition and subtraction.
abbrev pub add32 : ℕ → ℕ → ℕ
add32 a b = (a + b) % 2 ^ 32

abbrev pub sub32 : ℕ → ℕ → ℕ
sub32 a b = (a + 2 ^ 32 - b) % 2 ^ 32

pub mod_below : (a m : ℕ) → a < m → a % m ≡ a
mod_below a m h = mod-eq_of_lt h

pub mod_once : (a m : ℕ) → m ≤ a → a < m + m → a % m ≡ a - m
mod_once a m h k =
    omega (arith, mod-eq-sub-mod {n = a} {m = m} h, mod-eq_of_lt {n = a - m} {m = m} (omega arith))
