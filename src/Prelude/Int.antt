-- ===== src/Prelude/Int.antt =====
-- Signed integers over the native numbers. A value of C's `int` is the integer itself; `int_of` is
-- `none` outside of its range.
use Prim.Native.Nat.{ℕ, zero, suc, ◌+◌, ◌-◌, ◌*◌, ◌/◌, ◌^◌, ◌≤◌, ◌<◌}
use mathlib.Core.Option.{Option, none, some}
use mathlib.Core.Path.{◌≡◌, ap}
use mathlib.Core.Bool.{Bool, true, false}
use mathlib.Core.Logic.{◌≢◌, inl, inr}
use native.Mathlib.Omega.{arith}
use pmctrack.Prelude.Tests.{Bool-cases, ltb, leb, ◌==◌, if◌then◌else◌}

-- `negsuc n` is -(n + 1).
pub data ℤ : Type 0 where
  pos : ℕ → ℤ
  negsuc : ℕ → ℤ

-- -ENOMEM
abbrev pub enomem : ℤ
enomem = negsuc 11

abbrev pub pos_part : ℤ → ℕ
pos_part (pos n) = n
pos_part (negsuc n) = 0

abbrev pub neg_part : ℤ → ℕ
neg_part (pos n) = 0
neg_part (negsuc n) = suc n

-- a - b, as an integer.
abbrev pub sub_ℕ : ℕ → ℕ → ℤ
sub_ℕ a b = if leb b a then pos (a - b) else negsuc (b - a - 1)

infixl 65 ◌+ℤ◌ ◌-ℤ◌
infixl 70 ◌*ℤ◌ ◌/ℤ◌
infix 50 ◌≤ℤ◌
unfoldable pub ◌+ℤ◌ : ℤ → ℤ → ℤ
a +ℤ b = sub_ℕ (pos_part a + pos_part b) (neg_part a + neg_part b)

unfoldable pub ◌-ℤ◌ : ℤ → ℤ → ℤ
a -ℤ b = sub_ℕ (pos_part a + neg_part b) (neg_part a + pos_part b)

unfoldable pub ◌*ℤ◌ : ℤ → ℤ → ℤ
a *ℤ b =
    sub_ℕ (pos_part a * pos_part b + neg_part a * neg_part b)
      (pos_part a * neg_part b + neg_part a * pos_part b)

-- C's division, which rounds towards zero.
unfoldable pub ◌/ℤ◌ : ℤ → ℤ → ℤ
pos a /ℤ pos b = pos (a / b)
pos a /ℤ negsuc b = sub_ℕ 0 (a / suc b)
negsuc a /ℤ pos b = sub_ℕ 0 (suc a / b)
negsuc a /ℤ negsuc b = pos (suc a / suc b)

abbrev pub ◌≤ℤ◌ : ℤ → ℤ → Type 0
a ≤ℤ b = pos_part a + neg_part b ≤ pos_part b + neg_part a

abbrev pub ltb_ℤ : ℤ → ℤ → Bool
ltb_ℤ a b = ltb (pos_part a + neg_part b) (pos_part b + neg_part a)

abbrev pub eqb_ℤ : ℤ → ℤ → Bool
eqb_ℤ a b = pos_part a + neg_part b == pos_part b + neg_part a

pub +ℤ_parts :
    (a b : ℤ)
    → pos_part (a +ℤ b) + neg_part a + neg_part b ≡ neg_part (a +ℤ b) + pos_part a + pos_part b
unfolding ◌+ℤ◌
+ℤ_parts a b = ground arith

pub -ℤ_parts :
    (a b : ℤ)
    → pos_part (a -ℤ b) + neg_part a + pos_part b ≡ neg_part (a -ℤ b) + pos_part a + neg_part b
unfolding ◌-ℤ◌
-ℤ_parts a b = ground arith

pub eq_of_parts : (a b : ℤ) → pos_part a + neg_part b ≡ pos_part b + neg_part a → a ≡ b
eq_of_parts a b h = ground arith

pub true_of_eq : (a b : ℤ) → a ≡ b → eqb_ℤ a b ≡ true
true_of_eq a b e = ground (arith, ap pos_part e, ap neg_part e)

pub false_of_ne : (a b : ℤ) → a ≢ b → eqb_ℤ a b ≡ false
false_of_ne a b n = elim (Bool-cases (eqb_ℤ a b)) [
  | inl e ↦ absurd (n (eq_of_parts a b (ground arith)))
  | inr e ↦ e
]

-- What a computation on `int` gives: nothing outside of the 32 bits, which C leaves undefined.
unfoldable pub int_of : ℤ → Option ℤ
int_of (pos n) = if ltb n (2 ^ 31) then some (pos n) else none
int_of (negsuc n) = if ltb n (2 ^ 31) then some (negsuc n) else none

pub int_of_pos : (n : ℕ) → n < 2 ^ 31 → int_of (pos n) ≡ some (pos n)
unfolding int_of
int_of_pos n h = ground arith

pub int_of_negsuc : (n : ℕ) → n < 2 ^ 31 → int_of (negsuc n) ≡ some (negsuc n)
unfolding int_of
int_of_negsuc n h = ground arith

pub below_zero : (n : ℕ) → sub_ℕ 0 (suc n) ≡ negsuc n
below_zero n = ground arith

pub int_of_opposite : (n : ℕ) → n ≤ 2 ^ 31 → int_of (sub_ℕ 0 n) ≡ some (sub_ℕ 0 n)
int_of_opposite zero h = int_of_pos 0 (omega arith)
int_of_opposite (suc n) h = rw (below_zero n) (int_of_negsuc n (omega arith))

pub ruleset int_laws = (arith, +ℤ_parts, -ℤ_parts, eq_of_parts)
