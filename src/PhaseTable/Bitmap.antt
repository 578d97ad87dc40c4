-- ===== src/PhaseTable/Bitmap.antt =====
-- The bitmap of the phase table.
use pmctrack.Prelude.{ℕ, zero, suc, ◌-◌, ◌/◌, ◌^◌, ◌<◌, ◌≡◌, ◌≢◌, refl, ap, ◌∙◌, true, false, arith}
use pmctrack.PhaseTable.{bit, clear_bit}

pub bit-clear_bit_self : (b i : ℕ) → bit (clear_bit b i) i ≡ false
unfolding bit clear_bit
bit-clear_bit_self b zero = ground arith
bit-clear_bit_self b (suc i) =
    ap (λ x. bit x i) {y = clear_bit (b / 2) i} (omega arith) ∙ bit-clear_bit_self (b / 2) i

pub bit-clear_bit_ne : (b i j : ℕ) → i ≢ j → bit (clear_bit b i) j ≡ bit b j
unfolding bit clear_bit
bit-clear_bit_ne b zero zero ne = absurd (ne refl)
bit-clear_bit_ne b zero (suc j) ne = ap (λ x. bit x j) (omega arith)
bit-clear_bit_ne b (suc i) zero ne = ground arith
bit-clear_bit_ne b (suc i) (suc j) ne =
    ap (λ x. bit x j) {y = clear_bit (b / 2) i} (omega arith)
    ∙ bit-clear_bit_ne (b / 2) i j (λ e. ne (ap suc e))

pub bit-zero : (i : ℕ) → bit 0 i ≡ false
unfolding bit
bit-zero zero = refl
bit-zero (suc i) = bit-zero i

pow_pos : (n : ℕ) → 0 < 2 ^ n
pow_pos zero = omega arith
pow_pos (suc n) = omega (arith, pow_pos n)

-- 2 ^ n - 1 has its first `n` bits set.
pub bit-ones : (n i : ℕ) → i < n → bit (2 ^ n - 1) i ≡ true
unfolding bit
bit-ones zero i h = absurd (omega arith)
bit-ones (suc n) zero h = let p = pow_pos n in ground arith
bit-ones (suc n) (suc i) h =
    let p = pow_pos n in
    ap (λ x. bit x i) {y = 2 ^ n - 1} (omega arith) ∙ bit-ones n i (omega arith)
