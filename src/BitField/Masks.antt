-- ===== src/BitField/Masks.antt =====
-- Masks, digit by digit.
use pmctrack.Prelude.{
  ℕ, ◌+◌, ◌≤◌, mod_below, zero, suc, ◌-◌, ◌*◌, ◌/◌, ◌%◌, ◌^◌, ◌<◌, ◌≡◌, ap, ap₂, sym, ◌∙◌, arith,
  min,
}
use Prim.Native.Nat.{max, bit_and, bit_or, bit_xor}
use native.Mathlib.Nat.{
  pow-suc, one-le-pow, div-add-mod, mod-lt, mul-add-mod_self_left, div-div-eq-div-mul,
}
use pmctrack.Prelude.Digits.{
  bit_and-half, bit_and-parity, bit_or-half, bit_or-parity, bit_xor-half, bit_xor-parity,
  bit_and-zero, zero-bit_and,
}

by_halves : (x y : ℕ) → x / 2 ≡ y / 2 → x % 2 ≡ y % 2 → x ≡ y
by_halves x y h p = omega arith

-- The digits of a word of `suc k` ones
ones_half : (k : ℕ) → (2 ^ suc k - 1) / 2 ≡ 2 ^ k - 1
ones_half k = omega (arith, pow-suc 2 k)

ones_odd : (k : ℕ) → (2 ^ suc k - 1) % 2 ≡ 1
ones_odd k = omega (arith, pow-suc 2 k, one-le-pow k 2 (omega arith))

pub times_pow-suc : (x s : ℕ) → x * 2 ^ suc s ≡ 2 * (x * 2 ^ s)
times_pow-suc x s = omega (arith, ap (λ p. x * p) (pow-suc 2 s))

-- The low digits, the lowest one first
mod_pow-suc : (x s : ℕ) → x % 2 ^ suc s ≡ x % 2 + 2 * (x / 2 % 2 ^ s)
mod_pow-suc x s =
    let p = 2 ^ s in
    let t = x / 2 / p in
    let low = x % 2 + 2 * (x / 2 % p) in
    let whole : x ≡ 2 ^ suc s * t + low =
      omega (arith, div-add-mod (x / 2) p, ap (λ y. y * t) (pow-suc 2 s)) in
    let small : low < 2 ^ suc s =
      omega (arith, mod-lt (x / 2) {m = p} (one-le-pow s 2 (omega arith)), pow-suc 2 s) in
    ap (λ y. y % 2 ^ suc s) whole
    ∙ mul-add-mod_self_left (2 ^ suc s) t low
    ∙ mod_below low (2 ^ suc s) small

div_pow-suc : (x s : ℕ) → x / 2 ^ suc s ≡ x / 2 / 2 ^ s
div_pow-suc x s =
    ap (λ p. x / p) {x = 2 ^ suc s} {y = 2 * 2 ^ s} (omega (arith, pow-suc 2 s))
    ∙ sym (div-div-eq-div-mul x 2 (2 ^ s))

-- What is written over the digits of `m`
abbrev pub written : ℕ → ℕ → ℕ → ℕ → ℕ
written k d m v = bit_or (bit_and d (bit_xor m (2 ^ k - 1))) (bit_and m v)

written-half : (k d m v : ℕ) → written (suc k) d m v / 2 ≡ written k (d / 2) (m / 2) (v / 2)
written-half k d m v =
    bit_or-half _ _
    ∙ ap₂ bit_or
        (bit_and-half d _
          ∙ ap (bit_and (d / 2)) (bit_xor-half m _ ∙ ap (bit_xor (m / 2)) (ones_half k)))
        (bit_and-half m v)

written-parity :
    (k d m v : ℕ) → written (suc k) d m v % 2 ≡ max (min (d % 2) (1 - m % 2)) (min (m % 2) (v % 2))
written-parity k d m v =
    bit_or-parity _ _
    ∙ ap₂ max (bit_and-parity d _ ∙ ap (min (d % 2)) (bit_xor-parity m _ (ones_odd k)))
        (bit_and-parity m v)

-- Under the mask stands what was written.
pub written_inside : (k d m v : ℕ) → m < 2 ^ k → bit_and (written k d m v) m ≡ bit_and m v
written_inside zero d m v l =
    let e : m ≡ 0 = omega arith in
    ap (bit_and (written 0 d m v)) e
    ∙ bit_and-zero _
    ∙ sym (ap (λ w. bit_and w v) e ∙ zero-bit_and v)
written_inside (suc k) d m v l =
    by_halves _ _
      (bit_and-half _ m
        ∙ ap (λ w. bit_and w (m / 2)) (written-half k d m v)
        ∙ written_inside k (d / 2) (m / 2) (v / 2) (omega (arith, pow-suc 2 k))
        ∙ sym (bit_and-half m v))
      (omega (
        arith,
        bit_and-parity (written (suc k) d m v) m,
        written-parity k d m v,
        bit_and-parity m v,
      ))

-- The low digits of a word
pub bit_and_ones : (n v : ℕ) → v < 2 ^ n → bit_and (2 ^ n - 1) v ≡ v
bit_and_ones zero v l = omega (arith, zero-bit_and v)
bit_and_ones (suc n) v l =
    by_halves _ _
      (bit_and-half _ v
        ∙ ap (λ w. bit_and w (v / 2)) (ones_half n)
        ∙ bit_and_ones n (v / 2) (omega (arith, pow-suc 2 n)))
      (omega (arith, bit_and-parity (2 ^ suc n - 1) v, ones_odd n))

-- A mask that stands `s` digits up
pub bit_and_up : (s a v : ℕ) → bit_and (a * 2 ^ s) (v * 2 ^ s) ≡ bit_and a v * 2 ^ s
bit_and_up zero a v =
    let same : (x : ℕ) → x * 2 ^ 0 ≡ x = λ x. omega arith in
    ap₂ bit_and (same a) (same v) ∙ sym (same (bit_and a v))
bit_and_up (suc s) a v =
    let half : (x : ℕ) → x * 2 ^ suc s / 2 ≡ x * 2 ^ s = λ x. omega (arith, times_pow-suc x s) in
    by_halves _ _
      (bit_and-half _ _
        ∙ ap₂ bit_and (half a) (half v)
        ∙ bit_and_up s a v
        ∙ sym (half (bit_and a v)))
      (omega (
        arith,
        bit_and-parity (a * 2 ^ suc s) (v * 2 ^ suc s),
        times_pow-suc a s,
        times_pow-suc v s,
        times_pow-suc (bit_and a v) s,
      ))

-- Below the mask the word is as it was,
pub written_low : (s k d a v : ℕ) → s ≤ k → written k d (a * 2 ^ s) (v * 2 ^ s) % 2 ^ s ≡ d % 2 ^ s
written_low zero k d a v l = omega arith
written_low (suc s) zero d a v l = absurd (omega arith)
written_low (suc s) (suc k) d a v l =
    let half : (x : ℕ) → x * 2 ^ suc s / 2 ≡ x * 2 ^ s = λ x. omega (arith, times_pow-suc x s) in
    let w = written (suc k) d (a * 2 ^ suc s) (v * 2 ^ suc s) in
    let rest : w / 2 % 2 ^ s ≡ d / 2 % 2 ^ s =
      ap (λ x. x % 2 ^ s)
        (written-half k d (a * 2 ^ suc s) (v * 2 ^ suc s)
          ∙ ap₂ (written k (d / 2)) (half a) (half v))
      ∙ written_low s k (d / 2) a v (omega arith) in
    mod_pow-suc w s
    ∙ omega (
      arith,
      rest,
      times_pow-suc a s,
      times_pow-suc v s,
      written-parity k d (a * 2 ^ suc s) (v * 2 ^ suc s),
    )
    ∙ sym (mod_pow-suc d s)

-- and so it is at the digits of the mask and above it.
pub written_up :
    (s k d a v : ℕ) → written (k + s) d (a * 2 ^ s) (v * 2 ^ s) / 2 ^ s ≡ written k (d / 2 ^ s) a v
written_up zero k d a v =
    let same : (x : ℕ) → x * 2 ^ 0 ≡ x = λ x. omega arith in
    let one : (x : ℕ) → x / 2 ^ 0 ≡ x = λ x. omega arith in
    one (written (k + 0) d (a * 2 ^ 0) (v * 2 ^ 0))
    ∙ ap (λ j. written j d (a * 2 ^ 0) (v * 2 ^ 0)) {x = k + 0} {y = k} (omega arith)
    ∙ ap₂ (written k d) (same a) (same v)
    ∙ ap (λ e. written k e a v) (sym (one d))
written_up (suc s) k d a v =
    let half : (x : ℕ) → x * 2 ^ suc s / 2 ≡ x * 2 ^ s = λ x. omega (arith, times_pow-suc x s) in
    let a2 = a * 2 ^ suc s in
    let v2 = v * 2 ^ suc s in
    div_pow-suc (written (k + suc s) d a2 v2) s
    ∙ ap (λ x. x / 2 ^ s)
        (ap (λ j. written j d a2 v2 / 2) {x = k + suc s} {y = suc (k + s)} (omega arith)
          ∙ written-half (k + s) d a2 v2
          ∙ ap₂ (written (k + s) (d / 2)) (half a) (half v))
    ∙ written_up s k (d / 2) a v
    ∙ ap (λ e. written k e a v) (sym (div_pow-suc d s))

written_none : (k d v : ℕ) → d < 2 ^ k → written k d 0 v ≡ d
written_none zero d v h = ap₂ bit_or (bit_and-zero d) (zero-bit_and v) ∙ omega arith
written_none (suc k) d v h =
    by_halves _ _
      (written-half k d 0 v ∙ written_none k (d / 2) (v / 2) (omega (arith, pow-suc 2 k)))
      (omega (arith, written-parity k d 0 v))

pub written_above :
    (n k d v : ℕ) → d < 2 ^ k → n ≤ k → written k d (2 ^ n - 1) v / 2 ^ n ≡ d / 2 ^ n
written_above zero k d v h l =
    let one : (x : ℕ) → x / 2 ^ 0 ≡ x = λ x. omega arith in
    one (written k d (2 ^ 0 - 1) v) ∙ written_none k d v h ∙ sym (one d)
written_above (suc n) zero d v h l = absurd (omega arith)
written_above (suc n) (suc k) d v h l =
    div_pow-suc (written (suc k) d (2 ^ suc n - 1) v) n
    ∙ ap (λ x. x / 2 ^ n)
        (written-half k d (2 ^ suc n - 1) v ∙ ap (λ m. written k (d / 2) m (v / 2)) (ones_half n))
    ∙ written_above n k (d / 2) (v / 2) (omega (arith, pow-suc 2 k)) (omega arith)
    ∙ sym (div_pow-suc d n)
