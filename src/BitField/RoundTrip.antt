-- ===== src/BitField/RoundTrip.antt =====
-- What is set is what is read.
use pmctrack.Prelude.{
  ℕ, zero, suc, ◌+◌, ◌-◌, ◌*◌, ◌/◌, ◌%◌, ◌^◌, ◌<◌, ◌≤◌, ◌≡◌, refl, ap, ap₂, sym, ◌∙◌, arith, ltb,
  true, false, Bool-cases, inl, inr, mod_below,
}
use Prim.Native.Nat.{bit_and, bit_or}
use native.Mathlib.Nat.{
  pow-suc, one-le-pow, div-lt_iff_lt-mul, div-div-eq-div-mul, pow-le-pow_right, mul-div_cancel,
}
use pmctrack.Prelude.Digits.{bit_or_lowest, bit_or-zero}
use pmctrack.BitField.{
  shift_left, shift_right, ones, init_bit_field, clear_bit_field, set_bit_field, get_bit_field,
}
use pmctrack.BitField.Masks.{
  written_inside, written_low, written_up, written_above, written, bit_and_ones, bit_and_up,
  times_pow-suc,
}

times_pow-add : (x a b : ℕ) → x * 2 ^ a * 2 ^ b ≡ x * 2 ^ (a + b)
times_pow-add x a zero = omega (arith, ap (λ k. x * 2 ^ k) {x = a} {y = a + 0} (omega arith))
times_pow-add x a (suc b) = omega (
  arith,
  times_pow-suc (x * 2 ^ a) b,
  times_pow-suc x (a + b),
  times_pow-add x a b,
  ap (λ k. x * 2 ^ k) {x = a + suc b} {y = suc (a + b)} (omega arith),
)

-- A number of `n` digits that is moved up by `s`
times_pow_below : (n s v : ℕ) → v < 2 ^ n → v * 2 ^ s < 2 ^ (n + s)
times_pow_below n zero v l = omega (arith, ap (λ k. 2 ^ k) {x = n} {y = n + 0} (omega arith))
times_pow_below n (suc s) v l = omega (
  arith,
  times_pow-suc v s,
  times_pow_below n s v l,
  pow-suc 2 (n + s),
  ap (λ k. 2 ^ k) {x = n + suc s} {y = suc (n + s)} (omega arith),
)

below_word : (n s v : ℕ) → v < 2 ^ n → n + s ≤ 64 → v * 2 ^ s < 2 ^ 64
below_word n s v l h =
    omega (
      arith,
      times_pow_below n s v l,
      pow-le-pow_right {n = 2} (omega arith) {i = n + s} {j = 64} h,
    )

shift_left_lem : (n s v : ℕ) → v < 2 ^ n → n + s ≤ 64 → shift_left v s ≡ v * 2 ^ s
unfolding shift_left
shift_left_lem n s v l h = elim (Bool-cases (ltb 20 s)) [
  | inl e ↦
      let low = mod_below (v * 2 ^ 20) (2 ^ 64) (below_word n 20 v l (ground arith)) in
      let whole : v * 2 ^ 20 * 2 ^ (s - 20) ≡ v * 2 ^ s =
        times_pow-add v 20 (s - 20)
        ∙ ap (λ k. v * 2 ^ k) {x = 20 + (s - 20)} {y = s} (ground arith) in
      rw (e) (
        ap (λ w. w * 2 ^ (s - 20) % 2 ^ 64) low
        ∙ ap (λ w. w % 2 ^ 64) whole
        ∙ mod_below (v * 2 ^ s) (2 ^ 64) (below_word n s v l h))
  | inr e ↦ rw (e) (mod_below (v * 2 ^ s) (2 ^ 64) (below_word n s v l h))
]

shift_right_lem : (s v : ℕ) → shift_right (v * 2 ^ s) s ≡ v
unfolding shift_right
shift_right_lem s v = elim (Bool-cases (ltb 20 s)) [
  | inl e ↦
      let whole : v * 2 ^ (s - 20) * 2 ^ 20 ≡ v * 2 ^ s =
        times_pow-add v (s - 20) 20
        ∙ ap (λ k. v * 2 ^ k) {x = s - 20 + 20} {y = s} (ground arith) in
      rw (e) (
        ap (λ w. w / 2 ^ 20 / 2 ^ (s - 20)) (sym whole)
        ∙ ap (λ w. w / 2 ^ (s - 20)) (mul-div_cancel (v * 2 ^ (s - 20)) {n = 2 ^ 20} (omega arith))
        ∙ mul-div_cancel v (one-le-pow (s - 20) 2 (omega arith)))
  | inr e ↦ rw (e) (mul-div_cancel v (one-le-pow s 2 (omega arith)))
]

next_one : (mask i : ℕ) → mask + 2 ≡ 2 ^ suc i → bit_or mask 0x1 ≡ mask + 1
next_one mask i e = omega (arith, pow-suc 2 i, bit_or_lowest mask 1, bit_or-zero (mask / 2))

-- The loop sets one digit in each round.
ones_lem :
    (left i n mask : ℕ)
    → i + suc left ≡ n
    → n ≤ 64
    → mask + 2 ≡ 2 ^ suc i
    → ones n i (suc left) mask ≡ 2 ^ n - 1
unfolding ones
ones_lem zero i n mask h l e =
    let last : ltb i (n - 1) ≡ false = ground arith in
    rw (last) (omega (arith, next_one mask i e, ap (λ k. 2 ^ k) {x = suc i} {y = n} (omega arith)))
ones_lem (suc left) i n mask h l e =
    let more : ltb i (n - 1) ≡ true = ground arith in
    let small = pow-le-pow_right {n = 2} (omega arith) {i = suc (suc i)} {j = 64} (omega arith) in
    rw (more) (
      ones_lem left (i + 1) n _ (omega arith) l (
        omega (
          arith,
          next_one mask i e,
          pow-suc 2 (suc i),
          small,
          ap (λ k. 2 ^ k) {x = suc (i + 1)} {y = suc (suc i)} (omega arith),
        )))

all_ones : (n : ℕ) → n ≤ 64 → ones n 0 n 0 ≡ 2 ^ n - 1
unfolding ones
all_ones zero h = refl
all_ones (suc n) h = ones_lem n 0 (suc n) 0 (omega arith) h refl

module _ (starting_bit n_bits : ℕ) (inside : n_bits + starting_bit ≤ 64) where
  ones_below : 2 ^ n_bits - 1 < 2 ^ n_bits
  ones_below = omega (arith, one-le-pow n_bits 2 (omega arith))

  mask_lem : (init_bit_field starting_bit n_bits).mask ≡ (2 ^ n_bits - 1) * 2 ^ starting_bit
  unfolding init_bit_field
  mask_lem =
      ap (λ w. shift_left w starting_bit) (all_ones n_bits (omega arith))
      ∙ shift_left_lem n_bits starting_bit (2 ^ n_bits - 1) ones_below inside

  mask_below : (init_bit_field starting_bit n_bits).mask < 2 ^ 64
  mask_below =
      omega (arith, mask_lem, below_word n_bits starting_bit (2 ^ n_bits - 1) ones_below inside)

  set_whole :
      (word value : ℕ)
      → value < 2 ^ n_bits
      → set_bit_field (init_bit_field starting_bit n_bits) word value
        ≡ written 64 word ((2 ^ n_bits - 1) * 2 ^ starting_bit) (value * 2 ^ starting_bit)
  unfolding init_bit_field set_bit_field clear_bit_field
  set_whole word value fits =
      ap₂ (written 64 word) mask_lem (shift_left_lem n_bits starting_bit value fits inside)

  above : (x : ℕ) → x / 2 ^ (n_bits + starting_bit) ≡ x / 2 ^ starting_bit / 2 ^ n_bits
  above x =
      ap (λ p. x / p) {x = 2 ^ (n_bits + starting_bit)} {y = 2 ^ starting_bit * 2 ^ n_bits}
        (omega (
          arith,
          times_pow-add 1 starting_bit n_bits,
          ap (λ k. 2 ^ k) {x = n_bits + starting_bit} {y = starting_bit + n_bits} (omega arith),
          ap (λ k. k * 2 ^ n_bits) {x = 1 * 2 ^ starting_bit} {y = 2 ^ starting_bit} (omega arith),
        ))
      ∙ sym (div-div-eq-div-mul x (2 ^ starting_bit) (2 ^ n_bits))

  set_above :
      (word value : ℕ)
      → word < 2 ^ 64
      → written 64 word ((2 ^ n_bits - 1) * 2 ^ starting_bit) (value * 2 ^ starting_bit)
          / 2 ^ (n_bits + starting_bit)
        ≡ word / 2 ^ (n_bits + starting_bit)
  set_above word value h =
      let k = 64 - starting_bit in
      let e : k + starting_bit ≡ 64 = omega arith in
      let a = (2 ^ n_bits - 1) * 2 ^ starting_bit in
      let v = value * 2 ^ starting_bit in
      let room : word / 2 ^ starting_bit < 2 ^ k =
        (div-lt_iff_lt-mul (one-le-pow starting_bit 2 (omega arith))).1 (
          omega (
            arith,
            h,
            times_pow-add 1 k starting_bit,
            ap (λ j. 2 ^ j) e,
            ap (λ j. j * 2 ^ starting_bit) {x = 1 * 2 ^ k} {y = 2 ^ k} (omega arith),
          )) in
      above (written 64 word a v)
      ∙ ap (λ x. x / 2 ^ n_bits)
          (ap (λ j. written j word a v / 2 ^ starting_bit) (sym e)
            ∙ written_up starting_bit k word (2 ^ n_bits - 1) value)
      ∙ written_above n_bits k (word / 2 ^ starting_bit) value room (omega arith)
      ∙ sym (above word)

  read :
      (word value : ℕ)
      → value < 2 ^ n_bits
      → let b = init_bit_field starting_bit n_bits in
        get_bit_field b (set_bit_field b word value) ≡ value
  unfolding init_bit_field get_bit_field set_bit_field clear_bit_field
  read word value fits =
      let m = (init_bit_field starting_bit n_bits).mask in
      ap (λ w. shift_right w starting_bit)
        (written_inside 64 word m (shift_left value starting_bit) mask_below
          ∙ ap₂ bit_and mask_lem (shift_left_lem n_bits starting_bit value fits inside)
          ∙ bit_and_up starting_bit (2 ^ n_bits - 1) value
          ∙ ap (λ w. w * 2 ^ starting_bit) (bit_and_ones n_bits value fits))
      ∙ shift_right_lem starting_bit value

  -- A value that fits into a field of a register of 64 bits is read back after it is set; the bits of
  -- the register below the field, and those above it, are as they were.
  pub get_bit_field-set_bit_field :
      (word value : ℕ)
      → word < 2 ^ 64
      → value < 2 ^ n_bits
      → let b = init_bit_field starting_bit n_bits in
        let word' = set_bit_field b word value in
        (get_bit_field b word' ≡ value)
        × (word' % 2 ^ starting_bit ≡ word % 2 ^ starting_bit)
        × (word' / 2 ^ (n_bits + starting_bit) ≡ word / 2 ^ (n_bits + starting_bit))
  get_bit_field-set_bit_field word value small fits = (
    read word value fits,
    ap (λ x. x % 2 ^ starting_bit) (set_whole word value fits)
        ∙ written_low starting_bit 64 word (2 ^ n_bits - 1) value (omega arith),
    ap (λ x. x / 2 ^ (n_bits + starting_bit)) (set_whole word value fits)
        ∙ set_above word value small,
  )
