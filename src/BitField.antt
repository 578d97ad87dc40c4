-- ===== src/BitField.antt =====
-- Fields of a register of 64 bits, of src/modules/pmcs/include/pmc/data_str/bit_field.h. The register
-- that `data` points to is an argument, and `set_bit_field` gives what it then holds.
pub mod Masks
pub mod RoundTrip
use pmctrack.Prelude.{ℕ, zero, suc, ◌+◌, ◌-◌, ◌*◌, ◌/◌, ◌%◌, ◌^◌, ltb, if◌then◌else◌}
use Prim.Native.Nat.{bit_and, bit_or, bit_xor}

-- `bit_field_64`
pub record BitField64 : Type 0 where
  pub starting_bit : ℕ
  pub n_bits : ℕ
  pub mask : ℕ

-- `value << bit` on 64 bits, in two steps beyond 20
unfoldable pub shift_left : ℕ → ℕ → ℕ
shift_left value bit =
    if ltb 20 bit
    then (value * 2 ^ 20 % 2 ^ 64) * 2 ^ (bit - 20) % 2 ^ 64
    else value * 2 ^ bit % 2 ^ 64

unfoldable pub shift_right : ℕ → ℕ → ℕ
shift_right value bit = if ltb 20 bit then value / 2 ^ 20 / 2 ^ (bit - 20) else value / 2 ^ bit

-- The loop from `i` on, with `left` rounds to go
unfoldable pub ones : ℕ → ℕ → ℕ → ℕ → ℕ
ones n_bits i zero mask = mask
ones n_bits i (suc left) mask =
    let mask1 = bit_or mask 0x1 in
    let mask2 = if ltb i (n_bits - 1) then mask1 * 2 % 2 ^ 64 else mask1 in
    ones n_bits (i + 1) left mask2

unfoldable pub init_bit_field : ℕ → ℕ → BitField64
unfolding ones shift_left
init_bit_field starting_bit n_bits = record {
  starting_bit = starting_bit;
  n_bits = n_bits;
  mask = shift_left (ones n_bits 0 n_bits 0) starting_bit;
}

unfoldable pub clear_bit_field : BitField64 → ℕ → ℕ
clear_bit_field bitf word = bit_and word (bit_xor bitf.mask (2 ^ 64 - 1))

unfoldable pub set_bit_field : BitField64 → ℕ → ℕ → ℕ
unfolding clear_bit_field shift_left
set_bit_field bitf word value =
    bit_or (clear_bit_field bitf word) (bit_and bitf.mask (shift_left value bitf.starting_bit))

unfoldable pub get_bit_field : BitField64 → ℕ → ℕ
unfolding shift_right
get_bit_field bitf word = shift_right (bit_and word bitf.mask) bitf.starting_bit
