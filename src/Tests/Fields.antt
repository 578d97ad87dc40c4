-- ===== src/Tests/Fields.antt =====
-- The event number of a counter's configuration register, and a field above bit 20.
use pmctrack.Prelude.{◌+◌, ◌%◌, ◌/◌, ◌^◌, ◌≡◌, refl, arith}
use pmctrack.BitField.{init_bit_field, clear_bit_field, set_bit_field, get_bit_field}
use pmctrack.BitField.RoundTrip.{get_bit_field-set_bit_field}

mask_of_byte : (init_bit_field 24 8).mask ≡ 0xff000000
unfolding init_bit_field
mask_of_byte = refl

set_byte : set_bit_field (init_bit_field 24 8) 0x1234567812345678 0xab ≡ 0x12345678ab345678
unfolding init_bit_field set_bit_field clear_bit_field
set_byte = refl

get_bit_field-set_bit_field_example :
    let b = init_bit_field 24 8 in
    let word' = set_bit_field b 0x1234567812345678 0xab in
    (get_bit_field b word' ≡ 0xab)
    × (word' % 2 ^ 24 ≡ 0x1234567812345678 % 2 ^ 24)
    × (word' / 2 ^ (8 + 24) ≡ 0x1234567812345678 / 2 ^ (8 + 24))
get_bit_field-set_bit_field_example =
    get_bit_field-set_bit_field 24 8 (omega arith) 0x1234567812345678 0xab (omega arith)
      (omega arith)
