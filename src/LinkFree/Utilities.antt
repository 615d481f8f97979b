-- ===== src/LinkFree/Utilities.antt =====
-- LinkFree/utilities.h: the validity bits of a node's metadata byte, and the mark bit of a pointer.
-- A pointer is the number that `(uintptr_t)` gives for it; `& ~1` and `| 1` clear and set its
-- lowest digit.
pub mod Validity
pub mod Marks
use efficient_lock_free_dura.Common.{
  ℕ, ◌+◌, ◌-◌, ◌/◌, ◌%◌, ◌^◌, Bool, bit_and, bit_xor, ◌==◌, if◌then◌else◌,
}

abbrev pub high_char_mask : ℕ
high_char_mask = 0x80

abbrev pub low_mask : ℕ
low_mask = 0x1

-- `& (~mask)` on an `unsigned char`: the complement within the low eight bits.
abbrev pub clear : ℕ → ℕ → ℕ
clear byte mask = bit_and byte (0xff - mask)

-- Flips v1. What is stored is an `unsigned char`, so the sum wraps at 256.
unfoldable pub flip_v1 : ℕ → ℕ
flip_v1 old_meta_data =
    let new_v1 : ℕ = bit_xor (bit_and old_meta_data high_char_mask) high_char_mask in
    (new_v1 + clear old_meta_data high_char_mask) % 2 ^ 8

unfoldable pub is_valid : ℕ → Bool
is_valid old_meta_data =
    let v1 : ℕ = bit_and old_meta_data high_char_mask / 2 ^ 7 in
    let v2 : ℕ = bit_and old_meta_data low_mask in v1 == v2

-- The byte that `makeValid` leaves: it stores nothing if the bits agree already.
unfoldable pub make_valid : ℕ → ℕ
unfolding is_valid
make_valid old_meta_data =
    if is_valid old_meta_data
    then old_meta_data
    else (let v1 : ℕ = bit_and old_meta_data high_char_mask / 2 ^ 7 in
        (v1 + clear old_meta_data low_mask) % 2 ^ 8)

unfoldable pub is_marked : ℕ → Bool
is_marked ptr = ptr % 2 == 1

unfoldable pub get_ref : ℕ → ℕ
get_ref ptr = ptr - ptr % 2

unfoldable pub mark : ℕ → ℕ
unfolding get_ref
mark ptr = get_ref ptr + 1
