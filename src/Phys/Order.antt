-- ===== src/Phys/Order.antt =====
-- Orders and buddies: the arithmetic of kernel/src/memory/phys_manager.rs. `leading_zeros` and
-- `trailing_zeros` are Rust's, on 64 bits.
pub mod Neighbours
pub mod Size
use simple_os_rs.Common.{
  ℕ, zero, suc, ◌+◌, ◌-◌, ◌/◌, ◌%◌, ◌^◌, ◌==◌, if◌then◌else◌, not, bit_and, bit_xor,
}
use simple_os_rs.Common.Bits.{shl_one, complement}

abbrev pub max_order : ℕ
max_order = 8

-- The number of digits of `x`, up to the given number of rounds.
unfoldable pub bit_length : ℕ → ℕ → ℕ
bit_length zero x = 0
bit_length (suc f) x = let rest = suc (bit_length f (x / 2)) in if x == 0 then 0 else rest

unfoldable pub leading_zeros : ℕ → ℕ
leading_zeros x = 64 - bit_length 64 x

-- The number of zeros below the lowest one, up to the given number of rounds.
unfoldable pub low_zeros : ℕ → ℕ → ℕ
low_zeros zero x = 0
low_zeros (suc f) x = let rest = suc (low_zeros f (x / 2)) in if x % 2 == 1 then 0 else rest

unfoldable pub trailing_zeros : ℕ → ℕ
trailing_zeros x = low_zeros 64 x

unfoldable pub get_buddy_index : ℕ → ℕ → ℕ
get_buddy_index index order = bit_xor index (shl_one order)

unfoldable pub get_combined_index : ℕ → ℕ → ℕ
get_combined_index index order = bit_and index (complement 64 (shl_one order))

-- The subtraction is on 32 bits and wraps in a release build (`count` is 0).
unfoldable pub get_size_order : ℕ → ℕ
get_size_order count =
    let order = (63 + 2 ^ 32 - leading_zeros count) % 2 ^ 32 in
    if not (bit_and count (shl_one order) == count) then order + 1 else order
