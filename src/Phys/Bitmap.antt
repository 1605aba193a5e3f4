-- ===== src/Phys/Bitmap.antt =====
-- The buddy bitmap: reading a word, setting a bit and clearing a bit, with the bounds checks of the
-- slice that `get_buddy_map` returns.
pub mod Laws
use simple_os_rs.Common.{update, ℕ, ◌/◌, ◌%◌, ltb, ◌==◌, if◌then◌else◌, bit_and, bit_or}
use simple_os_rs.Common.Bits.{bit, shl_one, complement}
use simple_os_rs.Common.Outcome.{Outcome, ok, panic, index_out_of_bounds, ◌>>=◌}

pub record Bitmap : Type 0 where
  pub word : ℕ → ℕ
  pub len : ℕ

unfoldable pub word_at : Bitmap → ℕ → Outcome ℕ
word_at b entry = if ltb entry b.len then ok (b.word entry) else panic index_out_of_bounds

-- `buddy_map[i / 64] |= 1 << (i % 64)`
unfoldable pub set_bit : Bitmap → ℕ → Outcome Bitmap
unfolding word_at
set_bit b i = do
  w ← word_at b (i / 64)
  ok (record b { word = update b.word (i / 64) (bit_or w (shl_one (i % 64))) })

-- `buddy_map[i / 64] &= !(1 << (i % 64))`
unfoldable pub clear_bit : Bitmap → ℕ → Outcome Bitmap
unfolding word_at
clear_bit b i = do
  w ← word_at b (i / 64)
  ok (record b { word = update b.word (i / 64) (bit_and w (complement 64 (shl_one (i % 64)))) })

-- Bit `i` of the bitmap.
abbrev pub bit_at : Bitmap → ℕ → ℕ
bit_at b i = bit (b.word (i / 64)) (i % 64)
