-- ===== src/Terminal.antt =====
-- The terminal of the kernel, kernel/src/terminal.rs: text on the framebuffer. `print` holds the
-- lock of the terminal from its first character to its last. The fonts are the crate font8x8's.
pub mod Laws
pub mod Log
pub mod Tests
use simple_os_rs.Common.{
  update, ℕ, zero, suc, ◌+◌, ◌-◌, ◌*◌, ◌/◌, ◌%◌, ◌^◌, List, [], ◌∷◌, Bool, not, Option, none, some,
  leb, ltb, ◌==◌, if◌then◌else◌, bit_and,
}
use simple_os_rs.Common.Bits.{shl_one}
use simple_os_rs.Common.Outcome.{Outcome, ok, panic, index_out_of_bounds, expect_failed, ◌>>=◌}

abbrev pub margin : ℕ
margin = 16

pub data Format : Type 0 where
  rgb bgr : Format

pub data Mode : Type 0 where
  print_mode set_r set_g set_b : Mode

-- The fields of the static `INFO`, with the bytes of the framebuffer in place of its address.
pub record Info : Type 0 where
  pub framebuffer : ℕ → ℕ
  pub scan_width : ℕ
  pub height : ℕ
  pub format : Format
  pub rows : ℕ
  pub columns : ℕ
  pub cursor_x : ℕ
  pub cursor_y : ℕ
  pub color_r : ℕ
  pub color_g : ℕ
  pub color_b : ℕ
  pub mode : Mode

-- What `init` reads of the `KernelHeader`.
pub record Screen : Type 0 where
  pub screen_buffer : ℕ → ℕ
  pub screen_width : ℕ
  pub screen_height : ℕ
  pub screen_scanline_width : ℕ
  pub screen_format : Format

-- `a - b` on 32 bits
abbrev sub_32 : ℕ → ℕ → ℕ
sub_32 a b = (a + 2 ^ 32 - b) % 2 ^ 32

abbrev pub init : Screen → Info
init s = record {
  framebuffer = s.screen_buffer;
  height = s.screen_height;
  rows = sub_32 s.screen_height (margin * 2) / 8;
  columns = sub_32 s.screen_width (margin * 2) / 8;
  scan_width = s.screen_scanline_width;
  cursor_x = 0;
  cursor_y = 0;
  color_r = 255;
  color_g = 255;
  color_b = 255;
  mode = print_mode;
  format = s.screen_format;
}

-- The length of the framebuffer in bytes, on 32 bits.
abbrev pub bytes : Info → ℕ
bytes info = info.scan_width * info.height * 4 % 2 ^ 32

unfoldable pub clear : Info → Info
clear info = record info { framebuffer = λ i. if ltb i (bytes info) then 0 else info.framebuffer i }

unfoldable pub advance_cursor : Info → Info
advance_cursor info =
    let x = (info.cursor_x + 1) % 2 ^ 32 in
    let y = (info.cursor_y + 1) % 2 ^ 32 in
    if leb info.columns x
    then record info { cursor_x = 0; cursor_y = if leb info.rows y then 0 else y }
    else record info { cursor_x = x }

unfoldable pub new_line : Info → Info
new_line info =
    let y = (info.cursor_y + 1) % 2 ^ 32 in
    record info { cursor_x = 0; cursor_y = if leb info.rows y then 0 else y }

-- A glyph is eight rows of eight bits.
abbrev pub Glyph : Type 0
Glyph = ℕ → ℕ

-- `fb[i] = v`
unfoldable pub set_byte : ℕ → (ℕ → ℕ) → ℕ → ℕ → Outcome (ℕ → ℕ)
set_byte len fb i v = if ltb i len then ok (update fb i v) else panic index_out_of_bounds

abbrev pub offset : Info → ℕ → ℕ → ℕ
offset info x y =
    let x_start = (margin + info.cursor_x * 8) % 2 ^ 32 in
    let y_start = (margin + info.cursor_y * 8) % 2 ^ 32 in
    (x_start + x + (y_start + y) * info.scan_width) * 4 % 2 ^ 32

abbrev first_color : Info → ℕ
first_color info = elim info.format [ bgr ↦ info.color_b | rgb ↦ info.color_r ]

abbrev third_color : Info → ℕ
third_color info = elim info.format [ bgr ↦ info.color_r | rgb ↦ info.color_b ]

-- The body of the inner loop.
unfoldable pub draw_pixel : Info → ℕ → ℕ → ℕ → (ℕ → ℕ) → Outcome (ℕ → ℕ)
unfolding set_byte
draw_pixel info row x y fb =
    let lit = not (bit_and row (shl_one x) == 0) in
    do
      fb₁ ← set_byte (bytes info) fb (offset info x y) (if lit then first_color info else 0)
      fb₂ ← set_byte (bytes info) fb₁ (offset info x y + 1) (if lit then info.color_g else 0)
      set_byte (bytes info) fb₂ (offset info x y + 2) (if lit then third_color info else 0)

-- The last `left` rounds of the inner loop.
unfoldable pub draw_row : Info → ℕ → ℕ → ℕ → (ℕ → ℕ) → Outcome (ℕ → ℕ)
unfolding draw_pixel
draw_row info row y zero fb = ok fb
draw_row info row y (suc left) fb = do
  fb' ← draw_pixel info row (7 - left) y fb
  draw_row info row y left fb'

-- The last `left` rounds of the outer loop.
unfoldable pub draw_glyph : Info → Glyph → ℕ → (ℕ → ℕ) → Outcome (ℕ → ℕ)
unfolding draw_row
draw_glyph info glyph zero fb = ok fb
draw_glyph info glyph (suc left) fb = do
  fb' ← draw_row info (glyph (7 - left)) (7 - left) 8 fb
  draw_glyph info glyph left fb'

-- `get` is `font8x8::BASIC_FONTS.get`.
module _ (get : ℕ → Option Glyph) where
  unfoldable pub glyph_of : ℕ → Outcome Glyph
  glyph_of c = elim (get c) [
    | some g ↦ ok g
    | none ↦ elim (get 32) [ some g ↦ ok g | none ↦ panic expect_failed ]
  ]

  -- The part of `print_char` behind the match on the mode.
  unfoldable pub print_plain : Info → ℕ → Outcome Info
  unfolding new_line glyph_of draw_glyph advance_cursor
  print_plain info c =
      if c == 27
      then ok (record info { mode = set_r })
      else if c == 10
      then ok (new_line info)
      else do
        glyph ← glyph_of c
        fb ← draw_glyph info glyph 8 info.framebuffer
        ok (advance_cursor (record info { framebuffer = fb }))

  unfoldable pub print_char : Info → ℕ → Outcome Info
  unfolding print_plain
  print_char info c = elim info.mode [
    | set_r ↦ ok (record info { color_r = c % 256; mode = set_g })
    | set_g ↦ ok (record info { color_g = c % 256; mode = set_b })
    | set_b ↦ ok (record info { color_b = c % 256; mode = print_mode })
    | print_mode ↦ print_plain info c
  ]

  unfoldable pub print : Info → List ℕ → Outcome Info
  unfolding print_char
  print info [] = ok info
  print info (c ∷ msg) = do info' ← print_char info c; print info' msg
