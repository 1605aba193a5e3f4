-- ===== src/Terminal/Tests.antt =====
-- The terminal on a screen of 64 by 48 pixels, which holds four columns and two rows.
use simple_os_rs.Common.{
  ℕ, ◌+◌, ◌%◌, ◌≡◌, refl, arith, [], ◌∷◌, Option, none, some, ◌==◌, if◌then◌else◌,
}
use simple_os_rs.Common.Outcome.{ok}
use simple_os_rs.Terminal.Log.{info, line_of, write_all}
use simple_os_rs.Terminal.Log.Laws.{IsWhite, write_all-IsWhite}
use simple_os_rs.Terminal.{Info, bgr, Screen, init, advance_cursor, Glyph, print}
use simple_os_rs.Terminal.Laws.{
  Fits, init-Fits, position, position-advance_cursor, Prints, print-Fits, print-escape,
}

abbrev screen : Screen
screen = record {
  screen_buffer = λ (i : ℕ). 0;
  screen_width = 64;
  screen_height = 48;
  screen_scanline_width = 80;
  screen_format = bgr;
}

-- Fonts that know the space and a block.
abbrev fonts : ℕ → Option Glyph
fonts c = if c == 32 then some (λ (y : ℕ). 0) else if c == 35 then some (λ (y : ℕ). 255) else none

init_lem : Fits (init screen)
init_lem =
    init-Fits screen (omega arith) (omega arith) (omega arith) (omega arith) (omega arith)
      (omega arith)

screen-Fits : Fits (init screen)
screen-Fits = record {
  wide = omega arith;
  tall = omega arith;
  small = omega arith;
  in_columns = omega arith;
  in_rows = omega arith;
  narrow = omega arith;
  low = omega arith;
}

print-Fits_example : Prints (print fonts (init screen) (35 ∷ 10 ∷ 27 ∷ 255 ∷ 0 ∷ 300 ∷ 64 ∷ []))
print-Fits_example =
    print-Fits fonts (λ (y : ℕ). 0, refl) (init screen) (35 ∷ 10 ∷ 27 ∷ 255 ∷ 0 ∷ 300 ∷ 64 ∷ [])
      screen-Fits

escape_lem :
    print fonts (init screen) (27 ∷ 136 ∷ 300 ∷ 0 ∷ 35 ∷ [])
    ≡ print fonts (record (init screen) { color_r = 136; color_g = 44; color_b = 0 }) (35 ∷ [])
escape_lem = print-escape fonts (init screen) 136 300 0 (35 ∷ []) refl

position-advance_cursor_example :
    position (advance_cursor (init screen)) ≡ (position (init screen) + 1) % 8
position-advance_cursor_example = position-advance_cursor (init screen) screen-Fits

-- The line `[K] Go` with its context in green.
write_all-IsWhite_example :
    (t : Info) × (write_all fonts (init screen) (line_of info (75 ∷ []) (71 ∷ 111 ∷ []) ∷ [] ∷ [])
      ≡ ok t)
    × Fits t
    × IsWhite t
unfolding line_of
write_all-IsWhite_example =
    write_all-IsWhite fonts (λ (y : ℕ). 0, refl) (init screen) info (75 ∷ []) (71 ∷ 111 ∷ [])
      (line_of info (75 ∷ []) (71 ∷ 111 ∷ []) ∷ [] ∷ []) refl screen-Fits refl (omega arith)
      (omega arith)
