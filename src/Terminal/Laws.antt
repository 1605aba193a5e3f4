-- ===== src/Terminal/Laws.antt =====
-- What `print` does to a terminal whose text area lies on the screen.
use simple_os_rs.Common.{
  update, ℕ, zero, suc, ◌+◌, ◌-◌, ◌*◌, ◌%◌, ◌^◌, ◌<◌, ◌≤◌, ◌≡◌, refl, List, [], ◌∷◌, Option, none,
  some, leb, ◌==◌, arith, Bool-cases, inl, inr, lt→ltb,
}
use native.Mathlib.Nat.{mul-le-mul_right, mod-eq_of_lt, mod_self}
use simple_os_rs.Common.Outcome.{Outcome, ok, panic, expect_failed, Returns, >>=-Returns}
use simple_os_rs.Terminal.{
  margin, Mode, print_mode, set_r, set_g, set_b, Info, Screen, init, bytes, advance_cursor,
  new_line, Glyph, set_byte, offset, draw_pixel, draw_row, draw_glyph, glyph_of, print_plain,
  print_char, print,
}

-- The text area with its margins lies on a framebuffer of less than 4 GB, and the cursor in it.
pub record Fits (info : Info) : Type 0 where
  pub wide : info.columns * 8 + margin * 2 ≤ info.scan_width
  pub tall : info.rows * 8 + margin * 2 ≤ info.height
  pub small : info.scan_width * info.height * 4 < 2 ^ 32
  pub in_columns : info.cursor_x < info.columns
  pub in_rows : info.cursor_y < info.rows
  pub narrow : info.scan_width < 2 ^ 32
  pub low : info.height < 2 ^ 32

-- `init` on a screen of at least 40 by 40 pixels, with scan lines as long as it is wide and a
-- framebuffer of less than 4 GB, gives a terminal that fits its screen.
pub init-Fits :
    (s : Screen)
    → 40 ≤ s.screen_width
    → 40 ≤ s.screen_height
    → s.screen_width ≤ s.screen_scanline_width
    → s.screen_scanline_width < 2 ^ 32
    → s.screen_height < 2 ^ 32
    → s.screen_scanline_width * s.screen_height * 4 < 2 ^ 32
    → Fits (init s)
init-Fits s w h stride sw sh small = record {
  wide = omega arith;
  tall = omega arith;
  small = small;
  in_columns = omega arith;
  in_rows = omega arith;
  narrow = sw;
  low = sh;
}

-- The cursor's cell, counted row by row.
abbrev pub position : Info → ℕ
position info = info.cursor_y * info.columns + info.cursor_x

pub new_line-Fits : (info : Info) → Fits info → Fits (new_line info)
unfolding new_line
new_line-Fits info f = record {
  wide = f.wide;
  tall = f.tall;
  small = f.small;
  in_columns = omega (arith, f.in_columns);
  in_rows = ground (arith, f.in_rows, f.tall, f.low);
  narrow = f.narrow;
  low = f.low;
}

pub advance_cursor-Fits : (info : Info) → Fits info → Fits (advance_cursor info)
unfolding advance_cursor
advance_cursor-Fits info f = elim (Bool-cases (leb info.columns ((info.cursor_x + 1) % 2 ^ 32))) [
  | inl full ↦ rw full (record {
    wide = f.wide;
    tall = f.tall;
    small = f.small;
    in_columns = omega (arith, f.in_columns);
    in_rows = ground (arith, f.in_rows, f.tall, f.low);
    narrow = f.narrow;
    low = f.low;
  })
  | inr room ↦ rw room (record {
    wide = f.wide;
    tall = f.tall;
    small = f.small;
    in_columns = ground (arith, room);
    in_rows = f.in_rows;
    narrow = f.narrow;
    low = f.low;
  })
]

module _ (info : Info) (f : Fits info) where
  next_row : suc info.cursor_y * info.columns ≡ info.cursor_y * info.columns + info.columns
  next_row = omega arith

  -- On a terminal that fits its screen `advance_cursor` goes through the cells row by row and
  -- from the last cell back to the first.
  pub position-advance_cursor :
      position (advance_cursor info) ≡ (position info + 1) % (info.rows * info.columns)
  unfolding advance_cursor
  position-advance_cursor = elim (Bool-cases (leb info.columns ((info.cursor_x + 1) % 2 ^ 32))) [
    | inl full ↦
        let last : info.cursor_x + 1 ≡ info.columns =
          ground (arith, full, f.in_columns, f.wide, f.narrow) in
        let y : (info.cursor_y + 1) % 2 ^ 32 ≡ suc info.cursor_y =
          omega (arith, f.tall, f.in_rows, f.low) in
        elim (Bool-cases (leb info.rows (suc info.cursor_y))) [
          | inl bottom ↦
              let end : suc info.cursor_y ≡ info.rows = ground (arith, bottom, f.in_rows) in
              let all : position info + 1 ≡ info.rows * info.columns =
                rw (← end) (omega (arith, last, next_row)) in
              rw (full, y, bottom, all, mod_self (info.rows * info.columns)) (omega arith)
          | inr inner ↦
              let more : suc (suc info.cursor_y) ≤ info.rows = ground (arith, inner) in
              let area : suc (suc info.cursor_y) * info.columns ≤ info.rows * info.columns =
                mul-le-mul_right info.columns more in
              let size : suc (suc info.cursor_y) * info.columns
                  ≡ suc info.cursor_y * info.columns + info.columns =
                omega arith in
              let inside : position info + 1 < info.rows * info.columns =
                omega (arith, last, next_row, area, size, f.in_columns) in
              rw (full, y, inner, mod-eq_of_lt inside) (omega (arith, last, next_row))
        ]
    | inr room ↦
        let x : (info.cursor_x + 1) % 2 ^ 32 ≡ info.cursor_x + 1 =
          omega (arith, f.in_columns, f.wide, f.narrow) in
        let left : info.cursor_x + 1 < info.columns = ground (arith, room, x) in
        let area : suc info.cursor_y * info.columns ≤ info.rows * info.columns =
          mul-le-mul_right info.columns f.in_rows in
        let inside : position info + 1 < info.rows * info.columns =
          omega (arith, left, next_row, area) in
        rw (room, x, mod-eq_of_lt inside) (omega arith)
  ]

  -- The three bytes of a pixel of the cursor's cell lie on the framebuffer.
  offset_lem : (x y : ℕ) → x < 8 → y < 8 → offset info x y + 2 < bytes info
  offset_lem x y hx hy =
      let above = margin + info.cursor_y * 8 + y in
      let rows_fit : suc above ≤ info.height = omega (arith, f.tall, f.in_rows) in
      let area : suc above * info.scan_width ≤ info.height * info.scan_width =
        mul-le-mul_right info.scan_width rows_fit in
      let start_x : (margin + info.cursor_x * 8) % 2 ^ 32 ≡ margin + info.cursor_x * 8 =
        omega (arith, f.wide, f.in_columns, f.narrow) in
      let start_y : (margin + info.cursor_y * 8) % 2 ^ 32 ≡ margin + info.cursor_y * 8 =
        omega (arith, f.tall, f.in_rows, f.low) in
      let left : margin + info.cursor_x * 8 + x < info.scan_width =
        omega (arith, f.wide, f.in_columns) in
      rw (start_x, start_y) (omega (arith, area, left, f.small))

  set_byte-Returns :
      (fb : ℕ → ℕ) (i v : ℕ) → i < bytes info → Returns (set_byte (bytes info) fb i v)
  unfolding set_byte
  set_byte-Returns fb i v h = (update fb i v, rw (lt→ltb i (bytes info) h))

  draw_pixel-Returns :
      (row x y : ℕ) (fb : ℕ → ℕ) → x < 8 → y < 8 → Returns (draw_pixel info row x y fb)
  unfolding draw_pixel
  draw_pixel-Returns row x y fb hx hy =
      let h = offset_lem x y hx hy in
      >>=-Returns _ _ (set_byte-Returns fb (offset info x y) _ (omega (arith, h))) λ fb₁.
        >>=-Returns _ _ (set_byte-Returns fb₁ (offset info x y + 1) _ (omega (arith, h)))
          λ fb₂. set_byte-Returns fb₂ (offset info x y + 2) _ h

  draw_row-Returns :
      (row y left : ℕ) (fb : ℕ → ℕ) → y < 8 → left ≤ 8 → Returns (draw_row info row y left fb)
  unfolding draw_row
  draw_row-Returns row y zero fb hy le = (fb, refl)
  draw_row-Returns row y (suc left) fb hy le =
      >>=-Returns _ _ (draw_pixel-Returns row (7 - left) y fb (omega arith) hy)
        λ fb'. draw_row-Returns row y left fb' hy (omega arith)

  draw_glyph-Returns :
      (glyph : Glyph) (left : ℕ) (fb : ℕ → ℕ) → left ≤ 8 → Returns (draw_glyph info glyph left fb)
  unfolding draw_glyph
  draw_glyph-Returns glyph zero fb le = (fb, refl)
  draw_glyph-Returns glyph (suc left) fb le =
      >>=-Returns _ _
        (draw_row-Returns (glyph (7 - left)) (7 - left) 8 fb (omega arith) (omega arith))
        λ fb'. draw_glyph-Returns glyph left fb' (omega arith)

-- `info` with other colors, another mode or another content of the framebuffer.
recolored :
    (info : Info)
    → Fits info
    → (fb : ℕ → ℕ) (r g b : ℕ) (m : Mode)
    → Fits (record info { framebuffer = fb; color_r = r; color_g = g; color_b = b; mode = m })
recolored info f fb r g b m = record {
  wide = f.wide;
  tall = f.tall;
  small = f.small;
  in_columns = f.in_columns;
  in_rows = f.in_rows;
  narrow = f.narrow;
  low = f.low;
}

-- A call returns a terminal that fits the screen.
abbrev pub Prints : Outcome Info → Type 0
Prints m = (info : Info) × (m ≡ ok info) × Fits info

module _ (get : ℕ → Option Glyph) (space : (g : Glyph) × (get 32 ≡ some g)) where
  glyph_of-Returns : (c : ℕ) → Returns (glyph_of get c)
  unfolding glyph_of
  glyph_of-Returns c = go (get c)
    where
      go :
          (o : Option Glyph)
          → Returns (elim o as (λ x. Outcome Glyph) [
            | some g ↦ ok g
            | none ↦ elim (get 32) as (λ x. Outcome Glyph) [
              | some g ↦ ok g
              | none ↦ panic expect_failed
            ]
          ])
      go (some g) = (g, refl)
      go none = (space.0, rw space.1)

  print_plain-Fits : (info : Info) (c : ℕ) → Fits info → Prints (print_plain get info c)
  unfolding print_plain
  print_plain-Fits info c f = elim (Bool-cases (c == 27)) [
    | inl esc ↦ (
      _,
      rw esc refl,
      recolored info f info.framebuffer info.color_r info.color_g info.color_b set_r,
    )
    | inr other ↦ elim (Bool-cases (c == 10)) [
      | inl line ↦ (new_line info, rw (other, line), new_line-Fits info f)
      | inr plain ↦
          let (glyph, e) = glyph_of-Returns c in
          let (fb, e') = draw_glyph-Returns info f glyph 8 info.framebuffer (omega arith) in
          let drawn = record info { framebuffer = fb } in
          (
            advance_cursor drawn,
            rw (other, plain, e, e'),
            advance_cursor-Fits drawn
                (recolored info f fb info.color_r info.color_g info.color_b info.mode),
          )
    ]
  ]

  print_char-Fits : (info : Info) (c : ℕ) → Fits info → Prints (print_char get info c)
  unfolding print_char
  print_char-Fits info c f = go info.mode
    where
      go :
          (m : Mode)
          → Prints (elim m as (λ x. Outcome Info) [
            | set_r ↦ ok (record info { color_r = c % 256; mode = set_g })
            | set_g ↦ ok (record info { color_g = c % 256; mode = set_b })
            | set_b ↦ ok (record info { color_b = c % 256; mode = print_mode })
            | print_mode ↦ print_plain get info c
          ])
      go set_r =
          (_, refl, recolored info f info.framebuffer (c % 256) info.color_g info.color_b set_g)
      go set_g =
          (_, refl, recolored info f info.framebuffer info.color_r (c % 256) info.color_b set_b)
      go set_b = (
        _,
        refl,
        recolored info f info.framebuffer info.color_r info.color_g (c % 256) print_mode,
      )
      go print_mode = print_plain-Fits info c f

  -- If the fonts have the space, `print` of any text on a terminal whose text area and margins
  -- lie on a framebuffer of less than 4 GB returns, with no access outside the framebuffer, and
  -- the terminal still fits its screen.
  pub print-Fits : (info : Info) (msg : List ℕ) → Fits info → Prints (print get info msg)
  unfolding print
  print-Fits info [] f = (info, refl, f)
  print-Fits info (c ∷ msg) f =
      let (info', e, f') = print_char-Fits info c f in
      let (info'', e', f'') = print-Fits info' msg f' in (info'', rw e e', f'')

module _ (get : ℕ → Option Glyph) where
  -- In print mode an escape and three characters set the colors, modulo 256, and nothing else;
  -- the rest of the text prints in them.
  pub print-escape :
      (info : Info) (r g b : ℕ) (msg : List ℕ)
      → info.mode ≡ print_mode
      → print get info (27 ∷ r ∷ g ∷ b ∷ msg)
        ≡ print get (record info { color_r = r % 256; color_g = g % 256; color_b = b % 256 }) msg
  unfolding print print_char print_plain
  print-escape info r g b msg h = rw h
