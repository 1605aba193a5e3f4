-- ===== src/Terminal/Log/Laws.antt =====
-- What a line of the log leaves: a terminal that prints in white.
use simple_os_rs.Common.{
  ℕ, ◌%◌, ◌≡◌, ◌≢◌, refl, sym, ap, subst, fun_ext, ◌∙◌, List, [], ◌∷◌, ◌++◌, Option, some, ◌==◌,
  arith, Bool-cases, inl, inr, false,
}
use mathlib.Core.List.{append_assoc}
use simple_os_rs.Common.Outcome.{ok, ◌>>=◌, >>=_assoc, >>=_split}
use simple_os_rs.Terminal.{
  Info, print_mode, Glyph, print, print_char, print_plain, glyph_of, draw_glyph, new_line,
  advance_cursor,
}
use simple_os_rs.Terminal.Laws.{Fits, print-Fits, print-escape}
use simple_os_rs.Terminal.Log.{
  Level, verbose, info, warning, error, line_of, bracketed, escape, white, write_str, write_all,
  concat,
}

-- There is no escape in the text.
abbrev pub Plain : List ℕ → Type 0
Plain [] = Unit
Plain (c ∷ text) = (c ≢ 27) × Plain text

-- The terminal is between two lines of the log: it prints, and in white.
pub record IsWhite (s : Info) : Type 0 where
  pub mode : s.mode ≡ print_mode
  pub red : s.color_r ≡ 255
  pub green : s.color_g ≡ 255
  pub blue : s.color_b ≡ 255

-- Colors and mode are those from before.
record SameColors (s t : Info) : Type 0 where
  mode : t.mode ≡ s.mode
  red : t.color_r ≡ s.color_r
  green : t.color_g ≡ s.color_g
  blue : t.color_b ≡ s.color_b

SameColors-refl : (s : Info) → SameColors s s
SameColors-refl s = record { mode = refl; red = refl; green = refl; blue = refl }

SameColors-trans : (s t u : Info) → SameColors s t → SameColors t u → SameColors s u
SameColors-trans s t u a b = record {
  mode = b.mode ∙ a.mode;
  red = b.red ∙ a.red;
  green = b.green ∙ a.green;
  blue = b.blue ∙ a.blue;
}

new_line-SameColors : (s : Info) → SameColors s (new_line s)
unfolding new_line
new_line-SameColors s = record { mode = refl; red = refl; green = refl; blue = refl }

advance_cursor-SameColors :
    (s : Info) (fb : ℕ → ℕ) → SameColors s (advance_cursor (record s { framebuffer = fb }))
unfolding advance_cursor
advance_cursor-SameColors s fb = record {
  mode = ground arith;
  red = ground arith;
  green = ground arith;
  blue = ground arith;
}

module _ (get : ℕ → Option Glyph) where
  -- Printing a text is printing its parts in order.
  print-append :
      (s : Info) (a b : List ℕ) → print get s (a ++ b) ≡ (print get s a >>= λ t. print get t b)
  unfolding print
  print-append s [] b = refl
  print-append s (c ∷ a) b =
      ap (λ f. print_char get s c >>= f) (fun_ext λ t. print-append t a b)
      ∙ sym (>>=_assoc (print_char get s c) (λ t. print get t a) (λ t. print get t b))

  -- The pieces that a line is written in do not matter.
  pub write_all-print :
      (s : Info) (pieces : List (List ℕ)) → write_all get s pieces ≡ print get s (concat pieces)
  unfolding write_all write_str
  write_all-print s [] = unfold print in refl
  write_all-print s (piece ∷ pieces) =
      ap (λ f. print get s piece >>= f) (fun_ext λ t. write_all-print t pieces)
      ∙ sym (print-append s piece (concat pieces))

  print_char-SameColors :
      (s t : Info) (c : ℕ)
      → s.mode ≡ print_mode
      → c ≢ 27
      → print_char get s c ≡ ok t
      → SameColors s t
  unfolding print_char print_plain
  print_char-SameColors s t c mode ne e =
      let other : (c == 27) ≡ false = ground arith in
      elim (Bool-cases (c == 10)) [
        | inl line ↦
            let done : print_char get s c ≡ ok (new_line s) = rw (mode, other, line) in
            let same : new_line s ≡ t = cc in
            subst (λ x. SameColors s x) same (new_line-SameColors s)
        | inr plain ↦
            let draw = λ (g : Glyph). draw_glyph s g 8 s.framebuffer >>= λ fb.
            ok (advance_cursor (record s { framebuffer = fb })) in
            let run : print_char get s c ≡ (glyph_of get c >>= draw) = rw (mode, other, plain) in
            let (g, e₁, found) = >>=_split (glyph_of get c) draw (sym run ∙ e) in
            let (fb, e₂, drawn) =
              >>=_split (draw_glyph s g 8 s.framebuffer)
                (λ fb. ok (advance_cursor (record s { framebuffer = fb }))) e₁ in
            let same : advance_cursor (record s { framebuffer = fb }) ≡ t = cc in
            subst (λ x. SameColors s x) {x = advance_cursor (record s { framebuffer = fb })} same
              (advance_cursor-SameColors s fb)
      ]

  print-SameColors :
      (s t : Info) (text : List ℕ)
      → s.mode ≡ print_mode
      → Plain text
      → print get s text ≡ ok t
      → SameColors s t
  unfolding print
  print-SameColors s t [] mode plain e =
      let same : s ≡ t = cc in subst (λ x. SameColors s x) same (SameColors-refl s)
  print-SameColors s t (c ∷ text) mode (ne, plain) e =
      let (u, rest, first) = >>=_split (print_char get s c) (λ u. print get u text) e in
      let same = print_char-SameColors s u c mode ne first in
      SameColors-trans s u t same (print-SameColors u t text (same.mode ∙ mode) plain rest)

  -- A text in any color, then white, then a text in white.
  painted :
      (space : (g : Glyph) × (get 32 ≡ some g)) (s : Info) (r g b : ℕ) (body rest : List ℕ)
      → Fits s
      → s.mode ≡ print_mode
      → Plain body
      → Plain rest
      → (t : Info) × (print get s (escape r g b ++ (body ++ (white ++ rest))) ≡ ok t)
        × Fits t
        × IsWhite t
  painted space s r g b body rest fits mode plain plain' =
      let text = escape r g b ++ (body ++ (white ++ rest)) in
      let (t, done, fits') = print-Fits get space s text fits in
      let s₁ = record s { color_r = r % 256; color_g = g % 256; color_b = b % 256 } in
      let start = print-escape get s r g b (body ++ (white ++ rest)) mode in
      let split = print-append s₁ body (white ++ rest) in
      let (u, second, first) =
        >>=_split (print get s₁ body) (λ u. print get u (white ++ rest))
          (sym split ∙ sym start ∙ done) in
      let same₁ = print-SameColors s₁ u body mode plain first in
      let u₁ = record u { color_r = 255 % 256; color_g = 255 % 256; color_b = 255 % 256 } in
      let mode_u : u.mode ≡ print_mode = same₁.mode ∙ mode in
      let third : print get u₁ rest ≡ ok t =
        sym (print-escape get u 255 255 255 rest mode_u) ∙ second in
      let same₂ = print-SameColors u₁ t rest mode_u plain' third in
      (
        t,
        done,
        fits',
        record {
          mode = same₂.mode ∙ mode_u;
          red = same₂.red;
          green = same₂.green;
          blue = same₂.blue;
        },
      )

append-Plain : (a b : List ℕ) → Plain a → Plain b → Plain (a ++ b)
append-Plain [] b pa pb = pb
append-Plain (c ∷ a) b (ne, pa) pb = (ne, append-Plain a b pa pb)

bracketed-Plain : (ctx : List ℕ) → Plain ctx → Plain (bracketed ctx)
bracketed-Plain ctx p = (omega arith, append-Plain ctx (93 ∷ 32 ∷ []) p (omega arith))

module _ (get : ℕ → Option Glyph) (space : (g : Glyph) × (get 32 ≡ some g)) where
  print-line_of :
      (s : Info) (level : Level) (ctx msg : List ℕ)
      → Fits s
      → s.mode ≡ print_mode
      → Plain ctx
      → Plain msg
      → (t : Info) × (print get s (line_of level ctx msg) ≡ ok t) × Fits t × IsWhite t
  unfolding line_of
  print-line_of s verbose ctx msg fits mode pc pm =
      rw (← append_assoc (bracketed ctx) msg (white ++ (10 ∷ []))) (
        painted get space s 136 136 136 (bracketed ctx ++ msg) (10 ∷ []) fits mode
          (append-Plain (bracketed ctx) msg (bracketed-Plain ctx pc) pm) (omega arith))
  print-line_of s info ctx msg fits mode pc pm =
      painted get space s 0 255 0 (bracketed ctx) (msg ++ (10 ∷ [])) fits mode
        (bracketed-Plain ctx pc) (append-Plain msg (10 ∷ []) pm (omega arith))
  print-line_of s warning ctx msg fits mode pc pm =
      rw (← append_assoc (bracketed ctx) msg (white ++ (10 ∷ []))) (
        painted get space s 255 255 0 (bracketed ctx ++ msg) (10 ∷ []) fits mode
          (append-Plain (bracketed ctx) msg (bracketed-Plain ctx pc) pm) (omega arith))
  print-line_of s error ctx msg fits mode pc pm =
      rw (← append_assoc (bracketed ctx) msg (white ++ (10 ∷ []))) (
        painted get space s 255 0 0 (bracketed ctx ++ msg) (10 ∷ []) fits mode
          (append-Plain (bracketed ctx) msg (bracketed-Plain ctx pc) pm) (omega arith))

  -- With fonts that have the space, on a terminal that fits its screen and prints, each of the
  -- macros writes its line, in any pieces, and returns with a terminal that fits its screen and
  -- prints in white, if there is no escape in the context and in the message.
  pub write_all-IsWhite :
      (s : Info) (level : Level) (ctx msg : List ℕ) (pieces : List (List ℕ))
      → concat pieces ≡ line_of level ctx msg
      → Fits s
      → s.mode ≡ print_mode
      → Plain ctx
      → Plain msg
      → (t : Info) × (write_all get s pieces ≡ ok t) × Fits t × IsWhite t
  write_all-IsWhite s level ctx msg pieces e fits mode pc pm =
      rw (write_all-print get s pieces, e) (print-line_of s level ctx msg fits mode pc pm)
