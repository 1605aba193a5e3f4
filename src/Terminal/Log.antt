-- ===== src/Terminal/Log.antt =====
-- The macros of kernel/src/terminal.rs that log a line: an escape, the context between brackets, the
-- message and an escape back to white. core::fmt, which is a parameter here, formats the context and
-- the arguments and writes the line by calls of `write_str`.
pub mod Laws
use simple_os_rs.Common.{
  ℕ, ◌+◌, ◌%◌, ◌≡◌, ◌≢◌, refl, sym, ap, subst, fun_ext, ◌∙◌, List, [], ◌∷◌, ◌++◌, Option, some,
  ◌==◌, ltb, leb, if◌then◌else◌, arith, Bool-cases, inl, inr, true, false,
}
use mathlib.Core.List.{append_assoc}
use simple_os_rs.Common.Outcome.{Outcome, ok, ◌>>=◌}
use simple_os_rs.Terminal.{
  Info, Mode, print_mode, Glyph, print, print_char, print_plain, glyph_of, draw_glyph, new_line,
  advance_cursor,
}
use simple_os_rs.Terminal.Laws.{Fits, print-Fits, print-escape}

abbrev pub escape : ℕ → ℕ → ℕ → List ℕ
escape r g b = 27 ∷ r ∷ g ∷ b ∷ []

abbrev pub white : List ℕ
white = escape 255 255 255

-- `[`, the context, `] `
abbrev pub bracketed : List ℕ → List ℕ
bracketed ctx = 91 ∷ (ctx ++ (93 ∷ 32 ∷ []))

pub data Level : Type 0 where
  verbose info warning error : Level

abbrev pub verbose_line : List ℕ → List ℕ → List ℕ
verbose_line ctx msg = escape 136 136 136 ++ (bracketed ctx ++ (msg ++ (white ++ (10 ∷ []))))

-- The line that each macro writes.
unfoldable pub line_of : Level → List ℕ → List ℕ → List ℕ
line_of verbose ctx msg = verbose_line ctx msg
line_of info ctx msg = escape 0 255 0 ++ (bracketed ctx ++ (white ++ (msg ++ (10 ∷ []))))
line_of warning ctx msg = escape 255 255 0 ++ (bracketed ctx ++ (msg ++ (white ++ (10 ∷ []))))
line_of error ctx msg = escape 255 0 0 ++ (bracketed ctx ++ (msg ++ (white ++ (10 ∷ []))))

module _ (get : ℕ → Option Glyph) where
  -- `TerminalStream::write_str`
  unfoldable pub write_str : Info → List ℕ → Outcome Info
  unfolding print
  write_str s text = print get s text

  -- What `write_fmt` does with the pieces of the line.
  unfoldable pub write_all : Info → List (List ℕ) → Outcome Info
  unfolding write_str
  write_all s [] = ok s
  write_all s (piece ∷ pieces) = do s' ← write_str s piece; write_all s' pieces

abbrev pub concat : List (List ℕ) → List ℕ
concat [] = []
concat (piece ∷ pieces) = piece ++ concat pieces
