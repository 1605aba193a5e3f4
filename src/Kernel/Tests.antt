-- ===== src/Kernel/Tests.antt =====
-- `main` on a machine with 768 pages, and `init_platform` on four free pages and three single ones.
use simple_os_rs.Common.{
  ℕ, ◌+◌, ◌*◌, refl, arith, List, [], ◌∷◌, Option, some, none, ◌==◌, if◌then◌else◌,
}
use simple_os_rs.Phys.FreeList.{new_entry}
use simple_os_rs.Phys.Tests.{high_mem_base}
use simple_os_rs.Phys.Tests.Construction.{low, high}
use simple_os_rs.Terminal.{Screen, bgr, Glyph}
use simple_os_rs.Terminal.Log.{info, line_of}
use simple_os_rs.Gdt.{empty_tss}
use simple_os_rs.Kernel.{KernelHeader, Machine}
use simple_os_rs.Kernel.Laws.{IsLine}

abbrev screen : Screen
screen = record {
  screen_buffer = λ (i : ℕ). 0;
  screen_width = 64;
  screen_height = 48;
  screen_scanline_width = 80;
  screen_format = bgr;
}

abbrev pub fonts : ℕ → Option Glyph
fonts c = if c == 32 then some (λ (y : ℕ). 0) else none

abbrev machine : Machine
machine = record {
  mem = λ p. new_entry 0;
  before = record { gdt = λ i. 0; tss = λ core. empty_tss };
  pml4 = λ i. 0;
}

abbrev header : KernelHeader
header = record {
  screen = screen;
  paging_info = record {
    page_buffer = high_mem_base + 1048576;
    pdp_pages = 1;
    pd_pages = 1;
    pml4_entries = 1;
  };
  memory_map = low ∷ high ∷ [];
  high_memory_base = high_mem_base;
}

abbrev pub stub : ℕ → ℕ
stub i = 18446744073709486080 + i * 16

-- `[K] Go`, in two pieces.
abbrev pub greeting : List (List ℕ)
greeting =
    (27 ∷ 0 ∷ 255 ∷ 0 ∷ 91 ∷ []) ∷ (75 ∷ 93 ∷ 32 ∷ 27 ∷ 255 ∷ 255 ∷ 255 ∷ 71 ∷ 111 ∷ 10 ∷ []) ∷ []

pub greeting-IsLine : IsLine greeting
unfolding line_of
greeting-IsLine = record {
  level = info;
  ctx = 75 ∷ [];
  msg = 71 ∷ 111 ∷ [];
  text = refl;
  plain_ctx = omega arith;
  plain_msg = omega arith;
}
