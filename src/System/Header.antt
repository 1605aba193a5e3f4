-- ===== src/System/Header.antt =====
-- The object `kernel_header` in memory: the structure `KernelHeader` of
-- common-structures/src/kernel_header.rs at its `repr(C)` offsets, as words of eight bytes.
use simple_os_rs.Common.{
  ℕ, ◌+◌, ◌-◌, ◌*◌, ◌/◌, ◌%◌, ◌^◌, ◌<◌, ◌≤◌, ◌≡◌, inl, inr, refl, false, ◌==◌, if◌then◌else◌, List,
  [], ◌∷◌, arith, dec_lt,
}
use simple_os_rs.Terminal.{Format, rgb, bgr}
use simple_os_rs.Boot.Elf.Bytes.{Memory, in_range}
use simple_os_rs.Boot.Paging.{Buffer}
use simple_os_rs.Boot.Main.{KernelHeader, kernel_header_size, words_at, put_words}
use simple_os_rs.Boot.Main.Words.{words_at-put_words}
use simple_os_rs.Boot.Main.Handover.{Off}

abbrev format_code : Format → ℕ
format_code format = elim format [ rgb ↦ 0 | bgr ↦ 1 ]

abbrev format_of : ℕ → Format
format_of code = if code == 0 then rgb else bgr

abbrev nth : List ℕ → Buffer
nth [] i = 0
nth (w ∷ ws) i = if i == 0 then w else nth ws (i - 1)

-- Two fields of four bytes share a word.
abbrev header_words : KernelHeader → List ℕ
header_words kh =
    kh.screen_buffer
    ∷ (kh.screen_width + kh.screen_height * 2 ^ 32)
    ∷ (kh.screen_scanline_width + format_code kh.screen_format * 2 ^ 32)
    ∷ kh.paging_info.page_buffer
    ∷ kh.paging_info.pdp_pages
    ∷ kh.paging_info.pd_pages
    ∷ kh.paging_info.pml4_entries
    ∷ kh.memory_map
    ∷ kh.memory_map_entries
    ∷ kh.high_memory_base
    ∷ []

unfoldable pub write_header : Memory → ℕ → KernelHeader → Memory
write_header mem at kh = put_words mem at kernel_header_size (nth (header_words kh))

abbrev pub header_from : Buffer → KernelHeader
header_from w = record {
  screen_buffer = w 0;
  screen_width = w 1 % 2 ^ 32;
  screen_height = w 1 / 2 ^ 32;
  screen_scanline_width = w 2 % 2 ^ 32;
  screen_format = format_of (w 2 / 2 ^ 32);
  paging_info = record { page_buffer = w 3; pdp_pages = w 4; pd_pages = w 5; pml4_entries = w 6 };
  memory_map = w 7;
  memory_map_entries = w 8;
  high_memory_base = w 9;
}

-- `&*kernel_header`
unfoldable pub header_at : Memory → ℕ → KernelHeader
header_at mem at = header_from (words_at mem at)

-- The fields fit their words.
pub record FieldsFit (kh : KernelHeader) : Type 0 where
  pub screen_buffer : kh.screen_buffer < 2 ^ 64
  pub screen_width : kh.screen_width < 2 ^ 32
  pub screen_height : kh.screen_height < 2 ^ 32
  pub screen_scanline_width : kh.screen_scanline_width < 2 ^ 32
  pub page_buffer : kh.paging_info.page_buffer < 2 ^ 64
  pub pdp_pages : kh.paging_info.pdp_pages < 2 ^ 64
  pub pd_pages : kh.paging_info.pd_pages < 2 ^ 64
  pub pml4_entries : kh.paging_info.pml4_entries < 2 ^ 64
  pub memory_map : kh.memory_map < 2 ^ 64
  pub memory_map_entries : kh.memory_map_entries < 2 ^ 64
  pub high_memory_base : kh.high_memory_base < 2 ^ 64

code_small : (f : Format) → format_code f ≤ 1
code_small rgb = omega arith
code_small bgr = omega arith

format_back :
    (f : Format) (low code : ℕ)
    → low < 2 ^ 32
    → code ≡ low + format_code f * 2 ^ 32
    → format_of (code / 2 ^ 32) ≡ f
format_back rgb low code small e = let zero : code / 2 ^ 32 ≡ 0 = omega arith in rw zero refl
format_back bgr low code small e = let one : code / 2 ^ 32 ≡ 1 = omega arith in rw one refl

-- The header is read back as it was written.
pub header_at-write_header :
    (mem : Memory) (at : ℕ) (kh : KernelHeader)
    → FieldsFit kh
    → header_at (write_header mem at kh) at ≡ kh
unfolding header_at write_header
header_at-write_header mem at kh fit =
    let ws = nth (header_words kh) in
    let word : (i : ℕ)
        → i < 10
        → ws i < 2 ^ 64
        → words_at (put_words mem at kernel_header_size ws) at i ≡ ws i =
      λ i lt small. words_at-put_words mem at kernel_header_size ws i (omega arith) small in
    let low : (kh.screen_width + kh.screen_height * 2 ^ 32) % 2 ^ 32 ≡ kh.screen_width =
      omega (arith, fit.screen_width) in
    let high : (kh.screen_width + kh.screen_height * 2 ^ 32) / 2 ^ 32 ≡ kh.screen_height =
      omega (arith, fit.screen_width) in
    let line : (kh.screen_scanline_width + format_code kh.screen_format * 2 ^ 32) % 2 ^ 32
        ≡ kh.screen_scanline_width =
      omega (arith, fit.screen_scanline_width) in
    let code = code_small kh.screen_format in
    let format =
      format_back kh.screen_format kh.screen_scanline_width
        (kh.screen_scanline_width + format_code kh.screen_format * 2 ^ 32) fit.screen_scanline_width
        refl in
    rw
      (
        word 0 (omega arith) fit.screen_buffer,
        word 1 (omega arith) (omega (arith, fit.screen_width, fit.screen_height)),
        word 2 (omega arith) (omega (arith, fit.screen_scanline_width, code)),
        word 3 (omega arith) fit.page_buffer,
        word 4 (omega arith) fit.pdp_pages,
        word 5 (omega arith) fit.pd_pages,
        word 6 (omega arith) fit.pml4_entries,
        word 7 (omega arith) fit.memory_map,
        word 8 (omega arith) fit.memory_map_entries,
        word 9 (omega arith) fit.high_memory_base,
        low,
        high,
        line,
        format,
      )
      refl

-- A block that shares no address with the header's page keeps its bytes.
pub write_header-Off :
    (mem : Memory) (at ptr n a : ℕ) (kh : KernelHeader)
    → Off at 1 ptr n
    → ptr ≤ a
    → a < ptr + n * 4096
    → write_header mem at kh a ≡ mem a
unfolding write_header
write_header-Off mem at ptr n a kh off lo hi =
    let outside : in_range a at kernel_header_size ≡ false = elim (dec_lt a at) [
      | yes before ↦ ground arith
      | no not_before ↦ elim (dec_lt a (at + 80)) [
        | no behind ↦ ground arith
        | yes inside ↦ elim (off a (omega (arith, not_before)) (omega (arith, inside))) [
          | inl lt ↦ absurd (omega (arith, lt, lo))
          | inr ge ↦ absurd (omega (arith, ge, hi))
        ]
      ]
    ] in
    rw outside refl
