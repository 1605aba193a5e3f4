-- ===== src/Boot/Elf/Load/Segment.antt =====
-- What the branch of `prepare` for one loaded segment does to memory.
use simple_os_rs.Common.{
  ℕ, ◌+◌, ◌-◌, ◌%◌, ◌^◌, ◌<◌, ◌≤◌, ◌≡◌, ◌⊎◌, ltb, if◌then◌else◌, arith, true, false, dec_lt, lt→ltb,
  le→not-ltb,
}
use simple_os_rs.Boot.Elf.Bytes.{Memory, read, in_range, read-same}
use simple_os_rs.Boot.Elf.{SegmentHeader, segment, load}

-- The bytes of a loaded segment: the data of the image, then zeros.
abbrev pub contents : Memory → ℕ → SegmentHeader → ℕ → ℕ
contents mem image s k = if ltb k s.data_size then mem (image + s.data_offset + k) else 0

module _ (mem : Memory) (image dest : ℕ) (s : SegmentHeader) (fits : s.data_size ≤ s.virt_size)
    (small : s.virt_size < 2 ^ 64) where
  rest_size : (s.virt_size + 2 ^ 64 - s.data_size) % 2 ^ 64 ≡ s.virt_size - s.data_size
  rest_size = omega arith

  pub load-contents :
      (k : ℕ)
      → k < s.virt_size
      → load mem image dest s (dest + s.virt_addr + k) ≡ contents mem image s k
  unfolding load
  load-contents k lt = elim (dec_lt k s.data_size) [
    | yes early ↦
        let before : in_range (dest + s.virt_addr + k) (dest + s.virt_addr + s.data_size)
              (s.virt_size - s.data_size)
            ≡ false =
          ground arith in
        let inside : in_range (dest + s.virt_addr + k) (dest + s.virt_addr) s.data_size ≡ true =
          ground arith in
        let place : image + s.data_offset + (dest + s.virt_addr + k - (dest + s.virt_addr))
            ≡ image + s.data_offset + k =
          omega arith in
        rw (rest_size, before, inside, place, lt→ltb k s.data_size early)
    | no late ↦
        let inside : in_range (dest + s.virt_addr + k) (dest + s.virt_addr + s.data_size)
              (s.virt_size - s.data_size)
            ≡ true =
          ground arith in
        rw (rest_size, inside, le→not-ltb k s.data_size (omega arith))
  ]

  pub load-off :
      (a : ℕ)
      → (a < dest + s.virt_addr) ⊎ (dest + s.virt_addr + s.virt_size ≤ a)
      → load mem image dest s a ≡ mem a
  unfolding load
  load-off a off =
      let zeros : in_range a (dest + s.virt_addr + s.data_size) (s.virt_size - s.data_size)
          ≡ false =
        ground arith in
      let copied : in_range a (dest + s.virt_addr) s.data_size ≡ false = ground arith in
      rw (rest_size, zeros, copied)

pub segment-same :
    (mem mem' : Memory) (at : ℕ)
    → ((a : ℕ) → at ≤ a → a < at + 56 → mem' a ≡ mem a)
    → segment mem' at ≡ segment mem at
unfolding segment
segment-same mem mem' at h =
    let same = λ (off width : ℕ) (fits : off + width ≤ 56).
      read-same mem mem' (at + off) width (λ a l r. h a (omega arith) (omega arith)) in
    let start : at + 0 ≡ at = omega arith in
    let first : read mem' at 4 ≡ read mem at 4 =
      read-same mem mem' at 4 (λ a l r. h a (omega arith) (omega arith)) in
    rw (
      first,
      same 8 8 (omega arith),
      same 16 8 (omega arith),
      same 32 8 (omega arith),
      same 40 8 (omega arith),
    )
