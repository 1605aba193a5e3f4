-- ===== src/Boot/Segments.antt =====
-- The memory map in memory, as `efi_main` of bootloader/src/main.rs writes it for the kernel: the
-- structure `MemorySegment` of common-structures/src/kernel_header.rs at its `repr(C)` offsets.
pub mod Laws
use simple_os_rs.Common.{
  ℕ, zero, suc, ◌+◌, ◌-◌, ◌*◌, ◌/◌, ◌%◌, ◌^◌, ◌<◌, ◌≤◌, ◌≡◌, ◌⊎◌, inl, inr, refl, ap, ap₂, sym, ◌∙◌,
  List, [], ◌∷◌, length, ◌==◌, if◌then◌else◌, arith,
}
use simple_os_rs.Phys.Init.{MemorySegment, MemorySegmentState, free, occupied}
use simple_os_rs.Boot.Elf.Bytes.{Memory, read, write_u64, in_range, read-same, read-write_u64}

abbrev pub code_of : MemorySegmentState → ℕ
code_of state = elim state [ free ↦ 0 | occupied ↦ 1 ]

abbrev pub state_at : ℕ → MemorySegmentState
state_at code = if code == 0 then free else occupied

-- The enum has four bytes.
abbrev pub write_u32 : Memory → ℕ → ℕ → Memory
write_u32 mem at value a = if in_range a at 4 then value / 256 ^ (a - at) % 256 else mem a

-- `memory_map[i] = MemorySegment { .. }`, with the element at `at`.
unfoldable pub write_segment : Memory → ℕ → MemorySegment → Memory
write_segment mem at s =
    write_u32 (write_u64 (write_u64 mem at s.start) (at + 8) s.page_count) (at + 16)
      (code_of s.state)

-- The loop over the memory map.
unfoldable pub write_segments : Memory → ℕ → List MemorySegment → Memory
unfolding write_segment
write_segments mem at [] = mem
write_segments mem at (s ∷ ss) = write_segments (write_segment mem at s) (at + 24) ss

-- What the kernel reads as the elements of its slice.
unfoldable pub segment_at : Memory → ℕ → MemorySegment
segment_at mem at = record {
  start = read mem at 8;
  page_count = read mem (at + 8) 8;
  state = state_at (read mem (at + 16) 4);
}

unfoldable pub segments_at : Memory → ℕ → ℕ → List MemorySegment
unfolding segment_at
segments_at mem at zero = []
segments_at mem at (suc n) = segment_at mem at ∷ segments_at mem (at + 24) n

-- The fields are words of 64 bits.
abbrev pub Words : List MemorySegment → Type 0
Words [] = Unit
Words (s ∷ ss) = ((s.start < 2 ^ 64) × (s.page_count < 2 ^ 64)) × Words ss
