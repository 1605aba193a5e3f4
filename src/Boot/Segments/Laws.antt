-- ===== src/Boot/Segments/Laws.antt =====
-- The memory map that the kernel reads is the one that the bootloader wrote.
use simple_os_rs.Common.{
  ℕ, zero, suc, ◌+◌, ◌*◌, ◌^◌, ◌<◌, ◌≤◌, ◌≡◌, ◌⊎◌, inl, refl, ap₂, ◌∙◌, List, [], ◌∷◌, length,
  arith,
}
use simple_os_rs.Phys.Init.{MemorySegment, MemorySegmentState, free, occupied}
use simple_os_rs.Boot.Elf.Bytes.{Memory, read, write_u64, read-same, read-write_u64}
use simple_os_rs.Boot.Segments.{
  code_of, state_at, write_u32, write_segment, write_segments, segment_at, segments_at, Words,
}

write_segment-off :
    (mem : Memory) (at : ℕ) (s : MemorySegment) (a : ℕ)
    → (a < at) ⊎ (at + 24 ≤ a)
    → write_segment mem at s a ≡ mem a
unfolding write_segment
write_segment-off mem at s a out = ground arith

-- The elements are all that is written.
pub write_segments-off :
    (mem : Memory) (at : ℕ) (ss : List MemorySegment) (a : ℕ)
    → (a < at) ⊎ (at + 24 * length ss ≤ a)
    → write_segments mem at ss a ≡ mem a
unfolding write_segments
write_segments-off mem at [] a out = refl
write_segments-off mem at (s ∷ ss) a out =
    write_segments-off (write_segment mem at s) (at + 24) ss a (ground arith)
    ∙ write_segment-off mem at s a (ground arith)

segment_at-same :
    (mem mem' : Memory) (at : ℕ)
    → ((a : ℕ) → at ≤ a → a < at + 24 → mem' a ≡ mem a)
    → segment_at mem' at ≡ segment_at mem at
unfolding segment_at
segment_at-same mem mem' at same =
    rw
      (
        read-same mem mem' at 8 (λ a l r. same a (omega arith) (omega arith)),
        read-same mem mem' (at + 8) 8 (λ a l r. same a (omega arith) (omega arith)),
        read-same mem mem' (at + 16) 4 (λ a l r. same a (omega arith) (omega arith)),
      )
      refl

-- The slice sees nothing but its elements.
pub segments_at-same :
    (mem mem' : Memory) (at n : ℕ)
    → ((a : ℕ) → at ≤ a → a < at + 24 * n → mem' a ≡ mem a)
    → segments_at mem' at n ≡ segments_at mem at n
unfolding segments_at
segments_at-same mem mem' at zero same = refl
segments_at-same mem mem' at (suc n) same =
    ap₂ (λ s ss. s ∷ ss) (segment_at-same mem mem' at (λ a l r. same a (omega arith) (omega arith)))
      (segments_at-same mem mem' (at + 24) n (λ a l r. same a (omega arith) (omega arith)))

state_written :
    (mem : Memory) (at : ℕ) (state : MemorySegmentState)
    → state_at (read (write_u32 mem at (code_of state)) at 4) ≡ state
unfolding read
state_written mem at free = ground arith
state_written mem at occupied = ground arith

segment_at-write_segment :
    (mem : Memory) (at : ℕ) (s : MemorySegment)
    → s.start < 2 ^ 64
    → s.page_count < 2 ^ 64
    → segment_at (write_segment mem at s) at ≡ s
unfolding segment_at write_segment
segment_at-write_segment mem at s h k =
    let m₁ = write_u64 mem at s.start in
    let m₂ = write_u64 m₁ (at + 8) s.page_count in
    let m₃ = write_u32 m₂ (at + 16) (code_of s.state) in
    let first : read m₃ at 8 ≡ s.start =
      read-same m₁ m₃ at 8 (λ a l r. ground arith) ∙ read-write_u64 mem at s.start h in
    let second : read m₃ (at + 8) 8 ≡ s.page_count =
      read-same m₂ m₃ (at + 8) 8 (λ a l r. ground arith)
      ∙ read-write_u64 m₁ (at + 8) s.page_count k in
    rw (first, second, state_written m₂ (at + 16) s.state) refl

-- For segments whose fields are words of 64 bits, the elements of the slice are read back as they
-- were written.
pub segments_at-write_segments :
    (mem : Memory) (at : ℕ) (ss : List MemorySegment)
    → Words ss
    → segments_at (write_segments mem at ss) at (length ss) ≡ ss
unfolding segments_at write_segments
segments_at-write_segments mem at [] w = refl
segments_at-write_segments mem at (s ∷ ss) ((h, k), w) =
    let mem₁ = write_segment mem at s in
    let first : segment_at (write_segments mem₁ (at + 24) ss) at ≡ s =
      segment_at-same mem₁ (write_segments mem₁ (at + 24) ss) at
        (λ a l r. write_segments-off mem₁ (at + 24) ss a (inl (omega arith)))
      ∙ segment_at-write_segment mem at s h k in
    ap₂ (λ x xs. x ∷ xs) first (segments_at-write_segments mem₁ (at + 24) ss w)
