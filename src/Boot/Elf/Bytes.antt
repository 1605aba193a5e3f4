-- ===== src/Boot/Elf/Bytes.antt =====
-- Memory as bytes, and the accesses of the ELF loader.
use simple_os_rs.Common.{
  ℕ, zero, suc, ◌+◌, ◌-◌, ◌*◌, ◌/◌, ◌%◌, ◌^◌, ◌<◌, ◌≤◌, ◌≡◌, refl, Bool, true, ◌&&◌, leb, ltb,
  if◌then◌else◌, arith,
}

abbrev pub Memory : Type 0
Memory = ℕ → ℕ

-- A number of `width` bytes, the lowest first.
unfoldable pub read : Memory → ℕ → ℕ → ℕ
read mem at zero = 0
read mem at (suc width) = mem at + 256 * read mem (at + 1) width

abbrev pub in_range : ℕ → ℕ → ℕ → Bool
in_range a start count = leb start a && ltb a (start + count)

-- `copy_from_nonoverlapping`
abbrev pub copy : Memory → ℕ → ℕ → ℕ → Memory
copy mem src dst count a = if in_range a dst count then mem (src + (a - dst)) else mem a

abbrev pub write_bytes : Memory → ℕ → ℕ → ℕ → Memory
write_bytes mem dst value count a = if in_range a dst count then value else mem a

abbrev pub write_u64 : Memory → ℕ → ℕ → Memory
write_u64 mem at value a = if in_range a at 8 then value / 256 ^ (a - at) % 256 else mem a

-- A read sees nothing but its own bytes.
pub read-same :
    (mem mem' : Memory) (at width : ℕ)
    → ((a : ℕ) → at ≤ a → a < at + width → mem' a ≡ mem a)
    → read mem' at width ≡ read mem at width
unfolding read
read-same mem mem' at zero h = refl
read-same mem mem' at (suc width) h =
    let first = h at (omega arith) (omega arith) in
    let rest = read-same mem mem' (at + 1) width (λ a l r. h a (omega arith) (omega arith)) in
    omega (arith, first, rest)

byte_written :
    (mem : Memory) (at value a k : ℕ)
    → k < 8
    → a ≡ at + k
    → write_u64 mem at value a ≡ value / 256 ^ k % 256
byte_written mem at value a k lt e =
    let inside : in_range a at 8 ≡ true = ground arith in
    let place : a - at ≡ k = omega arith in rw (inside, place)

-- What was written is read back.
pub read-write_u64 :
    (mem : Memory) (at value : ℕ) → value < 2 ^ 64 → read (write_u64 mem at value) at 8 ≡ value
unfolding read
read-write_u64 mem at value h =
    let byte = byte_written mem at value in
    rw
      (
        byte at 0 (omega arith) (omega arith),
        byte (at + 1) 1 (omega arith) (omega arith),
        byte (at + 1 + 1) 2 (omega arith) (omega arith),
        byte (at + 1 + 1 + 1) 3 (omega arith) (omega arith),
        byte (at + 1 + 1 + 1 + 1) 4 (omega arith) (omega arith),
        byte (at + 1 + 1 + 1 + 1 + 1) 5 (omega arith) (omega arith),
        byte (at + 1 + 1 + 1 + 1 + 1 + 1) 6 (omega arith) (omega arith),
        byte (at + 1 + 1 + 1 + 1 + 1 + 1 + 1) 7 (omega arith) (omega arith),
      )
      (omega arith)
