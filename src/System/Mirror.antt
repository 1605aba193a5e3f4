-- ===== src/System/Mirror.antt =====
-- What is read through the mirror is what stands in memory.
use simple_os_rs.Common.{ℕ, zero, suc, ◌+◌, ◌-◌, ◌*◌, ◌≡◌, refl, true, leb, ap₂, ◌∷◌, arith}
use simple_os_rs.Boot.Elf.Bytes.{Memory, read}
use simple_os_rs.Boot.Segments.{segment_at, segments_at}
use simple_os_rs.Boot.Main.{words_at, through}

module _ (base : ℕ) (mem : Memory) where
  pub byte-mirror : (a : ℕ) → through base mem (base + a) ≡ mem a
  byte-mirror a =
      let high : leb base (base + a) ≡ true = ground arith in
      let back : base + a - base ≡ a = omega arith in rw (high, back) refl

  pub read-mirror : (at width : ℕ) → read (through base mem) (base + at) width ≡ read mem at width
  unfolding read
  read-mirror at zero = refl
  read-mirror at (suc width) =
      let next : base + at + 1 ≡ base + (at + 1) = omega arith in
      rw (next, read-mirror (at + 1) width, byte-mirror at) refl

  segment_at-mirror : (at : ℕ) → segment_at (through base mem) (base + at) ≡ segment_at mem at
  unfolding segment_at
  segment_at-mirror at =
      let second : base + at + 8 ≡ base + (at + 8) = omega arith in
      let third : base + at + 16 ≡ base + (at + 16) = omega arith in
      rw (second, third, read-mirror at 8, read-mirror (at + 8) 8, read-mirror (at + 16) 4) refl

  pub segments_at-mirror :
      (at n : ℕ) → segments_at (through base mem) (base + at) n ≡ segments_at mem at n
  unfolding segments_at
  segments_at-mirror at zero = refl
  segments_at-mirror at (suc n) =
      let next : base + at + 24 ≡ base + (at + 24) = omega arith in
      rw next (ap₂ (λ s ss. s ∷ ss) (segment_at-mirror at) (segments_at-mirror (at + 24) n))

  pub words_at-mirror : (ptr : ℕ) → words_at (through base mem) (base + ptr) ≡ words_at mem ptr
  words_at-mirror ptr i k =
      let shift : base + ptr + 8 * k ≡ base + (ptr + 8 * k) = omega arith in
      let same : read (through base mem) (base + ptr + 8 * k) 8 ≡ read mem (ptr + 8 * k) 8 =
        rw (shift, read-mirror (ptr + 8 * k) 8) refl in
      same i
