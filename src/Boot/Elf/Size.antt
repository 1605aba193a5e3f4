-- ===== src/Boot/Elf/Size.antt =====
-- `get_size` is the least size that holds every loaded segment.
use simple_os_rs.Common.{
  ℕ, zero, suc, ◌+◌, ◌-◌, ◌*◌, ◌%◌, ◌^◌, ◌<◌, ◌≤◌, ◌≡◌, ◌⊎◌, inl, inr, refl, sym, ◌∙◌, ◌==◌, ltb,
  if◌then◌else◌, arith, Bool-cases,
}
use simple_os_rs.Boot.Elf.Bytes.{Memory}
use simple_os_rs.Boot.Elf.{SegmentHeader, header, segment, segtype_load, size_from, get_size}

-- The end of a segment in the buffer.
abbrev pub end_of : SegmentHeader → ℕ
end_of s = (s.virt_addr + s.virt_size) % 2 ^ 64

-- Segment `i` of the headers from `at` on, if it is loaded.
abbrev pub IsLoaded : Memory → ℕ → ℕ → Type 0
IsLoaded mem at i = (segment mem (at + 56 * i)).seg_type ≡ segtype_load

-- `size` holds each loaded segment among the first `count`, and one of them, or `first`, needs it.
pub record LeastSize (mem : Memory) (at count first size : ℕ) : Type 0 where
  pub holds : (i : ℕ) → i < count → IsLoaded mem at i → end_of (segment mem (at + 56 * i)) ≤ size
  pub above : first ≤ size
  pub least :
      (size ≡ first)
      ⊎ ((i : ℕ) × (i < count) × IsLoaded mem at i × (end_of (segment mem (at + 56 * i)) ≡ size))

-- Segments from the first on, from the first and those behind it.
holds_all :
    (mem : Memory) (at count size : ℕ)
    → ((segment mem at).seg_type ≡ segtype_load → end_of (segment mem at) ≤ size)
    → ((i : ℕ)
        → i < count
        → IsLoaded mem (at + 56) i
        → end_of (segment mem (at + 56 + 56 * i)) ≤ size)
    → (i : ℕ) → i < suc count
    → IsLoaded mem at i
    → end_of (segment mem (at + 56 * i)) ≤ size
holds_all mem at count size first behind zero lt is =
    let start : at + 56 * 0 ≡ at = omega arith in rw start (first (rw start at is))
holds_all mem at count size first behind (suc i) lt is =
    let shift : at + 56 * suc i ≡ at + 56 + 56 * i = omega arith in
    rw shift (behind i (omega arith) (rw shift at is))

size_from-LeastSize :
    (mem : Memory) (count at first : ℕ)
    → LeastSize mem at count first (size_from mem count at first)
unfolding size_from
size_from-LeastSize mem zero at first = record {
  holds = λ i h l. absurd (omega arith);
  above = omega arith;
  least = inl refl;
}
size_from-LeastSize mem (suc count) at first =
    let s = segment mem at in
    let next =
      if s.seg_type == segtype_load
      then if ltb first (end_of s) then end_of s else first
      else first in
    let rest = size_from-LeastSize mem count (at + 56) next in
    let shift : (i : ℕ) → at + 56 * suc i ≡ at + 56 + 56 * i = λ i. omega arith in
    let start : at + 56 * 0 ≡ at = omega arith in
    let grows : first ≤ next = ground arith in
    record {
      holds =
          holds_all mem at count (size_from mem (suc count) at first)
            (λ is. let large : end_of s ≤ next = ground arith in omega (arith, large, rest.above))
            rest.holds;
      above = omega (arith, rest.above, grows);
      least = elim rest.least [
        | inl same ↦ elim (Bool-cases (s.seg_type == segtype_load)) [
          | inl loaded ↦ elim (Bool-cases (ltb first (end_of s))) [
            | inl larger ↦
                let new : next ≡ end_of s = rw (loaded, larger) in
                inr (0, omega arith, rw start (ground arith), rw start (sym (same ∙ new)))
            | inr smaller ↦ let old : next ≡ first = rw (loaded, smaller) in inl (same ∙ old)
          ]
          | inr other ↦ let old : next ≡ first = rw other in inl (same ∙ old)
        ]
        | inr (i, lt, is, e) ↦ inr (suc i, omega arith, rw (shift i) is, rw (shift i) e)
      ];
    }

-- With the ends as the loop computes them, on 64 bits.
pub get_size-LeastSize :
    (mem : Memory) (image : ℕ)
    → LeastSize mem
        (image + (header mem image).ph_offset)
        (header mem image).ph_entry_count
        0
        (get_size mem image)
unfolding get_size
get_size-LeastSize mem image =
    size_from-LeastSize mem (header mem image).ph_entry_count (image + (header mem image).ph_offset)
      0

-- Where the segments that are loaded end.
abbrev pub EndBy : Memory → ℕ → ℕ → ℕ → Type 0
EndBy mem at count bound =
    (i : ℕ)
    → i < count
    → IsLoaded mem at i
    → (segment mem (at + 56 * i)).virt_addr + (segment mem (at + 56 * i)).virt_size ≤ bound

-- All segments that are loaded end by `size`, and by no smaller one.
pub record LeastHolding (mem : Memory) (at count size : ℕ) : Type 0 where
  pub holds : EndBy mem at count size
  pub least : (bound : ℕ) → EndBy mem at count bound → size ≤ bound

LeastSize-LeastHolding :
    (mem : Memory) (at count size : ℕ)
    → EndBy mem at count (2 ^ 64 - 1)
    → LeastSize mem at count 0 size
    → LeastHolding mem at count size
LeastSize-LeastHolding mem at count size wrap least = record {
  holds = λ i lt is. omega (arith, wrap i lt is, least.holds i lt is);
  least = λ bound ends. elim least.least [
    | inl none ↦ omega (arith, none)
    | inr (i, lt, is, e) ↦ omega (arith, wrap i lt is, ends i lt is, e)
  ];
}

-- Where each segment that is loaded ends below 2^64, all of them end by the size that `get_size`
-- gives, and by no smaller one.
pub get_size-LeastHolding :
    (mem : Memory) (image : ℕ)
    → EndBy mem
        (image + (header mem image).ph_offset)
        (header mem image).ph_entry_count
        (2 ^ 64 - 1)
    → LeastHolding mem
        (image + (header mem image).ph_offset)
        (header mem image).ph_entry_count
        (get_size mem image)
get_size-LeastHolding mem image wrap =
    LeastSize-LeastHolding mem (image + (header mem image).ph_offset)
      (header mem image).ph_entry_count (get_size mem image) wrap (get_size-LeastSize mem image)
