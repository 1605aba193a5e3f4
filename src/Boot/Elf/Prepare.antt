-- ===== src/Boot/Elf/Prepare.antt =====
-- `prepare` into a buffer of the size that `get_size` gives.
use simple_os_rs.Common.{
  ℕ, suc, ◌+◌, ◌*◌, ◌%◌, ◌^◌, ◌<◌, ◌≤◌, ◌≡◌, ◌≢◌, inl, inr, subst, arith, List, [], ◌∷◌, length,
}
use simple_os_rs.Common.Outcome.{ok}
use simple_os_rs.Boot.Elf.Bytes.{Memory, read-same}
use simple_os_rs.Boot.Elf.{
  SegmentHeader, header, segment, segtype_load, segtype_dynamic, get_size, prepare_segments,
  prepare,
}
use simple_os_rs.Boot.Elf.Size.{IsLoaded, end_of, get_size-LeastSize}
use simple_os_rs.Boot.Elf.Load.{
  Reads, Outside, InSegments, Apart, AllFit, Loaded, not-InSegment, prepare_segments-Prepared,
}

-- A segment is not dynamic, its place holds its data and ends below 2^64, and its data lie outside
-- the buffer.
pub record Plain (image dest size : ℕ) (s : SegmentHeader) : Type 0 where
  pub static : s.seg_type ≢ segtype_dynamic
  pub data_fits : s.data_size ≤ s.virt_size
  pub ends : s.virt_addr + s.virt_size < 2 ^ 64
  pub data_outside : (k : ℕ) → k < s.data_size → Outside dest size (image + s.data_offset + k)

abbrev pub AllPlain : ℕ → ℕ → ℕ → List SegmentHeader → Type 0
AllPlain image dest size [] = Unit
AllPlain image dest size (s ∷ ss) = Plain image dest size s × AllPlain image dest size ss

-- A size that holds every loaded segment is one into which all fit.
all_fit :
    (mem : Memory) (image dest size at : ℕ) (ss : List SegmentHeader)
    → Reads mem at ss
    → ((i : ℕ) → i < length ss → IsLoaded mem at i → end_of (segment mem (at + 56 * i)) ≤ size)
    → AllPlain image dest size ss
    → AllFit image dest size ss
all_fit mem image dest size at [] reads holds plain = tt
all_fit mem image dest size at (s ∷ ss) (here, reads) holds (p, plain) =
    let start : at + 56 * 0 ≡ at = omega arith in
    let first : segment mem (at + 56 * 0) ≡ s = rw start here in
    let end : s.seg_type ≡ segtype_load → end_of s ≤ size = λ is.
      subst (λ x. x.seg_type ≡ segtype_load → end_of x ≤ size) first (holds 0 (omega arith)) is in
    let shift : (i : ℕ) → at + 56 * suc i ≡ at + 56 + 56 * i = λ i. omega arith in
    let ends = p.ends in
    (
      record {
        static = p.static;
        data_fits = p.data_fits;
        small = omega arith;
        inside = λ is. let le = end is in omega arith;
        data_outside = p.data_outside;
      },
      all_fit mem image dest size (at + 56) ss reads
          (λ i lt.
            subst (λ x. (segment mem x).seg_type ≡ segtype_load → end_of (segment mem x) ≤ size)
              (shift i) (holds (suc i) (omega arith)))
          plain,
    )

not-InSegments :
    (fuel image dest size : ℕ) (ss : List SegmentHeader) (a : ℕ)
    → AllFit image dest size ss
    → Outside dest size a
    → ¬ InSegments dest ss a
not-InSegments fuel image dest size [] a fit out h = h
not-InSegments fuel image dest size (s ∷ ss) a (f, fit) out h = elim h [
  | inl here ↦ not-InSegment fuel image dest size s a f out here
  | inr later ↦ not-InSegments fuel image dest size ss a fit out later
]

-- What `prepare` gives: the entry point of the image moved to the buffer, the loaded segments in
-- place, and all that lies outside the buffer as before.
pub record ImagePrepared (fuel : ℕ) (mem : Memory) (image dest size : ℕ) (ss : List SegmentHeader)
    : Type 0 where
  pub after : Memory
  pub returns :
      prepare fuel mem image dest ≡ ok (after, (dest + (header mem image).entry_point) % 2 ^ 64)
  pub off : (a : ℕ) → Outside dest size a → after a ≡ mem a
  pub loaded : Loaded mem after image dest ss

module _ (fuel : ℕ) (mem : Memory) (image dest : ℕ) (ss : List SegmentHeader) where
  prepare-run :
      (after : Memory)
      → (header mem image).ph_entry_count ≡ length ss
      → prepare_segments fuel (length ss) mem image dest (image + (header mem image).ph_offset)
        ≡ ok after
      → (header after image).entry_point ≡ (header mem image).entry_point
      → prepare fuel mem image dest ≡ ok (after, (dest + (header mem image).entry_point) % 2 ^ 64)
  unfolding prepare
  prepare-run after count done same = rw (count, done, same)

  -- For a buffer of the size that `get_size` gives, where the header, the segment headers and the
  -- data lie outside of it, no segment is dynamic, each has a place that holds its data and ends
  -- below 2^64, and the places of the loaded segments share no address, `prepare` returns the
  -- entry point moved by the address of the buffer; each place of a loaded segment then holds its
  -- data and zeros behind them, and no address outside the buffer changes.
  pub prepare-ImagePrepared :
      (header mem image).ph_entry_count ≡ length ss
      → Reads mem (image + (header mem image).ph_offset) ss
      → ((a : ℕ) → image ≤ a → a < image + 64 → Outside dest (get_size mem image) a)
      → ((a : ℕ)
          → image + (header mem image).ph_offset ≤ a
          → a < image + (header mem image).ph_offset + 56 * length ss
          → Outside dest (get_size mem image) a)
      → AllPlain image dest (get_size mem image) ss
      → Apart dest ss
      → ImagePrepared fuel mem image dest (get_size mem image) ss
  prepare-ImagePrepared count reads outside headers plain apart =
      let size = get_size mem image in
      let at = image + (header mem image).ph_offset in
      let least = get_size-LeastSize mem image in
      let fit : AllFit image dest size ss =
        all_fit mem image dest size at ss reads (λ i lt. least.holds i (omega (arith, count)))
          plain in
      let p = prepare_segments-Prepared fuel image dest size mem at ss reads headers fit apart in
      let off : (a : ℕ) → Outside dest size a → p.after a ≡ mem a =
        λ a out. p.off a (not-InSegments fuel image dest size ss a fit out) in
      record {
        after = p.after;
        returns = prepare-run p.after count p.returns (
            unfold header in
            read-same mem p.after (image + 24) 8
              λ a l r. off a (outside a (omega arith) (omega arith)));
        off = off;
        loaded = p.loaded;
      }
