-- ===== src/Boot/Main/PlainFile.antt =====
-- A file of an ELF image without a dynamic segment is one that the loader accepts wherever it stands.
use simple_os_rs.Common.{
  ℕ, zero, suc, ◌+◌, ◌*◌, ◌%◌, ◌^◌, ◌<◌, ◌≤◌, ◌≡◌, ◌≢◌, ◌==◌, if◌then◌else◌, ltb, inl, refl, sym,
  ap, ap₂, ◌∙◌, subst, List, [], ◌∷◌, length, arith,
}
use simple_os_rs.Boot.Elf.Bytes.{Memory, read}
use simple_os_rs.Boot.Elf.{
  Header, SegmentHeader, header, segment, segtype_load, segtype_dynamic, size_from, get_size,
}
use simple_os_rs.Boot.Elf.Load.{Reads, Outside, Apart}
use simple_os_rs.Boot.Elf.Prepare.{AllPlain, ImagePrepared, prepare-ImagePrepared}
use simple_os_rs.Boot.Main.Working.{Disk, Holds}
use simple_os_rs.Boot.Main.Loading.{Loadable}

-- The size with one more segment.
abbrev taken : SegmentHeader → ℕ → ℕ
taken s size =
    let offs = (s.virt_addr + s.virt_size) % 2 ^ 64 in
    if s.seg_type == segtype_load then if ltb size offs then offs else size else size

module _ (mem file : Memory) (image size : ℕ) (holds : Holds mem image size file) where
  read_held : (at width : ℕ) → at + width ≤ size → read mem (image + at) width ≡ read file at width
  unfolding read
  read_held at zero h = refl
  read_held at (suc width) h =
      let rest = read_held (at + 1) width (omega arith) in
      let place : image + at + 1 ≡ image + (at + 1) = omega arith in
      rw (holds at (omega arith), place, rest) refl

  field_held :
      (base at width : ℕ)
      → base + at + width ≤ size
      → read mem (image + base + at) width ≡ read file (base + at) width
  field_held base at width h =
      let place : image + base + at ≡ image + (base + at) = omega arith in
      rw place (read_held (base + at) width h)

  header_held : 64 ≤ size → header mem image ≡ header file 0
  unfolding header
  header_held h =
      rw
        (
          read_held 24 8 (omega arith),
          read_held 32 8 (omega arith),
          read_held 40 8 (omega arith),
          read_held 56 2 (omega arith),
          read_held 60 2 (omega arith),
          read_held 62 2 (omega arith),
        )
        refl

  segment_held : (at : ℕ) → at + 56 ≤ size → segment mem (image + at) ≡ segment file at
  unfolding segment
  segment_held at h =
      rw
        (
          read_held at 4 (omega arith),
          field_held at 8 8 (omega arith),
          field_held at 16 8 (omega arith),
          field_held at 32 8 (omega arith),
          field_held at 40 8 (omega arith),
        )
        refl

  Reads-held :
      (at : ℕ) (ss : List SegmentHeader)
      → at + 56 * length ss ≤ size
      → Reads file at ss
      → Reads mem (image + at) ss
  Reads-held at [] h r = tt
  Reads-held at (s ∷ ss) h (first, rest) =
      let place : image + (at + 56) ≡ image + at + 56 = omega arith in
      (
        segment_held at (omega arith) ∙ first,
        subst (λ x. Reads mem x ss) place (Reads-held (at + 56) ss (omega arith) rest),
      )

  size_held :
      (count at first : ℕ)
      → at + 56 * count ≤ size
      → size_from mem count (image + at) first ≡ size_from file count at first
  unfolding size_from
  size_held zero at first h = refl
  size_held (suc count) at first h =
      let place : image + at + 56 ≡ image + (at + 56) = omega arith in
      let next = taken (segment file at) first in
      ap (λ s. size_from mem count (image + at + 56) (taken s first))
        (segment_held at (omega arith))
      ∙ ap (λ x. size_from mem count x next) place
      ∙ size_held count (at + 56) next (omega arith)

-- A segment is not dynamic, its place holds its data and ends below 2^64, and its data lie in the
-- file.
pub record InFile (file_size : ℕ) (s : SegmentHeader) : Type 0 where
  pub static : s.seg_type ≢ segtype_dynamic
  pub data_fits : s.data_size ≤ s.virt_size
  pub ends : s.virt_addr + s.virt_size < 2 ^ 64
  pub inside : s.data_offset + s.data_size ≤ file_size

abbrev pub AllInFile : ℕ → List SegmentHeader → Type 0
AllInFile file_size [] = Unit
AllInFile file_size (s ∷ ss) = InFile file_size s × AllInFile file_size ss

-- The bytes of the file, as an image at 0, are an ELF image without a dynamic segment.
pub record PlainFile (disk : Disk) (ss : List SegmentHeader) : Type 0 where
  pub long : 64 ≤ disk.size
  pub count : (header disk.content 0).ph_entry_count ≡ length ss
  pub reads : Reads disk.content (header disk.content 0).ph_offset ss
  pub headers_inside : (header disk.content 0).ph_offset + 56 * length ss ≤ disk.size
  pub segments : AllInFile disk.size ss
  pub apart : (dest : ℕ) → Apart dest ss

-- The data lie in the file, so below the buffer.
InFile-AllPlain :
    (image dest file_size size : ℕ) (ss : List SegmentHeader)
    → image + file_size ≤ dest
    → AllInFile file_size ss
    → AllPlain image dest size ss
InFile-AllPlain image dest file_size size [] le p = tt
InFile-AllPlain image dest file_size size (s ∷ ss) le (p, ps) = (
  record {
    static = p.static;
    data_fits = p.data_fits;
    ends = p.ends;
    data_outside = λ k lt. inl (omega (arith, p.inside));
  },
  InFile-AllPlain image dest file_size size ss le ps,
)

-- The size and the segments that the loader reads of the file where it stands, and what it makes of it.
pub record FilePrepared (fuel : ℕ) (disk : Disk) (ss : List SegmentHeader) (mem : Memory)
    (image dest : ℕ) : Type 0 where
  pub exact : get_size mem image ≡ get_size disk.content 0
  pub prepared : ImagePrepared fuel mem image dest (get_size mem image) ss
  pub same_header : header mem image ≡ header disk.content 0

pub PlainFile-FilePrepared :
    (fuel : ℕ) (disk : Disk) (ss : List SegmentHeader)
    → PlainFile disk ss
    → (mem : Memory) (image dest : ℕ) → Holds mem image disk.size disk.content
    → image + disk.size ≤ dest
    → FilePrepared fuel disk ss mem image dest
unfolding get_size
PlainFile-FilePrepared fuel disk ss file mem image dest holds le =
    let h = header_held mem disk.content image disk.size holds file.long in
    let count = ap (λ (x : Header). x.ph_entry_count) h in
    let offset = ap (λ (x : Header). x.ph_offset) h in
    let zero_add : (header disk.content 0).ph_offset ≡ 0 + (header disk.content 0).ph_offset =
      omega arith in
    let exact : get_size mem image ≡ get_size disk.content 0 =
      ap₂ (λ n o. size_from mem n (image + o) 0) count offset
      ∙ size_held mem disk.content image disk.size holds (header disk.content 0).ph_entry_count
          (header disk.content 0).ph_offset 0 (omega (arith, file.headers_inside, file.count))
      ∙ ap (λ o. size_from disk.content (header disk.content 0).ph_entry_count o 0) zero_add in
    let reads =
      Reads-held mem disk.content image disk.size holds (header disk.content 0).ph_offset ss
        file.headers_inside file.reads in
    let p =
      prepare-ImagePrepared fuel mem image dest ss (count ∙ file.count)
        (subst (λ o. Reads mem (image + o) ss) (sym offset) reads)
        (λ a l r. inl (omega (arith, file.long)))
        (λ a l r. inl (omega (arith, offset, file.headers_inside)))
        (InFile-AllPlain image dest disk.size (get_size mem image) ss le file.segments)
        (file.apart dest) in
    record { exact = exact; prepared = p; same_header = h }

-- For a file that is an ELF image without a dynamic segment, whose headers and data lie in it and
-- whose places fit their data, end below 2^64 and share no address, the loader accepts the file
-- wherever it stands below the buffer: it takes as many bytes as `get_size` gives for the file,
-- returns, and writes nothing but them.
pub PlainFile-Loadable :
    (fuel : ℕ) (disk : Disk) (ss : List SegmentHeader)
    → PlainFile disk ss
    → Loadable fuel (get_size disk.content 0) disk
PlainFile-Loadable fuel disk ss file mem image dest holds le =
    let q = PlainFile-FilePrepared fuel disk ss file mem image dest holds le in
    record {
      exact = q.exact;
      after = q.prepared.after;
      entry_point = (dest + (header mem image).entry_point) % 2 ^ 64;
      returns = q.prepared.returns;
      off = λ a out. q.prepared.off a (subst (λ n. Outside dest n a) (sym q.exact) out);
    }
