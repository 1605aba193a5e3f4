-- ===== src/Boot/Elf/Tests.antt =====
-- A small image with one loaded segment, a dynamic segment, a relocation and two names.
use simple_os_rs.Common.{
  ℕ, zero, suc, ◌+◌, ◌-◌, ◌^◌, ◌≡◌, inl, inr, refl, arith, List, [], ◌∷◌, false,
}
use simple_os_rs.Common.Outcome.{ok, panic, unsupported_relocation}
use simple_os_rs.Boot.Elf.Bytes.{Memory, read, write_u64}
use simple_os_rs.Boot.Elf.{
  SegmentHeader, SectionHeader, RelA, header, segment, section, rela_at, get_size, strcmp,
  get_text_addr, dynamic, relocate,
}
use simple_os_rs.Boot.Elf.Size.{EndBy, LeastHolding, get_size-LeastHolding}
use simple_os_rs.Boot.Elf.Prepare.{ImagePrepared, prepare-ImagePrepared}
use simple_os_rs.Boot.Elf.Relocation
use simple_os_rs.Boot.Elf.Relocation.{
  last_value, dynamic-last_value, relocate-Relocated, relocate-panic,
}
use simple_os_rs.Boot.Elf.Names.{strcmp-same_text, get_text_addr-address_named}

abbrev with_words : List (ℕ × ℕ) → Memory
with_words [] = λ a. 0
with_words ((at, word) ∷ rest) = write_u64 (with_words rest) at word

-- The image is at 0; its header says that one segment header follows.
abbrev pub image : Memory
image = with_words (
    (32, 64)
    ∷ (56, 1)
    ∷ (64, 1)
    ∷ (72, 200)
    ∷ (80, 16)
    ∷ (96, 4)
    ∷ (104, 8)
    ∷ (200, 0x0403_0201)
    ∷ [])

abbrev pub text_segment : SegmentHeader
text_segment = record {
  seg_type = 1;
  data_offset = 200;
  virt_addr = 16;
  data_size = 4;
  virt_size = 8;
}

pub size_24 : get_size image 0 ≡ 24
unfolding get_size read
size_24 = refl

image_ends : EndBy image 64 1 (2 ^ 64 - 1)
unfolding segment read
image_ends zero lt is = omega arith
image_ends (suc i) lt is = absurd (omega arith)

get_size-LeastHolding_example :
    LeastHolding image
      (0 + (header image 0).ph_offset)
      (header image 0).ph_entry_count
      (get_size image 0)
unfolding header read
get_size-LeastHolding_example = get_size-LeastHolding image 0 image_ends

prepare-ImagePrepared_example : ImagePrepared 9 image 0 4096 (get_size image 0) (text_segment ∷ [])
unfolding header segment read
prepare-ImagePrepared_example =
    prepare-ImagePrepared 9 image 0 4096 (text_segment ∷ []) refl (refl, tt)
      (λ a l r. inl (omega arith)) (λ a l r. inl (omega arith))
      (
        record {
          static = omega arith;
          data_fits = omega arith;
          ends = omega arith;
          data_outside = λ k lt. inl (omega arith);
        },
        tt,
      )
      ((λ a h f. f), tt)

-- A dynamic segment at 64, and the relocation that it leads to.
abbrev relocations : Memory
relocations =
    with_words ((64, 7) ∷ (72, 300) ∷ (80, 8) ∷ (88, 24) ∷ (300, 16) ∷ (308, 8) ∷ (316, 5) ∷ [])

dynamic-last_value_example : dynamic 3 relocations 64 0 0 ≡ ok (300, 1)
unfolding read
dynamic-last_value_example =
    dynamic-last_value 3 relocations 64 ((7, 300) ∷ (8, 24) ∷ [])
      (refl, refl, omega arith, (refl, refl, omega arith, refl)) (omega arith)

abbrev pointer : RelA
pointer = record { addr = 16; info = 8; addend = 5 }

relocate-Relocated_example : Relocation.Relocated relocations 4096 300 (pointer ∷ [])
unfolding rela_at read
relocate-Relocated_example =
    relocate-Relocated relocations 4096 300 (pointer ∷ []) (refl, tt) (((refl, omega arith)), tt)
      ((λ a h f. f), tt) (λ a l r t. elim t [ inl h ↦ omega arith | inr h ↦ h ])

unsupported_panics : relocate 1 image 4096 64 ≡ panic unsupported_relocation
unfolding rela_at read
unsupported_panics = relocate-panic image 4096 64 0 (omega arith)

-- The names `a` at 400 and `ab` at 408.
abbrev names : Memory
names = with_words ((400, 97) ∷ (408, 25185) ∷ [])

prefix_differs : strcmp 9 names 400 408 ≡ ok false
prefix_differs =
    strcmp-same_text 9 names 400 408 (97 ∷ []) (97 ∷ 98 ∷ []) (refl, omega arith, refl)
      (refl, omega arith, (refl, omega arith, refl)) (omega arith)

-- The image at 0, whose one section has its name, `a`, at 308; the name to find is at 408.
abbrev named_image : Memory
named_image =
    with_words (
      (40, 64)
      ∷ (56, 2 ^ 32)
      ∷ (64, 8 + 2 ^ 32)
      ∷ (80, 32)
      ∷ (88, 300)
      ∷ (308, 97)
      ∷ (408, 97)
      ∷ [])

abbrev code : SectionHeader
code = record { name_offset = 8; sec_type = 1; virt_addr = 32; file_offset = 300 }

get_text_addr-address_named_example : get_text_addr 9 named_image 0 408 4096 ≡ ok 4128
unfolding header section read
get_text_addr-address_named_example =
    get_text_addr-address_named 9 named_image 0 408 4096 (97 ∷ []) ((code, 97 ∷ []) ∷ [])
      (omega arith) refl (refl, omega arith, refl) (refl, (λ e. (refl, omega arith, refl)), tt)
      (omega arith, tt)
