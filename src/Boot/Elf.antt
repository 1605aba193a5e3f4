-- ===== src/Boot/Elf.antt =====
-- The ELF loader, bootloader/src/elf.rs. The image and the buffer for the process lie in one memory
-- of bytes; the structures are read from it at their `repr(C)` offsets.
pub mod Bytes
pub mod Size
pub mod Load
pub mod Prepare
pub mod Relocation
pub mod Names
pub mod Tests
use simple_os_rs.Common.{
  ℕ, zero, suc, ◌+◌, ◌-◌, ◌*◌, ◌/◌, ◌%◌, ◌^◌, List, [], ◌∷◌, Bool, true, false, ◌==◌, ltb,
  if◌then◌else◌,
}
use simple_os_rs.Common.Outcome.{
  Outcome, ok, panic, out_of_fuel, index_out_of_bounds, unsupported_relocation, ◌>>=◌,
}
use simple_os_rs.Boot.Elf.Bytes.{Memory, read, copy, write_bytes, write_u64}

-- The fields of the structures that the loader reads.
pub record Header : Type 0 where
  pub entry_point : ℕ
  pub ph_offset : ℕ
  pub sh_offset : ℕ
  pub ph_entry_count : ℕ
  pub sh_entry_count : ℕ
  pub name_string_table_index : ℕ

pub record SegmentHeader : Type 0 where
  pub seg_type : ℕ
  pub data_offset : ℕ
  pub virt_addr : ℕ
  pub data_size : ℕ
  pub virt_size : ℕ

pub record SectionHeader : Type 0 where
  pub name_offset : ℕ
  pub sec_type : ℕ
  pub virt_addr : ℕ
  pub file_offset : ℕ

pub record RelA : Type 0 where
  pub addr : ℕ
  pub info : ℕ
  pub addend : ℕ

unfoldable pub header : Memory → ℕ → Header
header mem image = record {
  entry_point = read mem (image + 24) 8;
  ph_offset = read mem (image + 32) 8;
  sh_offset = read mem (image + 40) 8;
  ph_entry_count = read mem (image + 56) 2;
  sh_entry_count = read mem (image + 60) 2;
  name_string_table_index = read mem (image + 62) 2;
}

unfoldable pub segment : Memory → ℕ → SegmentHeader
segment mem at = record {
  seg_type = read mem at 4;
  data_offset = read mem (at + 8) 8;
  virt_addr = read mem (at + 16) 8;
  data_size = read mem (at + 32) 8;
  virt_size = read mem (at + 40) 8;
}

unfoldable pub section : Memory → ℕ → SectionHeader
section mem at = record {
  name_offset = read mem at 4;
  sec_type = read mem (at + 4) 4;
  virt_addr = read mem (at + 16) 8;
  file_offset = read mem (at + 24) 8;
}

unfoldable pub rela_at : Memory → ℕ → RelA
rela_at mem at = record {
  addr = read mem at 8;
  info = read mem (at + 8) 8;
  addend = read mem (at + 16) 8;
}

abbrev pub segtype_load : ℕ
segtype_load = 1

abbrev pub segtype_dynamic : ℕ
segtype_dynamic = 2

abbrev pub de_tag_rela : ℕ
de_tag_rela = 7

abbrev pub de_tag_relasz : ℕ
de_tag_relasz = 8

abbrev pub r_relative : ℕ
r_relative = 8

abbrev pub sht_progbits : ℕ
sht_progbits = 1

-- The loop of `get_size` over `left` segment headers from `at` on.
unfoldable pub size_from : Memory → ℕ → ℕ → ℕ → ℕ
unfolding segment
size_from mem zero at size = size
size_from mem (suc left) at size =
    let s = segment mem at in
    let offs = (s.virt_addr + s.virt_size) % 2 ^ 64 in
    size_from mem left (at + 56)
      (if s.seg_type == segtype_load then if ltb size offs then offs else size else size)

unfoldable pub get_size : Memory → ℕ → ℕ
unfolding header size_from
get_size mem image =
    let h = header mem image in size_from mem h.ph_entry_count (image + h.ph_offset) 0

-- `strcmp`, with fuel for the characters it compares.
unfoldable pub strcmp : ℕ → Memory → ℕ → ℕ → Outcome Bool
strcmp zero mem a b = out_of_fuel
strcmp (suc fuel) mem a b =
    let rest = strcmp fuel mem (a + 1) (b + 1) in
    if mem a == mem b then if mem a == 0 then ok true else rest else ok false

-- The loop of `get_text_addr` over `left` sections; `text` is the address of the name to find.
unfoldable pub text_addr_from : ℕ → Memory → ℕ → ℕ → ℕ → ℕ → ℕ → Outcome ℕ
unfolding section strcmp
text_addr_from fuel mem zero at name_table text process = ok 0
text_addr_from fuel mem (suc left) at name_table text process =
    let s = section mem at in
    let rest = text_addr_from fuel mem left (at + 64) name_table text process in
    let named = strcmp fuel mem (name_table + s.name_offset) text >>= λ found.
    if found then ok ((process + s.virt_addr) % 2 ^ 64) else rest in
    if s.sec_type == sht_progbits then named else rest

unfoldable pub get_text_addr : ℕ → Memory → ℕ → ℕ → ℕ → Outcome ℕ
unfolding header section text_addr_from
get_text_addr fuel mem image text process =
    let h = header mem image in
    let names = section mem (image + h.sh_offset + h.name_string_table_index * 64) in
    if ltb h.name_string_table_index h.sh_entry_count
    then text_addr_from fuel mem h.sh_entry_count (image + h.sh_offset) (image + names.file_offset)
        text process
    else panic index_out_of_bounds

-- The branch of `prepare` for a segment that is loaded.
unfoldable pub load : Memory → ℕ → ℕ → SegmentHeader → Memory
load mem image dest s =
    let dst = dest + s.virt_addr in
    let copied = copy mem (image + s.data_offset) dst s.data_size in
    write_bytes copied (dst + s.data_size) 0 ((s.virt_size + 2 ^ 64 - s.data_size) % 2 ^ 64)

-- The entries of the dynamic segment up to the one with tag 0: the address of the relocations and
-- their number.
unfoldable pub dynamic : ℕ → Memory → ℕ → ℕ → ℕ → Outcome (ℕ × ℕ)
dynamic zero mem dyn_entry rela_addr rela_count = out_of_fuel
dynamic (suc fuel) mem dyn_entry rela_addr rela_count =
    let tag = read mem dyn_entry 8 in
    let value = read mem (dyn_entry + 8) 8 in
    let rest =
      dynamic fuel mem (dyn_entry + 16) (if tag == de_tag_rela then value else rela_addr)
        (if tag == de_tag_relasz then value / 24 else rela_count) in
    if tag == 0 then ok (rela_addr, rela_count) else rest

unfoldable pub relocate : ℕ → Memory → ℕ → ℕ → Outcome Memory
unfolding rela_at
relocate zero mem dest rela_entry = ok mem
relocate (suc left) mem dest rela_entry =
    let rela = rela_at mem rela_entry in
    let target = (dest + rela.addr) % 2 ^ 64 in
    let addend = (rela.addend + dest) % 2 ^ 64 in
    if rela.info % 2 ^ 32 == r_relative
    then relocate left (write_u64 mem target addend) dest (rela_entry + 24)
    else panic unsupported_relocation

unfoldable pub prepare_segment : ℕ → Memory → ℕ → ℕ → SegmentHeader → Outcome Memory
unfolding load dynamic relocate
prepare_segment fuel mem image dest s =
    let relocated = dynamic fuel mem (dest + s.virt_addr) 0 0 >>= λ found.
    relocate found.1 mem dest (dest + found.0) in
    if s.seg_type == segtype_load
    then ok (load mem image dest s)
    else if s.seg_type == segtype_dynamic
    then relocated
    else ok mem

-- The loop of `prepare` over `left` segment headers from `at` on.
unfoldable pub prepare_segments : ℕ → ℕ → Memory → ℕ → ℕ → ℕ → Outcome Memory
unfolding prepare_segment segment
prepare_segments fuel zero mem image dest at = ok mem
prepare_segments fuel (suc left) mem image dest at = do
  mem' ← prepare_segment fuel mem image dest (segment mem at)
  prepare_segments fuel left mem' image dest (at + 56)

-- The memory after, and the entry point.
unfoldable pub prepare : ℕ → Memory → ℕ → ℕ → Outcome (Memory × ℕ)
unfolding header prepare_segments
prepare fuel mem image dest = do
  let h = header mem image
  mem' ← prepare_segments fuel h.ph_entry_count mem image dest (image + h.ph_offset)
  ok (mem', (dest + (header mem' image).entry_point) % 2 ^ 64)
