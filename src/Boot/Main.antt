-- ===== src/Boot/Main.antt =====
-- The whole of `efi_main` in bootloader/src/main.rs over the firmware, the outer `init` of
-- bootloader/src/paging.rs and `goto_entrypoint` of bootloader/src/platform.rs. What `paging` itself
-- prints is left out. The object `kernel_header` is written until the kernel starts; its fields stand
-- in a record at that point. `text` is the address of the name `.text`.
pub mod Working
pub mod Words
pub mod Laws
pub mod Tables
pub mod Reading
pub mod Loading
pub mod Preparing
pub mod Handover
pub mod PlainFile
pub mod Run
pub mod Tests
use simple_os_rs.Common.{
  ℕ, ◌+◌, ◌-◌, ◌*◌, ◌/◌, ◌%◌, ◌^◌, Bool, true, false, List, [], ◌∷◌, map, length, Option, none,
  some, leb, ltb, if◌then◌else◌,
}
use simple_os_rs.Common.Outcome.{
  Fault, Outcome, ok, panic, assertion_failed, memory_map_grew, ◌>>=◌,
}
use simple_os_rs.Terminal.{Format}
use simple_os_rs.Boot.Elf.Bytes.{Memory, read, in_range, write_u64}
use simple_os_rs.Boot.Elf.{get_size, get_text_addr, prepare}
use simple_os_rs.Boot.Paging.{
  Buffer, Descriptor, Paging, PagingInfo, init_from_map, physical_size, ptr_to_kernelspace, assert,
  pml4_entries, pdp_entries, pd_entries, pages_for,
}
use simple_os_rs.Boot.Start.{
  VideoMode, MemoryDescriptor, loader_data, best_from, screen_format, memory_map,
}
use simple_os_rs.Boot.Start.Laws.{descriptor_of}
use simple_os_rs.Boot.Firmware.{
  Firmware, Message, any_pages, address, expect, initializing_bootloader, switching_video_mode,
  initializing_paging, loading_modules, preparing_kernel, starting_kernel, high_memory_starting_at,
  kernel_size, kernel_at,
}
use simple_os_rs.Boot.Allocator.{allocate, allocate_object, free}
use simple_os_rs.Boot.Files.{FileData, read_file}
use simple_os_rs.Boot.Segments.{write_segments}

abbrev pub kernel_stack_size : ℕ
kernel_stack_size = 1024 * 1024

pub record KernelHeader : Type 0 where
  pub screen_buffer : ℕ
  pub screen_width : ℕ
  pub screen_height : ℕ
  pub screen_scanline_width : ℕ
  pub screen_format : Format
  pub paging_info : PagingInfo
  pub memory_map : ℕ
  pub memory_map_entries : ℕ
  pub high_memory_base : ℕ

-- The registers with which the kernel starts.
pub record Registers : Type 0 where
  pub rbp : ℕ
  pub rsp : ℕ
  pub rip : ℕ
  pub rdi : ℕ

-- `kernel_stack` is the beginning of the buffer.
unfoldable pub goto_entrypoint : ℕ → ℕ → ℕ → Registers
goto_entrypoint kernel_header entry_point kernel_stack =
    let top = (kernel_stack + kernel_stack_size) % 2 ^ 64 in
    record { rbp = top; rsp = top; rip = entry_point; rdi = kernel_header }

-- The words of the pages at `ptr`, and the bytes of words that are put there.
abbrev pub words_at : Memory → ℕ → Buffer
words_at mem ptr i = read mem (ptr + 8 * i) 8

abbrev pub put_words : Memory → ℕ → ℕ → Buffer → Memory
put_words mem ptr size buffer a =
    if in_range a ptr size then buffer ((a - ptr) / 8) / 256 ^ ((a - ptr) % 8) % 256 else mem a

-- Memory as the processor sees it under the table: the mirror from `base` on, and below it the
-- identity.
abbrev pub through : ℕ → Memory → Memory
through base mem a = if leb base a then mem (a - base) else mem a

-- Memory after writes through the mirror.
abbrev pub behind : ℕ → Memory → Memory
behind base seen a = seen (base + a)

-- The size of `KernelHeader` in bytes.
abbrev pub kernel_header_size : ℕ
kernel_header_size = 80

-- The fields of `kernel_header` when the kernel starts.
unfoldable pub header_of : Paging → VideoMode → ℕ → ℕ → ℕ → KernelHeader
unfolding ptr_to_kernelspace
header_of paging mode frame_buffer memory_map memory_map_entries = record {
  screen_buffer = ptr_to_kernelspace paging.base frame_buffer;
  screen_width = mode.width % 2 ^ 32;
  screen_height = mode.height % 2 ^ 32;
  screen_scanline_width = mode.stride % 2 ^ 32;
  screen_format = screen_format mode.pixel_format;
  paging_info = paging.paging_info;
  memory_map = memory_map;
  memory_map_entries = memory_map_entries;
  high_memory_base = ptr_to_kernelspace paging.base 0;
}

module _ (F : Firmware) where
  -- `write!(..).unwrap()`
  unfoldable pub write_line : Message → F.Machine → Outcome F.Machine
  write_line message m = do (_, m') ← expect (F.write message m); ok m'

  -- The buffer for the memory map and the number of its pages, which are taken `factor` times; the
  -- panic is the one for a map that has grown.
  unfoldable pub map_buffer : Fault → ℕ → F.Machine → Outcome ((ℕ × ℕ) × F.Machine)
  map_buffer grown factor m =
      let mmap_pages = (F.memory_map_size m + 4095) / 4096 + 1 in
      do
        (mmap_buffer, m₁) ← expect (F.allocate_pages any_pages loader_data (mmap_pages * factor) m)
        if ltb mmap_pages ((F.memory_map_size m₁ + 4095) / 4096)
            then panic grown
            else ok ((mmap_buffer, mmap_pages), m₁)

  -- The pages of the page table with what they hold.
  abbrev table_pages : Option ℕ × F.Machine → Option (ℕ × Buffer)
  table_pages (none, m) = none
  table_pages (some ptr, m) = some (ptr, words_at (F.memory m) ptr)

  unfoldable pub init_paging : F.Machine → Outcome (Paging × F.Machine)
  unfolding map_buffer init_from_map
  init_paging m = do
    ((mmap_buffer, mmap_pages), m₁) ← map_buffer assertion_failed 1 m
    (mmap, m₂) ← expect (F.memory_map mmap_buffer (mmap_pages * 4096) m₁)
    paging ←
        init_from_map (λ n. table_pages (F.allocate_pages any_pages loader_data n m₂))
          (map descriptor_of mmap)
    let n = paging.paging_info.pdp_pages + paging.paging_info.pd_pages + 1
    let m₃ = (F.allocate_pages any_pages loader_data n m₂).1
    let filled = put_words (F.memory m₃) paging.cr3 (n * 4096) paging.table
    (_, m₄) ←
        expect (F.free_pages mmap_buffer mmap_pages (F.load_cr3 paging.cr3 (F.store filled m₃)))
    ok (paging, m₄)

  -- The video mode that is set, and the address of the framebuffer.
  unfoldable pub init_screen : F.Machine → Outcome ((VideoMode × ℕ) × F.Machine)
  unfolding best_from
  init_screen m = do
    (mode, m₁) ← expect (best_from 0 none (F.modes m), m)
    (_, m₂) ← expect (F.set_mode mode m₁)
    ok ((mode, F.frame_buffer m₂), m₂)

  -- The page at 0x1000, which the debugger reads.
  unfoldable pub debug_data : ℕ → Bool → ℕ → ℕ → ℕ → ℕ → F.Machine → Outcome F.Machine
  unfolding get_text_addr
  debug_data fuel false text base image process_buffer m = ok m
  debug_data fuel true text base image process_buffer m = do
    (page, m₁) ← expect (F.allocate_pages (address 0x1000) loader_data 1 m)
    text_addr ← get_text_addr fuel (through base (F.memory m₁)) image text process_buffer
    ok (F.store (write_u64 (F.memory m₁) page text_addr) m₁)

  -- From the file of the kernel to the prepared image: the file, the buffer and the entry point.
  -- `debug` is whether the bootloader is built with debug assertions.
  unfoldable pub load_kernel :
      ℕ → Bool → ℕ → ℕ → ℕ → List ℕ → F.Machine → Outcome ((FileData × ℕ × ℕ) × F.Machine)
  unfolding write_line read_file allocate ptr_to_kernelspace get_size prepare debug_data
  load_kernel fuel debug text filesystem base path m = do
    (image, m₁) ← read_file F filesystem path m
    let size = get_size (through base (F.memory m₁)) image.buffer
    m₂ ← write_line (kernel_size size) m₁
    m₃ ← write_line preparing_kernel m₂
    (low, m₄) ← allocate F size loader_data m₃
    let process_buffer = ptr_to_kernelspace base low
    (seen, entry_point) ← prepare fuel (through base (F.memory m₄)) image.buffer process_buffer
    m₅ ← write_line (kernel_at process_buffer entry_point) (F.store (behind base seen) m₄)
    m₆ ← debug_data fuel debug text base image.buffer process_buffer m₅
    ok ((image, process_buffer, entry_point), m₆)

  -- The end of `efi_main`: from the raw image, which is no longer needed, to the jump.
  unfoldable pub start_kernel :
      ℕ
      → Paging
      → VideoMode × ℕ
      → FileData
      → ℕ
      → F.Machine
      → Outcome ((KernelHeader × Registers) × F.Machine)
  unfolding header_of write_line map_buffer free allocate ptr_to_kernelspace write_segments
      goto_entrypoint
  start_kernel header_addr paging (mode, frame_buffer) image entry_point m = do
    m₁ ← free F image.buffer image.size m
    (kernel_stack, m₂) ← allocate F kernel_stack_size loader_data m₁
    m₃ ← write_line starting_kernel m₂
    ((mmap_buffer, mmap_pages), m₄) ← map_buffer memory_map_grew 2 m₃
    (entries, m₅) ← expect (F.exit_boot_services mmap_buffer (mmap_pages * 4096) m₄)
    let high = ptr_to_kernelspace paging.base
    let at = mmap_buffer + mmap_pages * 4096
    let m₆ = F.store (write_segments (F.memory m₅) at (memory_map entries)) m₅
    let kernel_header = header_of paging mode frame_buffer (high at) (length entries)
    ok ((kernel_header, goto_entrypoint (high header_addr) entry_point (high kernel_stack)), m₆)

  -- `path` is that of the kernel's file.
  unfoldable pub efi_main :
      ℕ → Bool → ℕ → List ℕ → ℕ → F.Machine → Outcome ((KernelHeader × Registers) × F.Machine)
  unfolding write_line allocate_object init_screen init_paging load_kernel start_kernel
      ptr_to_kernelspace
  efi_main fuel debug text path img_handle m = do
    m₁ ← write_line initializing_bootloader (F.reset m)
    (device, m₂) ← expect (F.loaded_image_device img_handle m₁)
    (filesystem, m₃) ← expect (F.file_system device m₂)
    (gfx, m₄) ← expect (F.graphics m₃)
    (header_addr, m₅) ← allocate_object F kernel_header_size loader_data m₄
    m₆ ← write_line switching_video_mode m₅
    (video, m₇) ← init_screen m₆
    m₈ ← write_line initializing_paging m₇
    (paging, m₉) ← init_paging m₈
    m₁₀ ← write_line (high_memory_starting_at (ptr_to_kernelspace paging.base 0)) m₉
    m₁₁ ← write_line loading_modules m₁₀
    ((image, process_buffer, entry_point), m₁₂) ←
        load_kernel fuel debug text filesystem paging.base path m₁₁
    start_kernel header_addr paging video image entry_point m₁₂
