-- ===== src/System.antt =====
-- The bootloader and the kernel together: the jump at the end of `efi_main` in bootloader/src/main.rs,
-- `_start` in kernel/src/main.rs, and what the kernel reads: its header at `rdi`,
-- and what the pointers in it lead to. The code at `rip` is machine code; whether it is that of `_start`
-- is a parameter, which reads memory.
pub mod Header
pub mod Mirror
pub mod Reserved
pub mod Laws
pub mod Stands
pub mod Run
pub mod Tests
use simple_os_rs.Common.{ℕ, ◌+◌, ◌-◌, Bool, List, if◌then◌else◌}
use simple_os_rs.Common.Outcome.{Outcome, panic, wrong_entry, ◌>>=◌}
use simple_os_rs.Terminal.{Glyph}
use simple_os_rs.Phys.Storage.{PhysManagerStorage}
use simple_os_rs.Phys.FreeList.{Mem}
use simple_os_rs.Gdt.{Tables}
use simple_os_rs.Boot.Elf.Bytes.{Memory}
use simple_os_rs.Boot.Segments.{segments_at}
use simple_os_rs.Boot.Firmware.{Firmware}
use simple_os_rs.Boot.Main.{Registers, words_at, through, efi_main}
use simple_os_rs.System.Header.{header_at, write_header}
use simple_os_rs.Boot.Main
use simple_os_rs.Boot.Paging.{PagingInfo}
use simple_os_rs.Kernel
use simple_os_rs.Kernel.{Machine, main}
use simple_os_rs.Common.{Option}

-- The slice of the memory map, and the bytes of the framebuffer.
unfoldable pub read_header : Memory → Main.KernelHeader → Kernel.KernelHeader
unfolding segments_at
read_header seen kh = record {
  screen = record {
    screen_buffer = λ i. seen (kh.screen_buffer + i);
    screen_width = kh.screen_width;
    screen_height = kh.screen_height;
    screen_scanline_width = kh.screen_scanline_width;
    screen_format = kh.screen_format;
  };
  paging_info = kh.paging_info;
  memory_map = segments_at seen kh.memory_map kh.memory_map_entries;
  high_memory_base = kh.high_memory_base;
}

-- The words behind `page_buffer`. `mem` and `before` are what memory holds where the kernel reads
-- its own structures.
abbrev pub machine_at : Memory → Mem → Tables → PagingInfo → Machine
machine_at seen mem before paging_info = record {
  mem = mem;
  before = before;
  pml4 = words_at seen paging_info.page_buffer;
}

-- What the kernel is given besides the machine: its fonts, the stubs of its interrupts, its greetings,
-- and what memory shows as its structures. `is_start` tells of an address whether the code there is
-- that of `_start`.
pub record Setting : Type 0 where
  pub get : ℕ → Option Glyph
  pub stub : ℕ → ℕ
  pub greetings : List (List (List ℕ))
  pub is_start : Memory → ℕ → Bool
  pub mem : Mem
  pub before : Tables

-- `_start`, with the pointer to the header.
unfoldable pub _start : Setting → PhysManagerStorage → Memory → ℕ → Outcome Kernel.Kernel
unfolding header_at read_header main
_start set storage seen kernel_header =
    let kh = header_at seen kernel_header in
    main set.get storage set.stub (machine_at seen set.mem set.before kh.paging_info) set.greetings
      (read_header seen kh)

-- The processor at `rip`, with memory under the bootloader's table.
unfoldable pub jump : Setting → PhysManagerStorage → Memory → Registers → Outcome Kernel.Kernel
jump set storage seen registers =
    if set.is_start seen registers.rip
    then _start set storage seen registers.rdi
    else panic wrong_entry

-- Memory with the object `kernel_header`, which the bootloader writes through the mirror.
abbrev pub with_header : Memory → Main.KernelHeader → Registers → Memory
with_header memory kh registers = write_header memory (registers.rdi - kh.high_memory_base) kh

module _ (F : Firmware) where
  -- The bootloader, and the kernel after its jump.
  unfoldable pub boot :
      ℕ → Bool → ℕ → List ℕ → ℕ → Setting → PhysManagerStorage → F.Machine → Outcome Kernel.Kernel
  boot fuel debug text path img_handle set storage m = do
    ((kernel_header, registers), after) ← efi_main F fuel debug text path img_handle m
    let memory = with_header (F.memory after) kernel_header registers
    jump set storage (through kernel_header.high_memory_base memory) registers
