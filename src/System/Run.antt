-- ===== src/System/Run.antt =====
-- From `efi_main` of the bootloader to `init_platform` of the kernel.
use simple_os_rs.Common.{ℕ, ◌+◌, ◌*◌, ◌/◌, ◌^◌, ◌<◌, ◌≤◌, ◌≡◌, false, true, List, ◌∷◌, some}
use simple_os_rs.Common.Outcome.{Outcome, ok}
use simple_os_rs.Terminal.{Info, Glyph}
use simple_os_rs.Virt.Arch
use simple_os_rs.Phys.Inline.{IsHighBase, inline_storage}
use simple_os_rs.Phys.Init.{MemorySegment}
use simple_os_rs.Phys.Init.Laws.{Constructed}
use simple_os_rs.Boot.Elf.Bytes.{Memory}
use simple_os_rs.Boot.Elf.{prepare}
use simple_os_rs.Boot.Paging.Mapping.{Maps, alloc_pages}
use simple_os_rs.Boot.Paging.Handover.{MapsHigh}
use simple_os_rs.Boot.Allocator.{pages_of}
use simple_os_rs.Boot.Start.{VideoMode, screen_of}
use simple_os_rs.Boot.Start.Laws.{Member, Suitable}
use simple_os_rs.Boot.Firmware.{Firmware}
use simple_os_rs.Boot.Main
use simple_os_rs.Boot.Main.{words_at, kernel_header_size, kernel_stack_size}
use simple_os_rs.Boot.Main.Working.{Disk, Holds, Works}
use simple_os_rs.Boot.Main.Run.{Started}
use simple_os_rs.Kernel
use simple_os_rs.Kernel.Laws.{Ready, Usable}
use simple_os_rs.System.Reserved.{Reserved}
use simple_os_rs.System.Stands.{final, Stands}
use simple_os_rs.System.Laws.{platform_on}
use simple_os_rs.System.{Setting, boot}

module _ (F : Firmware) (bytes top : ℕ) (disk : Disk) (works : Works F bytes top disk)
    (set : Setting) (space : (g : Glyph) × (set.get 32 ≡ some g)) where
  -- Every suitable mode is one on which the terminal works.
  abbrev pub ShowsText : Type 0
  ShowsText =
      (m : F.Machine) (v : VideoMode) (pixels : ℕ → ℕ)
      → Member v (F.modes m)
      → Suitable v
      → Usable (screen_of v pixels)

  -- The framebuffer lies in the memory that the memory map covers, and so the page table.
  abbrev pub ScreenBelow : Type 0
  ScreenBelow =
      (m m' : F.Machine) (v : VideoMode)
      → Member v (F.modes m)
      → F.set_mode v m ≡ (some tt, m')
      → F.frame_buffer m' + v.stride * v.height * 4 ≤ top

  -- Wherever the loader places the kernel's file, the code at the entry point that it gives is that
  -- of `_start` as long as the image stands.
  abbrev pub EntersStart : ℕ → ℕ → Type 0
  EntersStart fuel size =
      (mem after seen : Memory) (image dest entry_point : ℕ)
      → Holds mem image disk.size disk.content
      → image + disk.size ≤ dest
      → dest + size < 2 ^ 64
      → prepare fuel mem image dest ≡ ok (after, entry_point)
      → ((a : ℕ) → dest ≤ a → a < dest + size → seen a ≡ after a)
      → set.is_start seen entry_point ≡ true

  -- The bootloader jumps to `_start`, and the kernel comes to `init_platform` on a storage at the bootloader's
  -- base. None of the pages that hold the header, the image, the tables, the stack and the memory
  -- map are among the free ones.
  pub record Handed (fuel text size img : ℕ) (m : F.Machine) : Type 0 where
    pub started : Started F bytes top disk works fuel text size img m
    pub high : IsHighBase started.paging.base (top / 4096)
    pub first : MemorySegment
    pub others : List MemorySegment
    pub info : Info
    pub ready : Ready info
    pub manager :
        Constructed (inline_storage started.paging.base (top / 4096) high) set.mem first others
    pub stands : Stands F bytes top disk works fuel text size img m started
    pub runs :
        boot F fuel false text disk.path img set
          (inline_storage started.paging.base (top / 4096) high)
          m
        ≡ platform_on set space
            (inline_storage started.paging.base (top / 4096) high)
            info
            started.paging.paging_info
            first
            others
            manager
            started.paging.base
            (words_at
              (final F bytes top disk works fuel text size img m started)
              started.paging.cr3)
    pub screen_mapped :
        (i : ℕ)
        → i < started.mode.stride * started.mode.height * 4
        → Maps started.paging (started.frame_buffer + i)
          × MapsHigh
              (Arch.init started.paging.base started.paging.paging_info (
                words_at
                  (final F bytes top disk works fuel text size img m started)
                  started.paging.cr3))
              started.paging.base
              (started.frame_buffer + i)
    pub header_reserved :
        Reserved started.header_addr (pages_of kernel_header_size) (first ∷ others)
    pub image_reserved : Reserved started.kernel.low (pages_of size) (first ∷ others)
    pub table_reserved : Reserved started.paging.cr3 (alloc_pages top) (first ∷ others)
    pub stack_reserved :
        Reserved started.entered.stack (pages_of kernel_stack_size) (first ∷ others)
    pub map_reserved : Reserved started.entered.buffer (started.entered.pages * 2) (first ∷ others)
