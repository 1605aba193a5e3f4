-- ===== src/Boot/Main/Run.antt =====
-- The whole bootloader on a firmware that works.
use simple_os_rs.Common.{
  ℕ, ◌+◌, ◌-◌, ◌*◌, ◌/◌, ◌%◌, ◌^◌, ◌<◌, ◌≤◌, ◌≡◌, inl, inr, refl, sym, ◌∙◌, false, List, ◌∷◌,
  length, some, arith,
}
use simple_os_rs.Common.Outcome.{Outcome, ok}
use simple_os_rs.Boot.Paging.{Paging, high_mem_base, pml4_entries, ptr_to_kernelspace}
use simple_os_rs.Boot.Paging.Mapping.{Maps, alloc_pages}
use simple_os_rs.Boot.Start.Laws.{Widest}
use simple_os_rs.Boot.Start.{VideoMode}
use simple_os_rs.Boot.Firmware.{
  Firmware, initializing_paging, loading_modules, high_memory_starting_at,
}
use simple_os_rs.Boot.Allocator.{pages_of}
use simple_os_rs.Boot.Files.{FileData}
use simple_os_rs.Boot.Main.Working.{Disk, Owned, Kept, Works}
use simple_os_rs.Virt.Arch
use simple_os_rs.Boot.Paging.Handover.{MapsHigh}
use simple_os_rs.Boot.Main.Handover.{
  Off, Off-at, table_through, info_at, table_stands, image_stands, table_found,
}
use simple_os_rs.Boot.Main.Preparing.{mirror, goto_entrypoint-stack, Prepared, preparing}
use simple_os_rs.Boot.Main.Laws.{start_pages, write_line-returns, Entered, start_kernel-Entered}
use simple_os_rs.Boot.Main.Tables.{
  TableFilled, info_of, init_screen-returns, init_paging-TablesMade,
}
use simple_os_rs.Boot.Main.Loading.{Loadable, KernelLoaded, load_kernel-KernelLoaded}
use simple_os_rs.Boot.Main.{
  KernelHeader, Registers, words_at, goto_entrypoint, header_of, kernel_stack_size,
  kernel_header_size, write_line, init_screen, init_paging, load_kernel, start_kernel, efi_main,
}

-- The pages that the bootloader takes, for a memory map of up to `bytes`, memory up to `top`, a file
-- of `file` bytes and an image of `size`.
abbrev pub boot_pages : ℕ → ℕ → ℕ → ℕ → ℕ
boot_pages bytes top file size =
    1
    + ((bytes + 4095) / 4096 + 1)
    + alloc_pages top
    + pages_of file
    + pages_of size
    + start_pages bytes

module _ (F : Firmware) (bytes top : ℕ) (disk : Disk) (works : Works F bytes top disk) where
  -- From the end of the video mode on: the run of the bootloader, and what the kernel finds.
  pub record Started (fuel text size img : ℕ) (m : F.Machine) : Type 0 where
    pub header_addr : ℕ
    pub mode : VideoMode
    pub with_modes : F.Machine
    pub widest : Widest (F.modes with_modes) mode
    pub frame_buffer : ℕ
    pub with_screen : F.Machine
    pub screen_set : F.set_mode mode with_modes ≡ (some tt, with_screen)
    pub screen_at : frame_buffer ≡ F.frame_buffer with_screen
    pub paging : Paging
    pub maps : (phys : ℕ) → phys ≤ top → Maps paging phys
    pub filesystem : ℕ
    pub m₁ : F.Machine
    pub left : ℕ
    pub blocks : List (ℕ × ℕ)
    pub header_owned : Owned header_addr (pages_of kernel_header_size) blocks
    pub table_owned : Owned paging.cr3 (alloc_pages top) blocks
    pub based : paging.base ≡ high_mem_base (pml4_entries top)
    pub table_aligned : paging.cr3 % 4096 ≡ 0
    pub table_below : paging.cr3 + alloc_pages top * 4096 ≤ top
    pub table_info : paging.paging_info ≡ info_of top paging.cr3
    pub header_off_table :
        Off header_addr (pages_of kernel_header_size) paging.cr3 (alloc_pages top)
    pub kernel :
        KernelLoaded F bytes top disk works fuel text filesystem paging.base size left blocks m₁
    pub entered :
        Entered F bytes top disk works header_addr paging mode frame_buffer
          kernel.accepted.entry_point
          (record { size = disk.size; buffer = kernel.buffer })
          ((kernel.low, pages_of size) ∷ blocks)
          kernel.after
    pub header_off_image : Off header_addr (pages_of kernel_header_size) kernel.low (pages_of size)
    pub table_stays : TableFilled top paging.cr3 (words_at (F.memory entered.after) paging.cr3)
    pub image_stays :
        (a : ℕ)
        → kernel.low ≤ a
        → a < kernel.low + size
        → F.memory entered.after a ≡ kernel.accepted.after (paging.base + a)
    pub maps_high :
        (phys : ℕ)
        → phys ≤ top
        → MapsHigh
            (Arch.init paging.base paging.paging_info
              (words_at (F.memory entered.after) paging.cr3))
            paging.base
            phys
    pub header_below : header_addr + kernel_header_size ≤ top
    pub returns :
        efi_main F fuel false text disk.path img m
        ≡ ok (
          (
            header_of paging mode frame_buffer (paging.base + entered.at) (length entered.entries),
            record {
              rbp = paging.base + (entered.stack + kernel_stack_size);
              rsp = paging.base + (entered.stack + kernel_stack_size);
              rip = kernel.accepted.entry_point;
              rdi = paging.base + header_addr;
            },
          ),
          entered.after,
        )

  -- The run up to the end of `efi_main`.
  efi_main-run :
      (fuel text img k : ℕ) (m m₇ m₈ m₉ m₁₀ m₁₁ m₁₂ : F.Machine)
      (p : Prepared F bytes top disk works k img m) (mode : VideoMode) (frame_buffer : ℕ)
      (paging : Paging) (image : FileData) (process_buffer entry_point : ℕ)
      → init_screen F p.m₆ ≡ ok ((mode, frame_buffer), m₇)
      → write_line F initializing_paging m₇ ≡ ok m₈
      → init_paging F m₈ ≡ ok (paging, m₉)
      → write_line F (high_memory_starting_at (ptr_to_kernelspace paging.base 0)) m₉ ≡ ok m₁₀
      → write_line F loading_modules m₁₀ ≡ ok m₁₁
      → load_kernel F fuel false text p.filesystem paging.base disk.path m₁₁
        ≡ ok ((image, process_buffer, entry_point), m₁₂)
      → efi_main F fuel false text disk.path img m
        ≡ start_kernel F p.header_addr paging (mode, frame_buffer) image entry_point m₁₂
  unfolding efi_main
  efi_main-run fuel text img k m m₇ m₈ m₉ m₁₀ m₁₁ m₁₂ p mode frame_buffer paging image
        process_buffer entry_point e₇ e₈ e₉ e₁₀ e₁₁ e₁₂ =
      rw (p.e₁, p.e₂, p.e₃, p.e₄, p.e₅, p.e₆, e₇, e₈, e₉, e₁₀, e₁₁, e₁₂) refl

  abbrev jumped :
      KernelHeader → Registers → F.Machine → Outcome ((KernelHeader × Registers) × F.Machine)
  jumped kernel_header registers after = ok ((kernel_header, registers), after)

  -- The pointers that the kernel starts with are sums with the base.
  handed_over :
      (at stack header_addr entry_point n frame_buffer : ℕ) (paging : Paging) (mode : VideoMode)
      (after : F.Machine)
      → ((a : ℕ) → a ≤ top → ptr_to_kernelspace paging.base a ≡ paging.base + a)
      → paging.base + top < 2 ^ 64
      → at ≤ top
      → header_addr ≤ top
      → stack + kernel_stack_size ≤ top
      → jumped
          (header_of paging mode frame_buffer (ptr_to_kernelspace paging.base at) n)
          (goto_entrypoint
            (ptr_to_kernelspace paging.base header_addr)
            entry_point
            (ptr_to_kernelspace paging.base stack))
          after
        ≡ jumped
            (header_of paging mode frame_buffer (paging.base + at) n)
            (record {
              rbp = paging.base + (stack + kernel_stack_size);
              rsp = paging.base + (stack + kernel_stack_size);
              rip = entry_point;
              rdi = paging.base + header_addr;
            })
            after
  handed_over at stack header_addr entry_point n frame_buffer paging mode after high below ha hh
        hs =
      let jump =
        goto_entrypoint-stack (paging.base + header_addr) entry_point (paging.base + stack)
          (paging.base + (stack + kernel_stack_size)) (omega arith) (omega arith) in
      rw (high at ha, high header_addr hh, high stack (omega arith), jump) refl

  -- What `efi_main` returns, where its end returns.
  finished :
      (fuel text img header_addr frame_buffer entry_point : ℕ) (m m' : F.Machine) (paging : Paging)
      (mode : VideoMode) (image : FileData) (bs : List (ℕ × ℕ))
      (entered : Entered F bytes top disk works header_addr paging mode frame_buffer entry_point
        image bs m')
      → efi_main F fuel false text disk.path img m
        ≡ start_kernel F header_addr paging (mode, frame_buffer) image entry_point m'
      → ((a : ℕ) → a ≤ top → ptr_to_kernelspace paging.base a ≡ paging.base + a)
      → paging.base + top < 2 ^ 64
      → header_addr ≤ top
      → efi_main F fuel false text disk.path img m
        ≡ jumped
            (header_of paging mode frame_buffer (paging.base + entered.at) (length entered.entries))
            (record {
              rbp = paging.base + (entered.stack + kernel_stack_size);
              rsp = paging.base + (entered.stack + kernel_stack_size);
              rip = entry_point;
              rdi = paging.base + header_addr;
            })
            entered.after
  finished fuel text img header_addr frame_buffer entry_point m m' paging mode image bs entered run
        high below le =
      run
      ∙ entered.returns
      ∙ handed_over entered.at entered.stack header_addr entry_point (length entered.entries)
          frame_buffer paging mode entered.after high below
          (omega (arith, entered.map_fits, entered.map_below)) le entered.stack_below

  -- On a firmware that works, with pages for all that the bootloader takes, memory that ends
  -- below 2^47 and takes a power of two of at most 2^8 PML4 entries, and a kernel file that the
  -- loader accepts, `efi_main` in a build without debug assertions comes to its jump: the widest
  -- suitable video mode is set; the table maps all of memory at its address and at its mirror;
  -- the kernel's image is in pages of its own and its entry point is the one the loader gives;
  -- that image still stands in memory at the jump, and so does the page table, which after the
  -- kernel's `init` maps all of memory at its mirror; `rsp` is the mirror of the end of a stack
  -- of 1 MB, and `rdi` that of the header; the memory map that the header gives lies in the
  -- second half of the pages taken for it and is read back as the one that the firmware gives
  -- when its boot services end.
  pub efi_main-Started :
      (fuel text size img j k : ℕ) (bs : List (ℕ × ℕ)) (m : F.Machine)
      → works.Ready k bs m
      → top < 2 ^ 47
      → j ≤ 8
      → pml4_entries top ≡ 2 ^ j
      → disk.size + 4095 < 2 ^ 64
      → size + 4095 < 2 ^ 64
      → Loadable fuel size disk
      → boot_pages bytes top disk.size size ≤ k
      → Started fuel text size img m
  efi_main-Started fuel text size img j k bs m ready small le power file_small size_small loadable
        enough =
      let p = preparing F bytes top disk works k img bs m ready (omega arith) in
      let (mode, frame_buffer, m₇, e₇, widest, set, shown, ready₇) =
        init_screen-returns F bytes top disk works (k - 1) p.blocks p.m₆ p.ready in
      let (m₈, e₈, ready₈, kept₈) =
        write_line-returns F bytes top disk works (k - 1) p.blocks initializing_paging m₇ ready₇ in
      let t =
        init_paging-TablesMade F bytes top disk works (k - 1) p.blocks m₈ small ready₈
          (omega arith) in
      let b = t.paging.base in
      let blocks = (t.ptr, alloc_pages top) ∷ p.blocks in
      let (m₁₀, e₁₀, ready₁₀, kept₁₀) =
        write_line-returns F bytes top disk works t.left blocks
          (high_memory_starting_at (ptr_to_kernelspace b 0)) t.after t.ready in
      let (m₁₁, e₁₁, ready₁₁, kept₁₁) =
        write_line-returns F bytes top disk works t.left blocks loading_modules m₁₀ ready₁₀ in
      let (above, below, high) = mirror top j b small le power t.base in
      let left = t.enough in
      let kernel =
        load_kernel-KernelLoaded F bytes top disk works fuel text p.filesystem b size t.left blocks
          m₁₁ ready₁₁ file_small size_small (omega (arith, left)) above high loadable in
      let rest = (kernel.low, pages_of size) ∷ blocks in
      let ready₁₂ =
        works.swaps (t.left - pages_of disk.size - pages_of size) (kernel.low, pages_of size)
          (kernel.buffer, pages_of disk.size) blocks kernel.after kernel.ready in
      let entered =
        start_kernel-Entered F bytes top disk works p.header_addr t.paging mode frame_buffer
          kernel.accepted.entry_point (t.left - pages_of disk.size - pages_of size) rest
          (record { size = disk.size; buffer = kernel.buffer }) kernel.after ready₁₂
          (omega (arith, left)) in
      let kept : Kept blocks (F.memory t.after) (F.memory entered.after) =
        table_through blocks (kernel.low, pages_of size) (F.memory t.after) (F.memory m₁₀)
          (F.memory m₁₁) (F.memory kernel.after) (F.memory entered.after) kept₁₀ kept₁₁ kernel.kept
          entered.kept in
      let found =
        table_found p.blocks top t.ptr j t.paging (F.memory t.after) (F.memory entered.after) small
          le power t.aligned t.below t.base t.info t.cr3 kept t.filled in
      record {
        header_addr = p.header_addr;
        mode = mode;
        with_modes = p.m₆;
        widest = widest;
        frame_buffer = frame_buffer;
        with_screen = m₇;
        screen_set = set;
        screen_at = shown;
        paging = t.paging;
        maps = t.maps;
        filesystem = p.filesystem;
        m₁ = m₁₁;
        left = t.left;
        blocks = blocks;
        header_owned = inr p.header_owned;
        table_owned = inl (sym t.cr3, refl);
        based = t.base;
        table_below = omega (arith, t.cr3, t.below);
        table_aligned = omega (arith, t.cr3, t.aligned);
        table_info = info_at top t.ptr t.paging t.info t.cr3;
        header_off_table =
            Off-at p.header_addr (pages_of kernel_header_size) t.ptr t.paging.cr3 (alloc_pages top)
              t.cr3
              (λ a lo hi.
                works.disjoint t.left t.ptr (alloc_pages top) p.header_addr
                  (pages_of kernel_header_size) a p.blocks t.after t.ready p.header_owned lo hi);
        header_off_image = λ a lo hi.
            works.disjoint (t.left - pages_of disk.size - pages_of size) kernel.low (pages_of size)
              p.header_addr (pages_of kernel_header_size) a
              ((kernel.buffer, pages_of disk.size) ∷ blocks) kernel.after kernel.ready
              (inr (inr p.header_owned)) lo hi;
        table_stays =
            table_stands p.blocks top t.ptr t.paging.cr3 (F.memory t.after) (F.memory entered.after)
              small t.below t.cr3 kept t.filled;
        kernel = kernel;
        entered = entered;
        image_stays =
            image_stands blocks kernel.low b size kernel.accepted.after (F.memory kernel.after)
              (F.memory entered.after) size_small entered.kept kernel.placed;
        maps_high = found;
        header_below = p.below;
        returns =
            finished fuel text img p.header_addr frame_buffer kernel.accepted.entry_point m
              kernel.after t.paging mode (record { size = disk.size; buffer = kernel.buffer }) rest
              entered
              (efi_main-run fuel text img k m m₇ m₈ t.after m₁₀ m₁₁ kernel.after p mode frame_buffer
                t.paging (record { size = disk.size; buffer = kernel.buffer }) (b + kernel.low)
                kernel.accepted.entry_point e₇ e₈ t.returns e₁₀ e₁₁ kernel.returns)
              high below (omega (arith, p.below));
      }
