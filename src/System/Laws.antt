-- ===== src/System/Laws.antt =====
-- The kernel on the machine that the bootloader leaves.
use simple_os_rs.Common.{ℕ, ◌+◌, ◌*◌, ◌%◌, ◌≤◌, ◌≡◌, ap, ap₂, ◌∙◌, List, ◌∷◌, some}
use simple_os_rs.Common.Outcome.{Outcome, ok, ◌>>=◌}
use simple_os_rs.Terminal.{Info, Screen, Glyph}
use simple_os_rs.Virt.{phys_to_virt}
use simple_os_rs.Virt.Arch
use simple_os_rs.Phys.Storage.{PhysManagerStorage}
use simple_os_rs.Phys.Init.{MemorySegment, num_entries, num_storage_pages}
use simple_os_rs.Phys.Init.Segments.{Separate, Roomy}
use simple_os_rs.Phys.Init.Laws.{NoWrap, num_pages, Constructed}
use simple_os_rs.Boot.Elf.Bytes.{Memory}
use simple_os_rs.Boot.Paging.{Buffer, PagingInfo}
use simple_os_rs.Boot.Segments.{segments_at}
use simple_os_rs.Boot.Main
use simple_os_rs.Boot.Main.{words_at, through}
use simple_os_rs.Kernel
use simple_os_rs.Kernel.{init_platform, main}
use simple_os_rs.Kernel.Laws.{Ready, Usable, AllLines, main-Booted}
use simple_os_rs.System.Mirror.{segments_at-mirror, words_at-mirror}
use simple_os_rs.System.Header.{header_from, header_at}
use simple_os_rs.System.{Setting, read_header, machine_at, _start}

-- The screen that the kernel reads in the header.
abbrev pub shown : Memory → Main.KernelHeader → Screen
shown seen kh = record {
  screen_buffer = λ i. seen (kh.screen_buffer + i);
  screen_width = kh.screen_width;
  screen_height = kh.screen_height;
  screen_scanline_width = kh.screen_scanline_width;
  screen_format = kh.screen_format;
}

module _ (set : Setting) (space : (g : Glyph) × (set.get 32 ≡ some g))
    (storage : PhysManagerStorage) where
  -- What is left of `main` at `init_platform`.
  abbrev pub platform_on :
      Info
      → PagingInfo
      → (e : MemorySegment) (es : List MemorySegment) → Constructed storage set.mem e es
      → ℕ
      → Buffer
      → Outcome Kernel.Kernel
  platform_on info paging_info e es c base pml4 =
      init_platform storage base set.stub set.before c.manager (phys_to_virt base c.placed.addr)
      >>= λ platform. ok (record {
        info = info;
        high_mem_base = base;
        active = Arch.init base paging_info pml4;
        platform = platform;
      })

  -- The rest of `_start` after the header is read.
  abbrev started : Memory → Main.KernelHeader → Outcome Kernel.Kernel
  started seen kh =
      main set.get storage set.stub (machine_at seen set.mem set.before kh.paging_info)
        set.greetings (read_header seen kh)

  -- `_start` comes to `init_platform`, with the terminal and the manager set up and with the page
  -- table that stands in memory at `cr3`.
  pub record Launched (memory : Memory) (kh : Main.KernelHeader) (base ptr cr3 : ℕ)
      (e : MemorySegment) (es : List MemorySegment) : Type 0 where
    pub info : Info
    pub ready : Ready info
    pub manager : Constructed storage set.mem e es
    pub runs :
        _start set storage (through base memory) (base + ptr)
        ≡ platform_on info kh.paging_info e es manager base (words_at memory cr3)

  -- For the header that stands in memory at `ptr`.
  pub _start-Launched :
      (memory : Memory) (kh : Main.KernelHeader) (base ptr at cr3 : ℕ) (e : MemorySegment)
      (es : List MemorySegment)
      → header_at memory ptr ≡ kh
      → kh.high_memory_base ≡ base
      → kh.memory_map ≡ base + at
      → segments_at memory at kh.memory_map_entries ≡ e ∷ es
      → kh.paging_info.page_buffer ≡ base + cr3
      → Usable (shown (through base memory) kh)
      → AllLines set.greetings
      → NoWrap (e ∷ es)
      → Separate (e ∷ es)
      → Roomy (num_storage_pages (num_pages e es)) (e ∷ es)
      → 64 * num_entries (num_pages e es) ≤ storage.limit
      → 64 * num_entries (num_pages e es) % 256 ≡ 0
      → Launched memory kh base ptr cr3 e es
  unfolding _start read_header header_at
  _start-Launched memory kh base ptr at cr3 e es header hb hm map hp usable lines wrap sep room fits
        whole =
      let seen = through base memory in
      let found : header_from (words_at seen (base + ptr)) ≡ kh =
        ap (λ (w : Buffer). header_from w) (words_at-mirror base memory ptr) ∙ header in
      let read : segments_at seen kh.memory_map kh.memory_map_entries ≡ e ∷ es =
        ap (λ x. segments_at seen x kh.memory_map_entries) hm
        ∙ segments_at-mirror base memory at kh.memory_map_entries
        ∙ map in
      let words : words_at seen kh.paging_info.page_buffer ≡ words_at memory cr3 =
        ap (λ x. words_at seen x) hp ∙ words_at-mirror base memory cr3 in
      let booted =
        main-Booted set.get storage set.stub space
          (machine_at seen set.mem set.before kh.paging_info) set.greetings (read_header seen kh) e
          es read usable lines wrap sep room fits whole in
      record {
        info = booted.info;
        ready = booted.ready;
        manager = booted.manager;
        runs =
            ap (started seen) found
            ∙ booted.runs
            ∙ ap₂ (platform_on booted.info kh.paging_info e es booted.manager) hb words;
      }
