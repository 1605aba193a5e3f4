-- ===== src/Boot/Main/Preparing.antt =====
-- The beginning of the bootloader on a firmware that works, and the pointers that it hands over.
use simple_os_rs.Common.{
  ℕ, ◌+◌, ◌-◌, ◌%◌, ◌^◌, ◌<◌, ◌≤◌, ◌≡◌, inl, refl, sym, ap, ◌∙◌, List, ◌∷◌, some, arith,
}
use simple_os_rs.Common.Outcome.{ok}
use simple_os_rs.Boot.Paging.{high_mem_base, pml4_entries, ptr_to_kernelspace}
use simple_os_rs.Boot.Paging.Mapping.{base-sum}
use simple_os_rs.Boot.Paging.Mirror.{ptr_to_kernelspace-add}
use simple_os_rs.Boot.Start.{loader_data}
use simple_os_rs.Boot.Firmware.{Firmware, initializing_bootloader, switching_video_mode}
use simple_os_rs.Boot.Allocator.{pages_of, allocate_object}
use simple_os_rs.Boot.Main.Working.{Disk, Owned, Works}
use simple_os_rs.Boot.Main.Laws.{allocate-Allocated, write_line-returns}
use simple_os_rs.Boot.Main.{goto_entrypoint, kernel_stack_size, kernel_header_size, write_line}

-- The base lies above memory, and the mirror of an address is its sum with the base.
pub mirror :
    (top j base : ℕ)
    → top < 2 ^ 47
    → j ≤ 8
    → pml4_entries top ≡ 2 ^ j
    → base ≡ high_mem_base (pml4_entries top)
    → (top ≤ base)
      × (base + top < 2 ^ 64)
      × ((a : ℕ) → a ≤ top → ptr_to_kernelspace base a ≡ base + a)
mirror top j base small le power e =
    let sum = base-sum (pml4_entries top) (omega arith) (omega arith) in
    let add : (a : ℕ) → a ≤ top → ptr_to_kernelspace base a ≡ base + a = λ a h.
      ap (λ (b : ℕ). ptr_to_kernelspace b a) e
      ∙ (ptr_to_kernelspace-add top j a small le power h).1
      ∙ ap (λ (b : ℕ). b + a) (sym e) in
    (omega (arith, e, sum), omega (arith, e, sum), add)

-- The registers on top of the stack.
pub goto_entrypoint-stack :
    (rdi entry_point stack top : ℕ)
    → stack + kernel_stack_size ≡ top
    → top < 2 ^ 64
    → goto_entrypoint rdi entry_point stack
      ≡ record { rbp = top; rsp = top; rip = entry_point; rdi = rdi }
unfolding goto_entrypoint
goto_entrypoint-stack rdi entry_point stack top sum lt =
    let wrapped : (stack + kernel_stack_size) % 2 ^ 64 ≡ top = omega arith in rw wrapped refl

module _ (F : Firmware) (bytes top : ℕ) (disk : Disk) (works : Works F bytes top disk) where
  -- The calls up to the choice of the video mode.
  pub record Prepared (k img : ℕ) (m : F.Machine) : Type 0 where
    pub device : ℕ
    pub filesystem : ℕ
    pub gfx : ℕ
    pub header_addr : ℕ
    pub m₁ : F.Machine
    pub m₂ : F.Machine
    pub m₃ : F.Machine
    pub m₄ : F.Machine
    pub m₅ : F.Machine
    pub m₆ : F.Machine
    pub e₁ : write_line F initializing_bootloader (F.reset m) ≡ ok m₁
    pub e₂ : F.loaded_image_device img m₁ ≡ (some device, m₂)
    pub e₃ : F.file_system device m₂ ≡ (some filesystem, m₃)
    pub e₄ : F.graphics m₃ ≡ (some gfx, m₄)
    pub e₅ : allocate_object F kernel_header_size loader_data m₄ ≡ ok (header_addr, m₅)
    pub e₆ : write_line F switching_video_mode m₅ ≡ ok m₆
    pub below : header_addr + kernel_header_size ≤ top
    pub blocks : List (ℕ × ℕ)
    pub header_owned : Owned header_addr (pages_of kernel_header_size) blocks
    pub ready : works.Ready (k - 1) blocks m₆

  pub preparing :
      (k img : ℕ) (bs : List (ℕ × ℕ)) (m : F.Machine)
      → works.Ready k bs m
      → 1 ≤ k
      → Prepared k img m
  unfolding allocate_object
  preparing k img bs m ready enough =
      let (m₁, e₁, ready₁, kept₁) =
        write_line-returns F bytes top disk works k bs initializing_bootloader (F.reset m)
          (works.resets k bs m ready) in
      let (device, m₂, e₂, ready₂) = works.devices k img bs m₁ ready₁ in
      let (filesystem, m₃, e₃, ready₃) = works.file_systems k device bs m₂ ready₂ in
      let (gfx, m₄, e₄, ready₄) = works.screens k bs m₃ ready₃ in
      let header =
        allocate-Allocated F bytes top disk works k kernel_header_size bs m₄ ready₄ (omega arith) in
      let blocks = (header.ptr, pages_of kernel_header_size) ∷ bs in
      let (m₆, e₆, ready₆, kept₆) =
        write_line-returns F bytes top disk works (k - 1) blocks switching_video_mode header.after
          header.ready in
      record {
        device = device;
        filesystem = filesystem;
        gfx = gfx;
        header_addr = header.ptr;
        m₁ = m₁;
        m₂ = m₂;
        m₃ = m₃;
        m₄ = m₄;
        m₅ = header.after;
        m₆ = m₆;
        e₁ = e₁;
        e₂ = e₂;
        e₃ = e₃;
        e₄ = e₄;
        e₅ = header.returns;
        e₆ = e₆;
        below = omega (arith, header.below);
        blocks = blocks;
        header_owned = inl (refl, refl);
        ready = ready₆;
      }
