-- ===== src/Boot/Main/Laws.antt =====
-- The end of the bootloader on a firmware that works.
use simple_os_rs.Common.{
  some, ℕ, suc, ◌<◌, ◌⊎◌, inl, inr, ◌∙◌, ◌+◌, ◌-◌, ◌*◌, ◌/◌, ◌%◌, ◌≤◌, ◌≡◌, refl, ap, List, [], ◌∷◌,
  length, arith, le→not-ltb,
}
use native.Mathlib.Nat.{mul-le-mul_left}
use simple_os_rs.Common.Outcome.{Fault, ok, memory_map_grew}
use simple_os_rs.Boot.Elf.Bytes.{Memory}
use simple_os_rs.Boot.Paging.{Paging, ptr_to_kernelspace}
use simple_os_rs.Boot.Start.{VideoMode, MemoryDescriptor, loader_data, memory_map}
use simple_os_rs.Boot.Firmware.{Firmware, Message, any_pages, starting_kernel}
use simple_os_rs.Boot.Allocator.{pages_of, allocate, free}
use simple_os_rs.Boot.Files.{FileData}
use simple_os_rs.Boot.Segments.{write_segments, segments_at}
use simple_os_rs.Boot.Segments.Laws.{segments_at-write_segments, write_segments-off}
use simple_os_rs.Boot.Main.Working.{Disk, Kept, Works}
use simple_os_rs.Boot.Main.{
  goto_entrypoint, header_of, kernel_stack_size, write_line, map_buffer, start_kernel,
}

-- The pages that the end of the bootloader takes where the memory map takes up to `bytes`.
abbrev pub start_pages : ℕ → ℕ
start_pages bytes = 256 + ((bytes + 4095) / 4096 + 1) * 2

length-memory_map : (entries : List MemoryDescriptor) → length (memory_map entries) ≡ length entries
length-memory_map [] = refl
length-memory_map (e ∷ es) = ap (λ (n : ℕ). suc n) (length-memory_map es)

module _ (F : Firmware) (bytes top : ℕ) (disk : Disk) (works : Works F bytes top disk) where
  -- A block of `size` bytes.
  pub record Allocated (k size : ℕ) (bs : List (ℕ × ℕ)) (m : F.Machine) : Type 0 where
    pub ptr : ℕ
    pub after : F.Machine
    pub returns : allocate F size loader_data m ≡ ok (ptr, after)
    pub ready : works.Ready (k - pages_of size) ((ptr, pages_of size) ∷ bs) after
    pub aligned : ptr % 4096 ≡ 0
    pub below : ptr + pages_of size * 4096 ≤ top
    pub kept : Kept bs (F.memory m) (F.memory after)

  pub allocate-Allocated :
      (k size : ℕ) (bs : List (ℕ × ℕ)) (m : F.Machine)
      → works.Ready k bs m
      → pages_of size ≤ k
      → Allocated k size bs m
  unfolding allocate
  allocate-Allocated k size bs m ready le =
      let (ptr, after, run, ready', grows, aligned, below, same) =
        works.allocates k (pages_of size) bs m ready le in
      record {
        ptr = ptr;
        after = after;
        returns = rw run refl;
        ready = ready';
        aligned = aligned;
        below = below;
        kept = same;
      }

  pub write_line-returns :
      (k : ℕ) (bs : List (ℕ × ℕ)) (msg : Message) (m : F.Machine)
      → works.Ready k bs m
      → (after : F.Machine) × (write_line F msg m ≡ ok after)
        × works.Ready k bs after
        × Kept bs (F.memory m) (F.memory after)
  unfolding write_line
  write_line-returns k bs msg m ready =
      let (after, run, ready', kept) = works.writes k bs msg m ready in
      (after, rw run refl, ready', kept)

  pub free-returns :
      (k ptr size : ℕ) (bs : List (ℕ × ℕ)) (m : F.Machine)
      → works.Ready k ((ptr, pages_of size) ∷ bs) m
      → (after : F.Machine) × (free F ptr size m ≡ ok after)
        × works.Ready k bs after
        × Kept bs (F.memory m) (F.memory after)
  unfolding free
  free-returns k ptr size bs m ready =
      let (after, run, ready', kept) = works.frees k ptr (pages_of size) bs m ready in
      (after, rw run refl, ready', kept)

  -- The buffer for the memory map holds it after its own allocation.
  pub record BufferTaken (grown : Fault) (factor k : ℕ) (bs : List (ℕ × ℕ)) (m : F.Machine)
      : Type 0 where
    pub ptr : ℕ
    pub pages : ℕ
    pub after : F.Machine
    pub returns : map_buffer F grown factor m ≡ ok ((ptr, pages), after)
    pub given : F.allocate_pages any_pages loader_data (pages * factor) m ≡ (some ptr, after)
    pub ready : works.Ready (k - pages * factor) ((ptr, pages * factor) ∷ bs) after
    pub few : pages ≤ (bytes + 4095) / 4096 + 1
    pub holds : F.memory_map_size after ≤ pages * 4096
    pub aligned : ptr % 4096 ≡ 0
    pub below : ptr + pages * factor * 4096 ≤ top
    pub kept : Kept bs (F.memory m) (F.memory after)

  pub map_buffer-BufferTaken :
      (grown : Fault) (factor k : ℕ) (bs : List (ℕ × ℕ)) (m : F.Machine)
      → works.Ready k bs m
      → ((bytes + 4095) / 4096 + 1) * factor ≤ k
      → BufferTaken grown factor k bs m
  unfolding map_buffer
  map_buffer-BufferTaken grown factor k bs m ready le =
      let pages = (F.memory_map_size m + 4095) / 4096 + 1 in
      let small = works.map_small k bs m ready in
      let few : pages ≤ (bytes + 4095) / 4096 + 1 = omega (arith, small) in
      let (ptr, after, run, ready', grows, aligned, below, same) =
        works.allocates k (pages * factor) bs m ready (omega (arith, mul-le-mul_left factor few)) in
      let fits : (F.memory_map_size after + 4095) / 4096 ≤ pages = omega (arith, grows) in
      record {
        ptr = ptr;
        pages = pages;
        after = after;
        returns = rw (run, le→not-ltb pages ((F.memory_map_size after + 4095) / 4096) fits) refl;
        given = run;
        ready = ready';
        few = few;
        holds = omega (arith, grows);
        aligned = aligned;
        below = below;
        kept = same;
      }

  module _ (header_addr : ℕ) (paging : Paging) (mode : VideoMode)
      (frame_buffer entry_point : ℕ) where
    -- The kernel starts on top of a stack of `kernel_stack_size` bytes from `stack` on, with the
    -- header in `rdi`. The elements of the memory map that the header gives, from `at` on, are
    -- those that the firmware gives when its boot services end; they lie in the second half of the
    -- pages taken for the map. What stood in the blocks is still there.
    pub record Entered (image : FileData) (bs : List (ℕ × ℕ)) (m : F.Machine) : Type 0 where
      pub stack : ℕ
      pub at : ℕ
      pub buffer : ℕ
      pub pages : ℕ
      pub entries : List MemoryDescriptor
      pub after : F.Machine
      pub returns :
          start_kernel F header_addr paging (mode, frame_buffer) image entry_point m
          ≡ ok (
            (
              header_of paging mode frame_buffer
                  (ptr_to_kernelspace paging.base at)
                  (length entries),
              goto_entrypoint
                  (ptr_to_kernelspace paging.base header_addr)
                  entry_point
                  (ptr_to_kernelspace paging.base stack),
            ),
            after,
          )
      pub before_stack : F.Machine
      pub with_stack : F.Machine
      pub stack_taken :
          allocate F kernel_stack_size loader_data before_stack ≡ ok (stack, with_stack)
      pub before_map : F.Machine
      pub with_map : F.Machine
      pub map_taken :
          F.allocate_pages any_pages loader_data (pages * 2) before_map ≡ (some buffer, with_map)
      pub left : ℕ
      pub map_ready :
          works.Ready left ((buffer, pages * 2) ∷ (stack, pages_of kernel_stack_size) ∷ bs) with_map
      pub stopped : F.Machine
      pub map_given : F.exit_boot_services buffer (pages * 4096) with_map ≡ (some entries, stopped)
      pub stack_below : stack + kernel_stack_size ≤ top
      pub stack_aligned : stack % 4096 ≡ 0
      pub map_starts : at ≡ buffer + pages * 4096
      pub map_fits : at + 24 * length entries ≤ buffer + pages * 2 * 4096
      pub map_below : buffer + pages * 2 * 4096 ≤ top
      pub map_read : segments_at (F.memory after) at (length entries) ≡ memory_map entries
      pub kept : Kept bs (F.memory m) (F.memory after)

    -- The map is written into its own pages.
    map_stays :
        (k ptr pages : ℕ) (bs : List (ℕ × ℕ)) (entries : List MemoryDescriptor) (m m₁ : F.Machine)
        → works.Ready k ((ptr, pages * 2) ∷ bs) m
        → 40 * length entries ≤ pages * 4096
        → Kept bs (F.memory m) (F.memory m₁)
        → Kept bs (F.memory m) (
            F.memory
              (F.store (write_segments (F.memory m₁) (ptr + pages * 4096) (memory_map entries)) m₁))
    map_stays k ptr pages bs entries m m₁ ready fits kept q l a owned lo hi =
        let at = ptr + pages * 4096 in
        let off : (a < at) ⊎ (at + 24 * length (memory_map entries) ≤ a) =
          elim (works.disjoint k ptr (pages * 2) q l a bs m ready owned lo hi) [
            | inl before ↦ inl (omega arith)
            | inr behind ↦ inr (omega (arith, length-memory_map entries))
          ] in
        ap (λ (x : Memory). x a)
          (works.stores (write_segments (F.memory m₁) at (memory_map entries)) m₁)
        ∙ write_segments-off (F.memory m₁) at (memory_map entries) a off
        ∙ kept q l a owned lo hi

    -- The calls one after the other.
    all_stay :
        (bs : List (ℕ × ℕ)) (b : ℕ × ℕ) (m m₁ m₂ m₃ m₄ m₅ : F.Machine)
        → Kept bs (F.memory m) (F.memory m₁)
        → Kept bs (F.memory m₁) (F.memory m₂)
        → Kept (b ∷ bs) (F.memory m₂) (F.memory m₃)
        → Kept (b ∷ bs) (F.memory m₃) (F.memory m₄)
        → Kept (b ∷ bs) (F.memory m₄) (F.memory m₅)
        → Kept bs (F.memory m) (F.memory m₅)
    all_stay bs b m m₁ m₂ m₃ m₄ m₅ k₁ k₂ k₃ k₄ k₅ q l a owned lo hi =
        k₅ q l a (inr owned) lo hi
        ∙ k₄ q l a (inr owned) lo hi
        ∙ k₃ q l a (inr owned) lo hi
        ∙ k₂ q l a owned lo hi
        ∙ k₁ q l a owned lo hi

    -- On a firmware that works, with pages for the stack and twice the memory map, and with the raw
    -- image allocated, the end of `efi_main` returns: the kernel starts on top of a stack of
    -- `kernel_stack_size` bytes in pages of its own, and the memory map that the header gives is
    -- read back as that of the firmware's last map and ends inside the allocated buffer.
    pub start_kernel-Entered :
        (k : ℕ) (bs : List (ℕ × ℕ)) (image : FileData) (m : F.Machine)
        → works.Ready k ((image.buffer, pages_of image.size) ∷ bs) m
        → start_pages bytes ≤ k
        → Entered image bs m
    unfolding start_kernel
    start_kernel-Entered k bs image m ready enough =
        let (m₁, freed, ready₁, kept₁) = free-returns k image.buffer image.size bs m ready in
        let stack = allocate-Allocated k kernel_stack_size bs m₁ ready₁ (omega arith) in
        let (m₃, told, ready₃, kept₃) =
          write_line-returns (k - 256) ((stack.ptr, 256) ∷ bs) starting_kernel stack.after
            stack.ready in
        let buffer =
          map_buffer-BufferTaken memory_map_grew 2 (k - 256) ((stack.ptr, 256) ∷ bs) m₃ ready₃
            (omega arith) in
        let (entries, m₅, left, fits, words, kept₅) =
          works.exits (k - 256 - buffer.pages * 2) buffer.ptr (buffer.pages * 2)
            (buffer.pages * 4096) ((stack.ptr, 256) ∷ bs) buffer.after buffer.ready (omega arith)
            buffer.holds in
        let at = buffer.ptr + buffer.pages * 4096 in
        let written = write_segments (F.memory m₅) at (memory_map entries) in
        record {
          stack = stack.ptr;
          at = at;
          buffer = buffer.ptr;
          pages = buffer.pages;
          entries = entries;
          after = F.store written m₅;
          returns = rw (freed, stack.returns, told, buffer.returns, left) refl;
          before_stack = m₁;
          with_stack = stack.after;
          stack_taken = stack.returns;
          before_map = m₃;
          with_map = buffer.after;
          map_taken = buffer.given;
          left = k - 256 - buffer.pages * 2;
          map_ready = buffer.ready;
          stopped = m₅;
          map_given = left;
          map_starts = refl;
          stack_below = omega (arith, stack.below);
          stack_aligned = stack.aligned;
          map_fits = omega (arith, fits);
          map_below = buffer.below;
          map_read =
              rw (works.stores written m₅, ← length-memory_map entries)
                (segments_at-write_segments (F.memory m₅) at (memory_map entries) words);
          kept =
              all_stay bs (stack.ptr, 256) m m₁ stack.after m₃ buffer.after (F.store written m₅)
                kept₁ stack.kept kept₃ buffer.kept
                (map_stays (k - 256 - buffer.pages * 2) buffer.ptr buffer.pages
                  ((stack.ptr, 256) ∷ bs) entries buffer.after m₅ buffer.ready fits kept₅);
        }
