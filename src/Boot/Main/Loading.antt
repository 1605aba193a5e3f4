-- ===== src/Boot/Main/Loading.antt =====
-- The image of the kernel on a firmware that works.
use simple_os_rs.Common.{
  ℕ, ◌+◌, ◌-◌, ◌*◌, ◌^◌, ◌<◌, ◌≤◌, ◌≡◌, ◌⊎◌, ◌∙◌, inl, inr, refl, false, List, ◌∷◌, arith,
}
use simple_os_rs.Common.Outcome.{ok}
use simple_os_rs.Boot.Elf.Bytes.{Memory}
use simple_os_rs.Boot.Elf.{get_size, prepare}
use simple_os_rs.Boot.Elf.Load.{Outside}
use simple_os_rs.Boot.Paging.{ptr_to_kernelspace}
use simple_os_rs.Boot.Start.{loader_data}
use simple_os_rs.Boot.Firmware.{Firmware, kernel_size, preparing_kernel, kernel_at}
use simple_os_rs.Boot.Allocator.{pages_of, allocate}
use simple_os_rs.Boot.Files.{FileData, read_file}
use simple_os_rs.Boot.Main.Working.{Disk, Owned, Holds, Kept, Works, store-Kept}
use simple_os_rs.Boot.Main.Reading.{
  read_file-FileRead, kept_file, seen_file, block_stays, behind-through,
}
use simple_os_rs.Boot.Main.Laws.{allocate-Allocated, write_line-returns}
use simple_os_rs.Boot.Main.{through, behind, write_line, debug_data, load_kernel}

-- The loader accepts the image: it takes `size` bytes in the buffer and writes nothing else.
pub record Accepts (fuel size : ℕ) (mem : Memory) (image dest : ℕ) : Type 0 where
  pub exact : get_size mem image ≡ size
  pub after : Memory
  pub entry_point : ℕ
  pub returns : prepare fuel mem image dest ≡ ok (after, entry_point)
  pub off : (a : ℕ) → Outside dest size a → after a ≡ mem a

-- The loader accepts the file wherever it stands, below the buffer.
abbrev pub Loadable : ℕ → ℕ → Disk → Type 0
Loadable fuel size disk =
    (mem : Memory) (image dest : ℕ)
    → Holds mem image disk.size disk.content
    → image + disk.size ≤ dest
    → Accepts fuel size mem image dest

module _ (F : Firmware) (bytes top : ℕ) (disk : Disk) (works : Works F bytes top disk) where
  -- The image is in a buffer of its own, seen through the mirror, and the file is still allocated.
  pub record KernelLoaded (fuel text filesystem base size k : ℕ) (bs : List (ℕ × ℕ)) (m : F.Machine)
      : Type 0 where
    pub buffer : ℕ
    pub low : ℕ
    pub before : Memory
    pub held : Holds before buffer disk.size disk.content
    pub accepted : Accepts fuel size before buffer (base + low)
    pub below : low + size ≤ top
    pub under : buffer + disk.size ≤ base + low
    pub after : F.Machine
    pub returns :
        load_kernel F fuel false text filesystem base disk.path m
        ≡ ok (
          (record { size = disk.size; buffer = buffer }, base + low, accepted.entry_point),
          after,
        )
    pub placed : (a : ℕ) → low ≤ a → a < low + size → F.memory after a ≡ accepted.after (base + a)
    pub kept : Kept bs (F.memory m) (F.memory after)
    pub ready :
        works.Ready
          (k - pages_of disk.size - pages_of size)
          ((low, pages_of size) ∷ (buffer, pages_of disk.size) ∷ bs)
          after

  module _ (fuel text filesystem base size : ℕ) where
    load_kernel-run :
        (m m₁ m₂ m₃ m₄ m₅ : F.Machine) (image : FileData) (low : ℕ) (seen : Memory)
        (entry_point : ℕ)
        → read_file F filesystem disk.path m ≡ ok (image, m₁)
        → get_size (through base (F.memory m₁)) image.buffer ≡ size
        → write_line F (kernel_size size) m₁ ≡ ok m₂
        → write_line F preparing_kernel m₂ ≡ ok m₃
        → allocate F size loader_data m₃ ≡ ok (low, m₄)
        → ptr_to_kernelspace base low ≡ base + low
        → prepare fuel (through base (F.memory m₄)) image.buffer (base + low)
          ≡ ok (seen, entry_point)
        → write_line F (kernel_at (base + low) entry_point) (F.store (behind base seen) m₄) ≡ ok m₅
        → load_kernel F fuel false text filesystem base disk.path m
          ≡ ok ((image, base + low, entry_point), m₅)
    unfolding load_kernel debug_data
    load_kernel-run m m₁ m₂ m₃ m₄ m₅ image low seen entry_point e₁ e₂ e₃ e₄ e₅ e₆ e₇ e₈ =
        rw (e₁, e₂, e₃, e₄, e₅, e₆, e₇, e₈) refl

    -- Before the loader runs: the file stands in its buffer, and there are pages for its image.
    record Placing (k file : ℕ) (bs : List (ℕ × ℕ)) (m : F.Machine) : Type 0 where
      m₂ : F.Machine
      m₃ : F.Machine
      low : ℕ
      after : F.Machine
      told : write_line F (kernel_size size) m ≡ ok m₂
      told' : write_line F preparing_kernel m₂ ≡ ok m₃
      taken : allocate F size loader_data m₃ ≡ ok (low, after)
      ready : works.Ready (k - pages_of size) ((low, pages_of size) ∷ bs) after
      below : low + pages_of size * 4096 ≤ top
      held : Holds (F.memory after) file disk.size disk.content
      kept : Kept bs (F.memory m) (F.memory after)

    placing :
        (k file : ℕ) (bs : List (ℕ × ℕ)) (m : F.Machine)
        → works.Ready k bs m
        → Owned file (pages_of disk.size) bs
        → disk.size ≤ pages_of disk.size * 4096
        → Holds (F.memory m) file disk.size disk.content
        → pages_of size ≤ k
        → Placing k file bs m
    placing k file bs m ready owned fits holds enough =
        let (m₂, e₂, ready₂, kept₂) =
          write_line-returns F bytes top disk works k bs (kernel_size size) m ready in
        let (m₃, e₃, ready₃, kept₃) =
          write_line-returns F bytes top disk works k bs preparing_kernel m₂ ready₂ in
        let place = allocate-Allocated F bytes top disk works k size bs m₃ ready₃ enough in
        let stays = λ (a b : F.Machine).
          kept_file F bytes top disk works file (pages_of disk.size) bs (F.memory a) (F.memory b) in
        let held₂ = stays m m₂ kept₂ owned fits holds in
        let held₃ = stays m₂ m₃ kept₃ owned fits held₂ in
        record {
          m₂ = m₂;
          m₃ = m₃;
          low = place.ptr;
          after = place.after;
          told = e₂;
          told' = e₃;
          taken = place.returns;
          ready = place.ready;
          below = place.below;
          held = stays m₃ place.after place.kept owned fits held₃;
          kept = λ q l a own lo hi.
              place.kept q l a own lo hi ∙ kept₃ q l a own lo hi ∙ kept₂ q l a own lo hi;
        }

    -- The calls one after the other.
    image_through :
        (bs : List (ℕ × ℕ)) (b c : ℕ × ℕ) (m m₁ m₂ m₃ m₄ : F.Machine)
        → Kept bs (F.memory m) (F.memory m₁)
        → Kept (b ∷ bs) (F.memory m₁) (F.memory m₂)
        → Kept (b ∷ bs) (F.memory m₂) (F.memory m₃)
        → Kept (c ∷ b ∷ bs) (F.memory m₃) (F.memory m₄)
        → Kept bs (F.memory m) (F.memory m₄)
    image_through bs b c m m₁ m₂ m₃ m₄ k₁ k₂ k₃ k₄ q l a owned lo hi =
        k₄ q l a (inr (inr owned)) lo hi
        ∙ k₃ q l a (inr owned) lo hi
        ∙ k₂ q l a (inr owned) lo hi
        ∙ k₁ q l a owned lo hi

    pub load_kernel-KernelLoaded :
        (k : ℕ) (bs : List (ℕ × ℕ)) (m : F.Machine)
        → works.Ready k bs m
        → disk.size + 4095 < 2 ^ 64
        → size + 4095 < 2 ^ 64
        → pages_of disk.size + pages_of size ≤ k
        → top ≤ base
        → ((a : ℕ) → a ≤ top → ptr_to_kernelspace base a ≡ base + a)
        → Loadable fuel size disk
        → KernelLoaded fuel text filesystem base size k bs m
    load_kernel-KernelLoaded k bs m ready small small' enough high mirror loadable =
        let n = pages_of disk.size in
        let file =
          read_file-FileRead F bytes top disk works k filesystem bs m ready small (omega arith) in
        let fits : disk.size ≤ n * 4096 = omega arith in
        let under : file.buffer + disk.size ≤ base = omega (arith, file.below) in
        let first =
          loadable (through base (F.memory file.after)) file.buffer base
            (seen_file F bytes top disk works base file.buffer (F.memory file.after) under
              file.holds)
            under in
        let p =
          placing (k - n) file.buffer ((file.buffer, n) ∷ bs) file.after file.ready
            (inl (refl, refl)) fits file.holds (omega arith) in
        let held =
          seen_file F bytes top disk works base file.buffer (F.memory p.after) under p.held in
        let accepted =
          loadable (through base (F.memory p.after)) file.buffer (base + p.low) held
            (omega (arith, under)) in
        let blocks = (p.low, pages_of size) ∷ (file.buffer, n) ∷ bs in
        let store = behind base accepted.after in
        let off : (a : ℕ)
            → (a < p.low) ⊎ (p.low + pages_of size * 4096 ≤ a)
            → store a ≡ F.memory p.after a =
          λ a out.
            behind-through F bytes top disk works base p.low size (F.memory p.after) accepted.after
              a accepted.off (ground arith) in
        let others = (file.buffer, n) ∷ bs in
        let stored =
          works.stores_kept (k - n - pages_of size) p.low (pages_of size) others store p.after
            p.ready off in
        let stored_kept =
          store-Kept F bytes top disk works (k - n - pages_of size) p.low (pages_of size) others
            store p.after p.ready off in
        let (after, told, ready', kept) =
          write_line-returns F bytes top disk works (k - n - pages_of size) blocks
            (kernel_at (base + p.low) accepted.entry_point) (F.store store p.after) stored in
        record {
          buffer = file.buffer;
          low = p.low;
          before = through base (F.memory p.after);
          held = held;
          accepted = accepted;
          below = omega (arith, p.below);
          under = omega (arith, under);
          after = after;
          returns =
              load_kernel-run m file.after p.m₂ p.m₃ p.after after
                (record { size = disk.size; buffer = file.buffer }) p.low accepted.after
                accepted.entry_point file.returns first.exact p.told p.told' p.taken
                (mirror p.low (omega (arith, p.below))) accepted.returns told;
          placed = λ a l r.
              block_stays F bytes top disk works ((file.buffer, n) ∷ bs) p.low (pages_of size) store
                p.after after kept a l (omega arith);
          kept =
              image_through bs (file.buffer, n) (p.low, pages_of size) m file.after p.after
                (F.store store p.after) after file.kept p.kept stored_kept kept;
          ready = ready';
        }
