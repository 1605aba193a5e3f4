-- ===== src/Boot/Main/Working.antt =====
-- A firmware that works: what the UEFI specification says of the calls that the bootloader makes, as
-- long as there is memory.
use simple_os_rs.Common.{
  ℕ, ◌+◌, ◌-◌, ◌*◌, ◌%◌, ◌<◌, ◌≤◌, ◌≡◌, ◌⊎◌, ap, ◌∙◌, true, List, [], ◌∷◌, map, length, some,
}
use simple_os_rs.Boot.Elf.Bytes.{Memory}
use simple_os_rs.Boot.Paging.{physical_size}
use simple_os_rs.Boot.Start.{VideoMode, MemoryDescriptor, loader_data, memory_map}
use simple_os_rs.Boot.Start.Laws.{Member, Suitable, descriptor_of}
use simple_os_rs.Boot.Firmware.{Firmware, Message, any_pages}
use simple_os_rs.Boot.Segments.{Words}

-- Blocks of pages: their address and the number of pages.
abbrev pub Owned : ℕ → ℕ → List (ℕ × ℕ) → Type 0
Owned ptr pages [] = ⊥
Owned ptr pages ((p, n) ∷ blocks) = ((p ≡ ptr) × (n ≡ pages)) ⊎ Owned ptr pages blocks

-- The bytes of the file stand in memory from `buffer` on.
abbrev pub Holds : Memory → ℕ → ℕ → (ℕ → ℕ) → Type 0
Holds mem buffer size file = (i : ℕ) → i < size → mem (buffer + i) ≡ file i

-- What stands in the blocks stays.
abbrev pub Kept : List (ℕ × ℕ) → Memory → Memory → Type 0
Kept blocks mem mem' =
    (ptr n a : ℕ) → Owned ptr n blocks → ptr ≤ a → a < ptr + n * 4096 → mem' a ≡ mem a

-- The kernel's file: its path, the handle under which it is opened, its size and its bytes.
pub record Disk : Type 0 where
  pub path : List ℕ
  pub handle : ℕ
  pub size : ℕ
  pub content : ℕ → ℕ

-- `Ready k blocks m`: boot services run, `k` pages can still be allocated, and `blocks` are allocated.
-- The memory that is allocated, and the descriptors of the memory map, end at `top`; the memory map
-- never takes more than `bytes`, and an allocation makes it grow by a page at most.
pub record Works (F : Firmware) (bytes top : ℕ) (disk : Disk) : Type 1 where
  pub Ready : ℕ → List (ℕ × ℕ) → F.Machine → Type 0
  pub map_small :
      (k : ℕ) (bs : List (ℕ × ℕ)) (m : F.Machine) → Ready k bs m → F.memory_map_size m ≤ bytes
  pub allocates :
      (k n : ℕ) (bs : List (ℕ × ℕ)) (m : F.Machine)
      → Ready k bs m
      → n ≤ k
      → (ptr : ℕ) × (m' : F.Machine) × (F.allocate_pages any_pages loader_data n m ≡ (some ptr, m'))
        × Ready (k - n) ((ptr, n) ∷ bs) m'
        × (F.memory_map_size m' ≤ F.memory_map_size m + 4096)
        × (ptr % 4096 ≡ 0)
        × (ptr + n * 4096 ≤ top)
        × Kept bs (F.memory m) (F.memory m')
  pub disjoint :
      (k ptr n q l a : ℕ) (bs : List (ℕ × ℕ)) (m : F.Machine)
      → Ready k ((ptr, n) ∷ bs) m
      → Owned q l bs
      → q ≤ a
      → a < q + l * 4096
      → (a < ptr) ⊎ (ptr + n * 4096 ≤ a)
  pub swaps :
      (k : ℕ) (x y : ℕ × ℕ) (bs : List (ℕ × ℕ)) (m : F.Machine)
      → Ready k (x ∷ y ∷ bs) m
      → Ready k (y ∷ x ∷ bs) m
  pub frees :
      (k ptr n : ℕ) (bs : List (ℕ × ℕ)) (m : F.Machine)
      → Ready k ((ptr, n) ∷ bs) m
      → (m' : F.Machine) × (F.free_pages ptr n m ≡ (some tt, m'))
        × Ready k bs m'
        × Kept bs (F.memory m) (F.memory m')
  pub writes :
      (k : ℕ) (bs : List (ℕ × ℕ)) (msg : Message) (m : F.Machine)
      → Ready k bs m
      → (m' : F.Machine) × (F.write msg m ≡ (some tt, m'))
        × Ready k bs m'
        × Kept bs (F.memory m) (F.memory m')
  pub resets : (k : ℕ) (bs : List (ℕ × ℕ)) (m : F.Machine) → Ready k bs m → Ready k bs (F.reset m)
  pub devices :
      (k img : ℕ) (bs : List (ℕ × ℕ)) (m : F.Machine)
      → Ready k bs m
      → (d : ℕ) × (m' : F.Machine) × (F.loaded_image_device img m ≡ (some d, m')) × Ready k bs m'
  pub file_systems :
      (k d : ℕ) (bs : List (ℕ × ℕ)) (m : F.Machine)
      → Ready k bs m
      → (fs : ℕ) × (m' : F.Machine) × (F.file_system d m ≡ (some fs, m')) × Ready k bs m'
  pub screens :
      (k : ℕ) (bs : List (ℕ × ℕ)) (m : F.Machine)
      → Ready k bs m
      → (gfx : ℕ) × (m' : F.Machine) × (F.graphics m ≡ (some gfx, m')) × Ready k bs m'
  pub suitable :
      (k : ℕ) (bs : List (ℕ × ℕ)) (m : F.Machine)
      → Ready k bs m
      → (mode : VideoMode) × Member mode (F.modes m) × Suitable mode
  pub sets :
      (k : ℕ) (bs : List (ℕ × ℕ)) (mode : VideoMode) (m : F.Machine)
      → Ready k bs m
      → Member mode (F.modes m)
      → (m' : F.Machine) × (F.set_mode mode m ≡ (some tt, m')) × Ready k bs m'
  pub maps :
      (k ptr n size : ℕ) (bs : List (ℕ × ℕ)) (m : F.Machine)
      → Ready k ((ptr, n) ∷ bs) m
      → size ≤ n * 4096
      → F.memory_map_size m ≤ size
      → (mmap : List MemoryDescriptor) × (m' : F.Machine) × (F.memory_map ptr size m
          ≡ (some mmap, m'))
        × Ready k ((ptr, n) ∷ bs) m'
        × (physical_size 0 (map descriptor_of mmap) ≡ top)
  pub loads_cr3 :
      (k ptr n : ℕ) (bs : List (ℕ × ℕ)) (m : F.Machine)
      → Ready k ((ptr, n) ∷ bs) m
      → Ready k ((ptr, n) ∷ bs) (F.load_cr3 ptr m)
  pub cr3_memory : (ptr : ℕ) (m : F.Machine) → F.memory (F.load_cr3 ptr m) ≡ F.memory m
  pub opens_volume :
      (k fs : ℕ) (bs : List (ℕ × ℕ)) (m : F.Machine)
      → Ready k bs m
      → (v : ℕ) × (m' : F.Machine) × (F.open_volume fs m ≡ (some v, m'))
        × Ready k bs m'
        × Kept bs (F.memory m) (F.memory m')
  pub opens :
      (k v : ℕ) (bs : List (ℕ × ℕ)) (m : F.Machine)
      → Ready k bs m
      → (m' : F.Machine) × (F.open_file v disk.path m ≡ (some disk.handle, m'))
        × Ready k bs m'
        × Kept bs (F.memory m) (F.memory m')
  pub sizes :
      (k : ℕ) (bs : List (ℕ × ℕ)) (m : F.Machine)
      → Ready k bs m
      → (m' : F.Machine) × (F.file_size disk.handle m ≡ (some disk.size, m'))
        × Ready k bs m'
        × Kept bs (F.memory m) (F.memory m')
  pub regular :
      (k : ℕ) (bs : List (ℕ × ℕ)) (m : F.Machine)
      → Ready k bs m
      → (m' : F.Machine) × (F.is_regular disk.handle m ≡ (some true, m'))
        × Ready k bs m'
        × Kept bs (F.memory m) (F.memory m')
  pub reads :
      (k buffer n : ℕ) (bs : List (ℕ × ℕ)) (m : F.Machine)
      → Ready k ((buffer, n) ∷ bs) m
      → disk.size ≤ n * 4096
      → (m' : F.Machine) × (F.read disk.handle buffer disk.size m ≡ (some tt, m'))
        × Ready k ((buffer, n) ∷ bs) m'
        × Holds (F.memory m') buffer disk.size disk.content
        × Kept bs (F.memory m) (F.memory m')
  pub exits :
      (k ptr n size : ℕ) (bs : List (ℕ × ℕ)) (m : F.Machine)
      → Ready k ((ptr, n) ∷ bs) m
      → size ≤ n * 4096
      → F.memory_map_size m ≤ size
      → (entries : List MemoryDescriptor) × (m' : F.Machine) × (F.exit_boot_services ptr size m
          ≡ (some entries, m'))
        × (40 * length entries ≤ size)
        × Words (memory_map entries)
        × Kept bs (F.memory m) (F.memory m')
  pub stores : (mem : Memory) (m : F.Machine) → F.memory (F.store mem m) ≡ mem
  pub stores_kept :
      (k ptr n : ℕ) (bs : List (ℕ × ℕ)) (mem : Memory) (m : F.Machine)
      → Ready k ((ptr, n) ∷ bs) m
      → ((a : ℕ) → (a < ptr) ⊎ (ptr + n * 4096 ≤ a) → mem a ≡ F.memory m a)
      → Ready k ((ptr, n) ∷ bs) (F.store mem m)

-- A store into one block leaves the others.
pub store-Kept :
    (F : Firmware) (bytes top : ℕ) (disk : Disk) (works : Works F bytes top disk) (k ptr n : ℕ)
    (bs : List (ℕ × ℕ)) (mem : Memory) (m : F.Machine)
    → works.Ready k ((ptr, n) ∷ bs) m
    → ((a : ℕ) → (a < ptr) ⊎ (ptr + n * 4096 ≤ a) → mem a ≡ F.memory m a)
    → Kept bs (F.memory m) (F.memory (F.store mem m))
store-Kept F bytes top disk works k ptr n bs mem m ready same q l a owned lo hi =
    ap (λ (x : Memory). x a) (works.stores mem m)
    ∙ same a (works.disjoint k ptr n q l a bs m ready owned lo hi)
