-- ===== src/Boot/Main/Tests.antt =====
-- A firmware that gives out pages from a counter on, and a run of the end of the bootloader on it.
pub mod Blocks
use simple_os_rs.Common.{
  ℕ, if◌then◌else◌, ◌+◌, ◌-◌, ◌*◌, ◌^◌, ◌<◌, ◌≤◌, ◌≡◌, ◌⊎◌, inl, inr, refl, true, false, List, [],
  ◌∷◌, map, subst, some, dec_lt, arith,
}
use simple_os_rs.Boot.Elf.Bytes.{Memory, in_range}
use simple_os_rs.Boot.Paging.{Paging, physical_size}
use simple_os_rs.Boot.Start.{
  VideoMode, format_bgr, MemoryDescriptor, conventional, type_other, loader_data, memory_map,
}
use simple_os_rs.Boot.Firmware.{Firmware}
use simple_os_rs.Boot.Files.{FileData}
use simple_os_rs.Boot.Segments.{write_segments, segments_at}
use simple_os_rs.Boot.Segments.Laws.{segments_at-write_segments}
use simple_os_rs.Boot.Elf
use simple_os_rs.Boot.Elf.{header, segment, get_size}
use simple_os_rs.Boot.Elf.Bytes.{read}
use simple_os_rs.Boot.Elf.Tests.{text_segment, size_24}
use simple_os_rs.Boot.Main.PlainFile.{PlainFile, PlainFile-Loadable}
use simple_os_rs.Boot.Main.Loading.{Loadable}
use simple_os_rs.Boot.Start.Laws.{descriptor_of}
use simple_os_rs.Boot.Main.Run.{Started, efi_main-Started}
use simple_os_rs.Boot.Main.Tests.Blocks.{Apart, Laid, Laid-push, Laid-swap}
use simple_os_rs.Boot.Main.Working.{Disk, Holds, Kept, Owned, Works}
use simple_os_rs.Boot.Main.Laws.{Entered, start_kernel-Entered}

pub record Counter : Type 0 where
  pub next : ℕ
  pub mem : Memory

-- Pages are given out from the counter on.
abbrev pub descriptors : ℕ → List MemoryDescriptor
descriptors next =
    record { phys_start = 0; page_count = 160; ty = conventional }
    ∷ record { phys_start = 655360; page_count = 96; ty = type_other }
    ∷ record { phys_start = 1048576; page_count = 3840; ty = conventional }
    ∷ record { phys_start = 16777216; page_count = next - 4096; ty = loader_data }
    ∷ record { phys_start = next * 4096; page_count = 523776 - next; ty = conventional }
    ∷ record { phys_start = 2145386496; page_count = 512; ty = type_other }
    ∷ []

abbrev pub mode : VideoMode
mode = record { width = 800; height = 600; stride = 832; pixel_format = format_bgr }

-- The file is a small image with one segment. It is read into the buffer.
abbrev pub loaded : ℕ → Counter → Counter
loaded buffer m = record m {
  mem = λ a. if in_range a buffer 208 then Elf.Tests.image (a - buffer) else m.mem a;
}

copied :
    (buffer size : ℕ) (file mem : Memory)
    → Holds (λ a. if in_range a buffer size then file (a - buffer) else mem a) buffer size file
copied buffer size file mem i lt =
    let inside : in_range (buffer + i) buffer size ≡ true = ground arith in
    let back : buffer + i - buffer ≡ i = omega arith in rw (inside, back) refl

pub loaded-Holds :
    (buffer : ℕ) (m : Counter) → Holds (loaded buffer m).mem buffer 208 Elf.Tests.image
loaded-Holds buffer m = copied buffer 208 Elf.Tests.image m.mem

abbrev pub firmware : Firmware
firmware = record {
  Machine = Counter;
  memory = λ m. m.mem;
  store = λ mem m. record m { mem = mem };
  write = λ msg m. (some tt, m);
  reset = λ m. m;
  loaded_image_device = λ h m. (some 1, m);
  file_system = λ d m. (some 2, m);
  graphics = λ m. (some 3, m);
  modes = λ m. mode ∷ [];
  set_mode = λ v m. (some tt, m);
  frame_buffer = λ m. 2145386496;
  open_volume = λ fs m. (some 4, m);
  open_file = λ v path m. (some 5, m);
  file_size = λ f m. (some 208, m);
  is_regular = λ f m. (some true, m);
  read = λ f buffer size m. (some tt, loaded buffer m);
  allocate_pages = λ t ty n m. (some (m.next * 4096), record m { next = m.next + n });
  free_pages = λ p n m. (some tt, m);
  memory_map_size = λ m. 4000;
  memory_map = λ p n m. (some (descriptors m.next), m);
  exit_boot_services = λ p n m. (some (descriptors m.next), m);
  load_cr3 = λ p m. m;
}

abbrev pub disk : Disk
disk = record { path = 107 ∷ []; handle = 5; size = 208; content = Elf.Tests.image }

pub descriptors_end :
    (next : ℕ)
    → 4096 ≤ next
    → next ≤ 523776
    → physical_size 0 (map descriptor_of (descriptors next)) ≡ 2 ^ 31
descriptors_end next low high = ground arith

pub loaded-Kept :
    (buffer n : ℕ) (bs : List (ℕ × ℕ)) (m : Counter)
    → Apart (buffer, n) bs
    → 208 ≤ n * 4096
    → Kept bs m.mem (loaded buffer m).mem
loaded-Kept buffer n bs m apart fits q l a owned lo hi =
    let out = apart q l a owned lo hi in
    let outside : in_range a buffer 208 ≡ false = ground (arith, out) in rw outside refl

unfoldable pub works : Works firmware 4000 (2 ^ 31) disk
works = record {
  Ready = λ k bs m. ((4096 ≤ m.next) × ((m.next + k) * 4096 ≤ 2145386496)) × Laid m.next bs;
  map_small = λ k bs m ready. omega arith;
  allocates = λ k n bs m ((low, fits), laid) le. (
    m.next * 4096,
    record m { next = m.next + n },
    refl,
    ((omega arith, omega arith), Laid-push m.next n bs low laid),
    omega arith,
    omega arith,
    omega arith,
    λ ptr n a owned l r. refl,
  );
  disjoint = λ k ptr n q l a bs m (fits, (here, apart, rest)) owned lo hi. apart q l a owned lo hi;
  swaps = λ k x y bs m (fits, laid). (fits, Laid-swap m.next x y bs laid);
  frees = λ k ptr n bs m (fits, (here, apart, rest)).
      (m, refl, (fits, rest), λ q l a owned lo hi. refl);
  writes = λ k bs msg m ready. (m, refl, ready, λ ptr n a owned l r. refl);
  resets = λ k bs m ready. ready;
  devices = λ k img bs m ready. (1, m, refl, ready);
  file_systems = λ k d bs m ready. (2, m, refl, ready);
  screens = λ k bs m ready. (3, m, refl, ready);
  suitable = λ k bs m ready.
      (mode, inl refl, record { raw = refl; wide = omega arith; narrow = omega arith });
  sets = λ k bs v m ready member. (m, refl, ready);
  maps = λ k ptr n size bs m ready fits small.
      (descriptors m.next, m, refl, ready, descriptors_end m.next (omega arith) (omega arith));
  loads_cr3 = λ k ptr n bs m ready. ready;
  cr3_memory = λ ptr m. refl;
  opens_volume = λ k fs bs m ready. (4, m, refl, ready, λ ptr n a owned l r. refl);
  opens = λ k v bs m ready. (m, refl, ready, λ ptr n a owned l r. refl);
  sizes = λ k bs m ready. (m, refl, ready, λ ptr n a owned l r. refl);
  regular = λ k bs m ready. (m, refl, ready, λ ptr n a owned l r. refl);
  reads = λ k buffer n bs m (small, (here, apart, rest)) fits. (
    loaded buffer m,
    refl,
    (small, (here, apart, rest)),
    loaded-Holds buffer m,
    loaded-Kept buffer n bs m apart fits,
  );
  exits = λ k ptr n size bs m ready fits small.
      (descriptors m.next, m, refl, omega arith, omega arith, λ ptr n a owned l r. refl);
  stores = λ mem m. refl;
  stores_kept = λ k ptr n bs mem m ready same. ready;
}

abbrev paging : Paging
paging = record {
  table = λ i. 0;
  cr3 = 4194304;
  base = 0xFFFF_FF80_0000_0000;
  paging_info = record {
    page_buffer = 0xFFFF_FF80_0040_0000;
    pdp_pages = 1;
    pd_pages = 2;
    pml4_entries = 1;
  };
}

abbrev image : FileData
image = record { size = 5000; buffer = 16777216 }

end_on_counter :
    Entered firmware 4000
      (2 ^ 31)
      disk
      works
      12288
      paging
      mode
      2147483648
      0xFFFF_FF80_0090_0000
      image
      []
      (record { next = 4098; mem = λ a. 0 })
unfolding works
end_on_counter =
    start_kernel-Entered firmware 4000 (2 ^ 31) disk works 12288 paging mode 2147483648
      0xFFFF_FF80_0090_0000 300 [] image (record { next = 4098; mem = λ a. 0 })
      (
        (omega arith, omega arith),
        ((omega arith, omega arith), λ q l a owned lo hi. absurd owned, tt),
      )
      (omega arith)

segments_at-write_segments_example :
    segments_at (write_segments (λ a. 255) 8192 (memory_map (descriptors 4096))) 8192 6
    ≡ memory_map (descriptors 4096)
segments_at-write_segments_example =
    segments_at-write_segments (λ a. 255) 8192 (memory_map (descriptors 4096)) (omega arith)

pub disk-PlainFile : PlainFile disk (text_segment ∷ [])
unfolding header segment read
disk-PlainFile = record {
  long = omega arith;
  count = refl;
  reads = (refl, tt);
  headers_inside = omega arith;
  segments = (
    record {
      static = omega arith;
      data_fits = omega arith;
      ends = omega arith;
      inside = omega arith;
    },
    tt,
  );
  apart = λ dest. ((λ a h f. f), tt);
}

PlainFile-Loadable_example : Loadable 9 (get_size disk.content 0) disk
PlainFile-Loadable_example = PlainFile-Loadable 9 disk (text_segment ∷ []) disk-PlainFile

pub disk-Loadable : Loadable 9 24 disk
disk-Loadable =
    subst (λ size. Loadable 9 size disk) size_24
      (PlainFile-Loadable 9 disk (text_segment ∷ []) disk-PlainFile)

efi_main-Started_example :
    Started firmware 4000 (2 ^ 31) disk works 9 0 24 7 (record { next = 4096; mem = λ a. 0 })
unfolding works
efi_main-Started_example =
    efi_main-Started firmware 4000 (2 ^ 31) disk works 9 0 24 7 0 300 []
      (record { next = 4096; mem = λ a. 0 }) ((omega arith, omega arith), tt) (omega arith)
      (omega arith) refl (omega arith) (omega arith) disk-Loadable (omega arith)
