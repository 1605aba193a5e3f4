-- ===== src/Boot/Start/Tests.antt =====
-- Three video modes and a memory map of two segments.
use simple_os_rs.Common.{ℕ, arith, ◌≡◌, ◌⊎◌, List, [], ◌∷◌, map, Option, some}
use simple_os_rs.Common.Outcome.{ok, panic, expect_failed}
use simple_os_rs.Phys.Init.{max_address}
use simple_os_rs.Boot.Paging.{mapped_size, physical_size}
use simple_os_rs.Boot.Start.{
  VideoMode, format_rgb, format_bgr, format_other, select_mode, screen_of, MemoryDescriptor,
  conventional, type_other, memory_map,
}
use simple_os_rs.Boot.Start.Laws.{
  Widest, AllBelow, select_mode-Widest, descriptor_of, max_address-mapped_size,
}

abbrev modes : List VideoMode
modes =
    record { width = 640; height = 480; stride = 640; pixel_format = format_rgb }
    ∷ record { width = 2560; height = 1440; stride = 2560; pixel_format = format_bgr }
    ∷ record { width = 1280; height = 720; stride = 1280; pixel_format = format_bgr }
    ∷ record { width = 1920; height = 1080; stride = 1920; pixel_format = format_other }
    ∷ []

abbrev set_mode : VideoMode → Option (ℕ → ℕ)
set_mode m = some (λ i. 0)

mode_selected :
    ((m : VideoMode) × Widest modes m
      × ((frame_buffer : ℕ → ℕ)
          → set_mode m ≡ some frame_buffer
          → select_mode set_mode modes ≡ ok (screen_of m frame_buffer)))
    ⊎ (AllBelow 0 modes × (select_mode set_mode modes ≡ panic expect_failed))
mode_selected = select_mode-Widest set_mode modes

abbrev low : MemoryDescriptor
low = record { phys_start = 0; page_count = 160; ty = conventional }

abbrev high : MemoryDescriptor
high = record { phys_start = 1048576; page_count = 512; ty = type_other }

max_address-mapped_size_example :
    max_address (memory_map (low ∷ high ∷ []))
    ≡ ok (mapped_size (physical_size 0 (map descriptor_of (low ∷ high ∷ []))))
max_address-mapped_size_example = max_address-mapped_size low (high ∷ []) (omega arith)
