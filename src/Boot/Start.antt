-- ===== src/Boot/Start.antt =====
-- The parts of `efi_main` in bootloader/src/main.rs that are not calls of the firmware: the choice of
-- the video mode, and the memory map for the kernel.
pub mod Laws
pub mod Tests
use simple_os_rs.Common.{
  ℕ, ◌%◌, ◌^◌, Bool, true, false, ◌&&◌, ◌||◌, List, [], ◌∷◌, map, Option, none, some, ltb, leb,
  if◌then◌else◌,
}
use simple_os_rs.Common.Outcome.{Outcome, ok, panic, expect_failed, ◌>>=◌}
use simple_os_rs.Terminal.{Format, rgb, bgr, Screen}
use simple_os_rs.Phys.Init.{MemorySegment, MemorySegmentState, free, occupied}

-- The pixel formats that `efi_main` tells apart.
pub data PixelFormat : Type 0 where
  format_rgb format_bgr format_other : PixelFormat

-- `info()` of a mode.
pub record VideoMode : Type 0 where
  pub width : ℕ
  pub height : ℕ
  pub stride : ℕ
  pub pixel_format : PixelFormat

abbrev is_bgr : PixelFormat → Bool
is_bgr f = elim f [ format_rgb ↦ false | format_bgr ↦ true | format_other ↦ false ]

abbrev is_rgb : PixelFormat → Bool
is_rgb f = elim f [ format_rgb ↦ true | format_bgr ↦ false | format_other ↦ false ]

abbrev pub is_raw : PixelFormat → Bool
is_raw f = is_bgr f || is_rgb f

-- The loop over the modes, with `res_best_x` and `res_best_mode`.
unfoldable pub best_from : ℕ → Option VideoMode → List VideoMode → Option VideoMode
best_from res_best_x res_best_mode [] = res_best_mode
best_from res_best_x res_best_mode (m ∷ modes) =
    let better = (leb m.width 1920 && ltb res_best_x m.width) && is_raw m.pixel_format in
    best_from (if better then m.width else res_best_x) (if better then some m else res_best_mode)
      modes

abbrev pub screen_format : PixelFormat → Format
screen_format f = elim f [ format_rgb ↦ rgb | format_bgr ↦ bgr | format_other ↦ rgb ]

abbrev pub screen_of : VideoMode → (ℕ → ℕ) → Screen
screen_of m frame_buffer = record {
  screen_buffer = frame_buffer;
  screen_width = m.width % 2 ^ 32;
  screen_height = m.height % 2 ^ 32;
  screen_scanline_width = m.stride % 2 ^ 32;
  screen_format = screen_format m.pixel_format;
}

abbrev expect {ℓ} : {A : Type ℓ} → Option A → Outcome A
expect none = panic expect_failed
expect (some a) = ok a

-- The firmware sets a mode, which gives the framebuffer, or fails.
unfoldable pub select_mode : (VideoMode → Option (ℕ → ℕ)) → List VideoMode → Outcome Screen
unfolding best_from
select_mode set_mode modes = do
  m ← expect (best_from 0 none modes)
  frame_buffer ← expect (set_mode m)
  ok (screen_of m frame_buffer)

-- The types of memory that `efi_main` tells apart.
pub data MemoryType : Type 0 where
  boot_services_code boot_services_data conventional loader_code loader_data type_other : MemoryType

pub record MemoryDescriptor : Type 0 where
  pub phys_start : ℕ
  pub page_count : ℕ
  pub ty : MemoryType

abbrev pub state_of : MemoryType → MemorySegmentState
state_of ty = elim ty [
  | loader_data ↦ occupied
  | boot_services_code ↦ free
  | boot_services_data ↦ free
  | conventional ↦ free
  | loader_code ↦ free
  | type_other ↦ occupied
]

abbrev pub segment_of : MemoryDescriptor → MemorySegment
segment_of entry = record {
  start = entry.phys_start;
  page_count = entry.page_count;
  state = state_of entry.ty;
}

-- The loop that fills `memory_map`.
abbrev pub memory_map : List MemoryDescriptor → List MemorySegment
memory_map uefi_memory_map = map segment_of uefi_memory_map
