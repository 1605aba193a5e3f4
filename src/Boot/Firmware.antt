-- ===== src/Boot/Firmware.antt =====
-- The UEFI firmware as the bootloader uses it: its state, and the calls of its services. It is not
-- part of the repository, so a record stands for it.
use simple_os_rs.Common.{ℕ, Bool, List, Option, none, some}
use simple_os_rs.Common.Outcome.{Outcome, ok, panic, expect_failed}
use simple_os_rs.Boot.Elf.Bytes.{Memory}
use simple_os_rs.Boot.Start.{VideoMode, MemoryType, MemoryDescriptor}

pub data AllocateType : Type 0 where
  any_pages : AllocateType
  max_address : ℕ → AllocateType
  address : ℕ → AllocateType

-- What the bootloader prints, with the numbers in it.
pub data Message : Type 0 where
  initializing_bootloader switching_video_mode initializing_paging loading_modules preparing_kernel
        starting_kernel :
      Message
  high_memory_starting_at : ℕ → Message
  kernel_size : ℕ → Message
  kernel_at : ℕ → ℕ → Message

-- A call gives nothing where the firmware reports an error; the state goes on in each case. Handles,
-- protocols and files are numbers. `memory` is what the machine's memory holds.
pub record Firmware : Type 1 where
  pub Machine : Type 0
  pub memory : Machine → Memory
  pub store : Memory → Machine → Machine
  pub write : Message → Machine → Option (Unit {0}) × Machine
  pub reset : Machine → Machine
  pub loaded_image_device : ℕ → Machine → Option ℕ × Machine
  pub file_system : ℕ → Machine → Option ℕ × Machine
  pub graphics : Machine → Option ℕ × Machine
  pub modes : Machine → List VideoMode
  pub set_mode : VideoMode → Machine → Option (Unit {0}) × Machine
  pub frame_buffer : Machine → ℕ
  pub open_volume : ℕ → Machine → Option ℕ × Machine
  pub open_file : ℕ → List ℕ → Machine → Option ℕ × Machine
  pub file_size : ℕ → Machine → Option ℕ × Machine
  pub is_regular : ℕ → Machine → Option Bool × Machine
  pub read : ℕ → ℕ → ℕ → Machine → Option (Unit {0}) × Machine
  pub allocate_pages : AllocateType → MemoryType → ℕ → Machine → Option ℕ × Machine
  pub free_pages : ℕ → ℕ → Machine → Option (Unit {0}) × Machine
  pub memory_map_size : Machine → ℕ
  pub memory_map : ℕ → ℕ → Machine → Option (List MemoryDescriptor) × Machine
  pub exit_boot_services : ℕ → ℕ → Machine → Option (List MemoryDescriptor) × Machine
  pub load_cr3 : ℕ → Machine → Machine

-- `expect` and `unwrap` on what a call gives.
abbrev pub expect {ℓ κ} : {A : Type ℓ} {M : Type κ} → Option A × M → Outcome (A × M)
expect (some a, m) = ok (a, m)
expect (none, m) = panic expect_failed
