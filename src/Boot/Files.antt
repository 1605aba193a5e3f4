-- ===== src/Boot/Files.antt =====
-- Reading a file of the boot file system, bootloader/src/io.rs.
use simple_os_rs.Common.{ℕ, List, if◌then◌else◌}
use simple_os_rs.Common.Outcome.{Outcome, ok, panic, not_a_file, ◌>>=◌}
use simple_os_rs.Boot.Start.{loader_data}
use simple_os_rs.Boot.Firmware.{Firmware, expect}
use simple_os_rs.Boot.Allocator.{allocate}

pub record FileData : Type 0 where
  pub size : ℕ
  pub buffer : ℕ

module _ (F : Firmware) where
  -- `filesystem` is the static `FILESYSTEM`.
  unfoldable pub read_file : ℕ → List ℕ → F.Machine → Outcome (FileData × F.Machine)
  unfolding allocate
  read_file filesystem path m = do
    (volume, m₁) ← expect (F.open_volume filesystem m)
    (file, m₂) ← expect (F.open_file volume path m₁)
    (size, m₃) ← expect (F.file_size file m₂)
    (buffer, m₄) ← allocate F size loader_data m₃
    (regular, m₅) ← expect (F.is_regular file m₄)
    (_, m₆) ← if regular then expect (F.read file buffer size m₅) else panic not_a_file
    ok (record { size = size; buffer = buffer }, m₆)
