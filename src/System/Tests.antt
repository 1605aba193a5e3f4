-- ===== src/System/Tests.antt =====
-- The bootloader and the kernel on a firmware that gives out pages from a counter on.
use simple_os_rs.Common.{◌+◌, [], ◌∷◌, ◌==◌}
use simple_os_rs.Phys.FreeList.{new_entry}
use simple_os_rs.Gdt.{empty_tss}
use simple_os_rs.Kernel.Tests.{fonts, greeting, stub}
use simple_os_rs.System.{Setting}

abbrev setting : Setting
setting = record {
  get = fonts;
  stub = stub;
  greetings = greeting ∷ [];
  is_start = λ seen rip. seen (rip + 16) == 1;
  mem = λ p. new_entry 0;
  before = record { gdt = λ i. 0; tss = λ core. empty_tss };
}
