-- ===== src/Gdt/Tests.antt =====
-- The table on a manager with ten free pages, and the loop for two cores.
use simple_os_rs.Common.{◌+◌, ◌-◌, ◌*◌, ◌^◌, ◌≡◌, arith}
use simple_os_rs.Gdt.{Tables, tss_entries, empty_tss}
use simple_os_rs.Gdt.Descriptor.{base_of}
use simple_os_rs.Gdt.Laws.{tss_entries-clash}

-- Pages that are full of ones.
abbrev before : Tables
before = record { gdt = λ s. 2 ^ 64 - 1; tss = λ core. record empty_tss { ist1 = 2 ^ 64 - 1 } }

tss_entries-clash_example :
    base_of
      ((tss_entries 2 0 (2 ^ 47 + 4096) before).gdt 3)
      ((tss_entries 2 0 (2 ^ 47 + 4096) before).gdt 4)
    ≡ 4096 + (103 + 4200 * 2 ^ 16) * 2 ^ 32
tss_entries-clash_example = tss_entries-clash 2 (2 ^ 47 + 4096) before (omega arith)
