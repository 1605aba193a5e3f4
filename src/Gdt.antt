-- ===== src/Gdt.antt =====
-- The global descriptor table: kernel/src/arch/x86_64/gdt.rs. The pages that `init` allocates are
-- modelled by what is in them: words of eight bytes for the table, whose descriptors of a task state
-- segment take two, and the segments by core.
pub mod Descriptor
pub mod Laws
pub mod Tests
use simple_os_rs.Common.{
  update, ℕ, zero, suc, ◌+◌, ◌-◌, ◌*◌, ◌/◌, ◌%◌, ◌^◌, bit_or, Bool, false, true, if◌then◌else◌,
}
use simple_os_rs.Common.Outcome.{Outcome, ok, ◌>>=◌}
use simple_os_rs.Virt.{phys_to_virt}
use simple_os_rs.Phys.Storage.{PhysManagerStorage}
use simple_os_rs.Phys.Buddy.{Manager}
use simple_os_rs.Phys.Manager.{alloc_linear_pages}

abbrev pub selector_null : ℕ
selector_null = 0

abbrev pub selector_kernel_code : ℕ
selector_kernel_code = 8

abbrev pub selector_user_code : ℕ
selector_user_code = bit_or 16 3

abbrev pub desc_code_base : ℕ
desc_code_base = bit_or (bit_or (bit_or (2 ^ 43) (2 ^ 44)) (2 ^ 47)) (2 ^ 53)

abbrev pub desc_user_dpl : ℕ
desc_user_dpl = 3 * 2 ^ 45

abbrev pub new_code : Bool → ℕ
new_code user_mode = if user_mode then bit_or desc_code_base desc_user_dpl else desc_code_base

abbrev pub null_entry : ℕ
null_entry = 0

pub record GdtEntryTss : Type 0 where
  pub limit0 : ℕ
  pub base0 : ℕ
  pub base1 : ℕ
  pub type_dpl_p : ℕ
  pub limi1 : ℕ
  pub base2 : ℕ
  pub base3 : ℕ
  pub reserved : ℕ

pub record Tss : Type 0 where
  pub reserved0 : ℕ
  pub rsp0 : ℕ
  pub rsp1 : ℕ
  pub rsp2 : ℕ
  pub reserved1 : ℕ
  pub ist1 : ℕ
  pub ist2 : ℕ
  pub ist3 : ℕ
  pub ist4 : ℕ
  pub ist5 : ℕ
  pub ist6 : ℕ
  pub ist7 : ℕ
  pub reserved2 : ℕ
  pub reserved3 : ℕ

abbrev pub size_of_tss : ℕ
size_of_tss = 104

abbrev pub size_of_entry : ℕ
size_of_entry = 8

abbrev pub empty_tss : Tss
empty_tss = record {
  reserved0 = 0;
  rsp0 = 0;
  rsp1 = 0;
  rsp2 = 0;
  reserved1 = 0;
  ist1 = 0;
  ist2 = 0;
  ist3 = 0;
  ist4 = 0;
  ist5 = 0;
  ist6 = 0;
  ist7 = 0;
  reserved2 = 0;
  reserved3 = 0;
}

unfoldable pub tss_entry : ℕ → GdtEntryTss
tss_entry tss_ptr = record {
  limit0 = size_of_tss % 2 ^ 16 - 1;
  base0 = tss_ptr % 2 ^ 16;
  base1 = tss_ptr / 2 ^ 16 % 2 ^ 8;
  type_dpl_p = 137;
  limi1 = 0;
  base2 = tss_ptr / 2 ^ 24 % 2 ^ 8;
  base3 = tss_ptr / 2 ^ 32 % 2 ^ 32;
  reserved = 0;
}

-- The two words of a packed `GDTEntryTSS`.
unfoldable pub low_word : GdtEntryTss → ℕ
low_word e =
    e.limit0
    + 2 ^ 16 * e.base0
    + 2 ^ 32 * e.base1
    + 2 ^ 40 * e.type_dpl_p
    + 2 ^ 48 * e.limi1
    + 2 ^ 56 * e.base2

unfoldable pub high_word : GdtEntryTss → ℕ
high_word e = e.base3 + 2 ^ 32 * e.reserved

-- What lies in the allocated pages.
pub record Tables : Type 0 where
  pub gdt : ℕ → ℕ
  pub tss : ℕ → Tss

abbrev pub write_tss_entry : (ℕ → ℕ) → ℕ → GdtEntryTss → ℕ → ℕ
write_tss_entry gdt slot e = update (update gdt slot (low_word e)) (slot + 1) (high_word e)

-- The loop of `init` from core `i` on. Each round writes the segment that `tss_mem` points to.
unfoldable pub tss_entries : ℕ → ℕ → ℕ → Tables → Tables
unfolding tss_entry low_word high_word
tss_entries zero i tss_mem t = t
tss_entries (suc left) i tss_mem t = tss_entries left (suc i) tss_mem (record {
  gdt = write_tss_entry t.gdt (3 + i) (tss_entry (tss_mem + i * size_of_tss));
  tss = update t.tss 0 empty_tss;
})

-- The statics `GDT` and `TSS`, and what they point to.
pub record State : Type 0 where
  pub gdt_ptr : ℕ
  pub tss_ptr : ℕ
  pub tables : Tables

abbrev pub gdt_pages : ℕ → ℕ
gdt_pages num_cores = ((3 + num_cores * 2) * size_of_entry + 4095) / 4096

abbrev pub tss_pages : ℕ → ℕ
tss_pages num_cores = (num_cores * size_of_tss + 4095) / 4096

abbrev pub code_entries : (ℕ → ℕ) → ℕ → ℕ
code_entries gdt = update (update (update gdt 0 null_entry) 1 (new_code false)) 2 (new_code true)

-- `init`, for pages that hold `before` when they are allocated.
unfoldable pub init : PhysManagerStorage → ℕ → Manager → Tables → ℕ → Outcome (Manager × State)
unfolding phys_to_virt alloc_linear_pages tss_entries
init storage high_mem_base m before num_cores = do
  (m₁, gdt_phys) ← alloc_linear_pages storage m (gdt_pages num_cores)
  (m₂, tss_phys) ← alloc_linear_pages storage m₁ (tss_pages num_cores)
  let tss_mem = phys_to_virt high_mem_base tss_phys
  ok (
    m₂,
    record {
      gdt_ptr = phys_to_virt high_mem_base gdt_phys;
      tss_ptr = tss_mem;
      tables =
          tss_entries num_cores 0 tss_mem
            (record { gdt = code_entries before.gdt; tss = before.tss });
    },
  )

-- The registers of a core that `init_core` loads.
pub record Core : Type 0 where
  pub gdtr_base : ℕ
  pub gdtr_limit : ℕ
  pub cs : ℕ
  pub ds : ℕ
  pub es : ℕ
  pub ss : ℕ
  pub task : ℕ

unfoldable pub init_core : State → ℕ → Core
init_core s core_id = record {
  gdtr_base = s.gdt_ptr;
  gdtr_limit = ((5 + 2 * (core_id % 2 ^ 16)) * 8 + 2 ^ 16 - 1) % 2 ^ 16;
  cs = selector_kernel_code;
  ds = selector_null;
  es = selector_null;
  ss = selector_null;
  task = (3 + core_id * 2) * 8 % 2 ^ 16;
}

unfoldable pub set_ist1 : State → ℕ → ℕ → State
set_ist1 s core_id val = record s {
  tables = record (s.tables) {
    tss = update s.tables.tss core_id (record (s.tables.tss core_id) { ist1 = val });
  };
}
