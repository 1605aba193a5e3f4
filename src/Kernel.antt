-- ===== src/Kernel.antt =====
-- The entry point of the kernel: kernel/src/main.rs and kernel/src/arch/x86_64/mod.rs. The lines that
-- the other parts log on the way change nothing but the terminal, and are left out.
pub mod Laws
pub mod Tests
use simple_os_rs.Common.{ℕ, List, [], ◌∷◌, Option}
use simple_os_rs.Common.Outcome.{Outcome, ok, ◌>>=◌}
use simple_os_rs.Terminal
use simple_os_rs.Terminal.{Info, Screen, Glyph, clear}
use simple_os_rs.Terminal.Log.{write_all}
use simple_os_rs.Virt.{phys_to_virt}
use simple_os_rs.Virt.Arch
use simple_os_rs.Virt.Arch.{Active}
use simple_os_rs.Boot.Paging.{Buffer, PagingInfo}
use simple_os_rs.Phys.Storage.{PhysManagerStorage}
use simple_os_rs.Phys.FreeList.{Mem}
use simple_os_rs.Phys.Buddy.{Manager}
use simple_os_rs.Phys.Init.{MemorySegment, new}
use simple_os_rs.Gdt
use simple_os_rs.Gdt.{State, Tables, Core}
use simple_os_rs.Interrupt.Init
use simple_os_rs.Interrupt.Init.{Structures, Table}
use simple_os_rs.Interrupt.Setup
use simple_os_rs.Interrupt.Setup.{IdtDesc}

-- The header that the bootloader passes, with the segments of the memory map in place of their
-- address.
pub record KernelHeader : Type 0 where
  pub screen : Screen
  pub paging_info : PagingInfo
  pub memory_map : List MemorySegment
  pub high_memory_base : ℕ

-- What `init_platform` leaves: the tables in memory, and what is loaded into the registers.
pub record Platform : Type 0 where
  pub structures : Structures
  pub core : Core
  pub table : Table
  pub idt_desc : IdtDesc

-- What the memory holds at the start: what is read as free entries, as tables and as page tables.
pub record Machine : Type 0 where
  pub mem : Mem
  pub before : Tables
  pub pml4 : Buffer

pub record Kernel : Type 0 where
  pub info : Info
  pub high_mem_base : ℕ
  pub active : Active
  pub platform : Platform

module _ (storage : PhysManagerStorage) (high_mem_base : ℕ) where
  -- `bitmap` is the address of the bitmap of the manager.
  unfoldable pub init_platform : (ℕ → ℕ) → Tables → Manager → ℕ → Outcome Platform
  unfolding Gdt.init Gdt.init_core Init.init Setup.init_core
  init_platform stub before m bitmap = do
    (m₁, gdt) ← Gdt.init storage high_mem_base m before 1
    let core = Gdt.init_core gdt 0
    (s, table) ←
        Init.init storage high_mem_base stub (record { manager = m₁; bitmap = bitmap; gdt = gdt })
    (m₂, gdt₂, idt_desc) ← Setup.init_core storage high_mem_base s.manager s.gdt table.idt 0
    ok (record {
      structures = record s { manager = m₂; gdt = gdt₂ };
      core = core;
      table = table;
      idt_desc = idt_desc;
    })

  unfoldable pub init_secondary_core : Platform → ℕ → Outcome Platform
  unfolding Gdt.init_core Setup.init_core
  init_secondary_core p core_id = do
    let core = Gdt.init_core p.structures.gdt core_id
    (m, gdt, idt_desc) ←
        Setup.init_core storage high_mem_base p.structures.manager p.structures.gdt p.table.idt
          core_id
    ok (record p {
      structures = record (p.structures) { manager = m; gdt = gdt };
      core = core;
      idt_desc = idt_desc;
    })

module _ (get : ℕ → Option Glyph) where
  -- The lines that `main` logs.
  unfoldable pub log : Info → List (List (List ℕ)) → Outcome Info
  unfolding write_all
  log info [] = ok info
  log info (line ∷ lines) = do info' ← write_all get info line; log info' lines

-- `main` up to its last loop. `storage` is the inline storage on the base of the header, `get` the
-- fonts, and `greetings` the pieces that core::fmt makes of the three lines that `main` logs.
module _ (get : ℕ → Option Glyph) (storage : PhysManagerStorage) (stub : ℕ → ℕ) where
  unfoldable pub main : Machine → List (List (List ℕ)) → KernelHeader → Outcome Kernel
  unfolding clear log new Arch.init init_platform phys_to_virt
  main machine greetings kh = do
    let base = kh.high_memory_base
    info ← log get (clear (Terminal.init kh.screen)) greetings
    (manager, placed) ← new storage machine.mem kh.memory_map
    let active = Arch.init base kh.paging_info machine.pml4
    platform ←
        init_platform storage base stub machine.before manager (phys_to_virt base placed.addr)
    ok (record { info = info; high_mem_base = base; active = active; platform = platform })
