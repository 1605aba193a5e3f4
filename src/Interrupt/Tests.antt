-- ===== src/Interrupt/Tests.antt =====
-- The interrupt tables with stubs at addresses of the higher half.
use simple_os_rs.Common.{ℕ, ◌+◌, ◌*◌, ◌^◌, ◌≡◌, ◌⊎◌, refl, arith, ◌==◌, true, some}
use simple_os_rs.Common.Outcome.{ok, panic, out_of_physical_memory}
use simple_os_rs.Gdt.{State, empty_tss}
use simple_os_rs.Phys.Buddy.{Manager}
use simple_os_rs.Phys.Manager.Linear.{NoRun}
use simple_os_rs.Phys.Tests.{kernel_storage, ten_pages, six_to_fifteen, ten_pages-Serves}
use simple_os_rs.Interrupt.Setup.{IdtDesc, init_core, HasStack, init_core-HasStack}
use simple_os_rs.Interrupt.Table.{isr_error, set_isrs, isrs}
use simple_os_rs.Interrupt.{
  Idt, set_entries, entry_of, InterruptInfo, InterruptFrame, Registers, Handler, stub_pushes,
  push_all, as_info, isr_stub, isr_common_handler, set_isr_handler,
}
use simple_os_rs.Interrupt.Laws.{
  offset_of, set_entries-set_isrs, pushed, info_of, as_info-stub_pushes, isr_stub-resume,
  isr_common_handler-set_isr_handler,
}

-- The stubs that are defined are those that are entered, line by line.
isrs_lem : isrs ≡ set_isrs
isrs_lem = refl

abbrev stub : ℕ → ℕ
stub i = 18446744073709486080 + i * 16

abbrev zeroed : Idt
zeroed index = entry_of 0

entry_14_lem :
    (offset_of (set_entries stub zeroed set_isrs 14) ≡ 18446744073709486304)
    × ((set_entries stub zeroed set_isrs 14).target_selector ≡ 8)
    × ((set_entries stub zeroed set_isrs 14).ist ≡ 1)
entry_14_lem = set_entries-set_isrs stub zeroed 14 (omega arith) (omega arith)

abbrev registers : Registers
registers = record {
  r15 = 1;
  r14 = 2;
  r13 = 3;
  r12 = 4;
  r11 = 5;
  r10 = 6;
  r9 = 7;
  r8 = 8;
  rbp = 9;
  rdi = 10;
  rsi = 11;
  rdx = 12;
  rcx = 13;
  rbx = 14;
  rax = 15;
}

abbrev interrupted : InterruptFrame
interrupted = record { rip = 4096; cs = 8; rflags = 2; rsp = 8192; ss = 0 }

abbrev page_fault : InterruptInfo
page_fault = info_of registers 14 6 interrupted

page_fault_lem :
    as_info (push_all registers (stub_pushes (isr_error 14 14) (pushed true 6 interrupted)))
    ≡ some page_fault
page_fault_lem =
    as_info-stub_pushes (isr_error 14 14) (λ (n : ℕ). n == 14) 6 registers interrupted refl

-- A handler that goes on behind the instruction of two bytes.
abbrev skip : Handler ℕ
skip s info = (s + 1, record info { rip = info.rip + 2 })

isr_stub-resume_example :
    isr_stub (isr_error 14 14) (λ n. skip) 0 registers (pushed true 6 interrupted)
    ≡ some (ok (1, registers, record interrupted { rip = 4098 }))
isr_stub-resume_example =
    isr_stub-resume (isr_error 14 14) (λ (n : ℕ). n == 14) 6 (λ n. skip) 0 registers interrupted
      refl (omega arith)

skip_is_called :
    isr_common_handler (set_isr_handler (λ n s info. (s, info)) 14 skip) 0 page_fault
    ≡ ok (1, record page_fault { rip = 4098 })
skip_is_called =
    isr_common_handler-set_isr_handler (λ n s info. (s, info)) 14 skip 0 page_fault (omega arith)

abbrev tables : State
tables = record {
  gdt_ptr = 2 ^ 47;
  tss_ptr = 2 ^ 47 + 4096;
  tables = record { gdt = λ s. 0; tss = λ core. empty_tss };
}

init_core-HasStack_example :
    ((after : Manager) × (s : State) × (desc : IdtDesc) × (init_core kernel_storage
          (2 ^ 47)
          ten_pages
          tables
          8192
          1
        ≡ ok (after, s, desc))
      × HasStack kernel_storage 256 (2 ^ 47) ten_pages six_to_fifteen tables 8192 1 after s desc)
    ⊎ ((init_core kernel_storage (2 ^ 47) ten_pages tables 8192 1 ≡ panic out_of_physical_memory)
        × NoRun kernel_storage 256 six_to_fifteen 4)
init_core-HasStack_example =
    init_core-HasStack kernel_storage 256 (2 ^ 47) ten_pages six_to_fifteen tables 8192 1
      ten_pages-Serves
