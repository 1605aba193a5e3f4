-- ===== src/Interrupt.antt =====
-- Interrupts, kernel/src/arch/x86_64/interrupt/mod.rs: the descriptor table, the stubs' stack frame
-- and the dispatch to the handlers.
pub mod Table
pub mod Laws
pub mod Init
pub mod Setup
pub mod Tests
use simple_os_rs.Common.{
  update, ℕ, ◌+◌, ◌/◌, ◌%◌, ◌^◌, Bool, true, false, List, [], ◌∷◌, Option, none, some, ltb, ◌==◌,
  if◌then◌else◌,
}
use simple_os_rs.Common.Outcome.{Outcome, ok, panic, out_of_fuel, index_out_of_bounds}
use simple_os_rs.Gdt.{selector_kernel_code}
use simple_os_rs.Interrupt.Table.{Isr}

pub record IdtEntry : Type 0 where
  pub offset_low : ℕ
  pub target_selector : ℕ
  pub ist : ℕ
  pub type_dpl_p : ℕ
  pub offset_mid : ℕ
  pub offset_high : ℕ
  pub reserved : ℕ

-- The IDT, by index.
abbrev pub Idt : Type 0
Idt = ℕ → IdtEntry

abbrev pub entry_of : ℕ → IdtEntry
entry_of handler = record {
  offset_low = handler % 2 ^ 16;
  target_selector = selector_kernel_code;
  ist = 1;
  type_dpl_p = 142;
  offset_mid = handler / 2 ^ 16 % 2 ^ 16;
  offset_high = handler / 2 ^ 32 % 2 ^ 32;
  reserved = 0;
}

unfoldable pub set_idt_entry : Idt → ℕ → ℕ → Idt
set_idt_entry idt index handler = update idt index (entry_of handler)

-- The lines that `init` includes; `stub` is the address of each stub, which the linker chooses.
unfoldable pub set_entries : (ℕ → ℕ) → Idt → List Isr → Idt
unfolding set_idt_entry
set_entries stub idt [] = idt
set_entries stub idt (line ∷ lines) =
    set_entries stub (set_idt_entry idt line.number (stub line.name)) lines

pub record InterruptInfo : Type 0 where
  pub r15 : ℕ
  pub r14 : ℕ
  pub r13 : ℕ
  pub r12 : ℕ
  pub r11 : ℕ
  pub r10 : ℕ
  pub r9 : ℕ
  pub r8 : ℕ
  pub rbp : ℕ
  pub rdi : ℕ
  pub rsi : ℕ
  pub rdx : ℕ
  pub rcx : ℕ
  pub rbx : ℕ
  pub rax : ℕ
  pub int_number : ℕ
  pub error_code : ℕ
  pub rip : ℕ
  pub cs : ℕ
  pub rflags : ℕ
  pub rsp : ℕ
  pub ss : ℕ

-- The registers that the common stub saves.
pub record Registers : Type 0 where
  pub r15 : ℕ
  pub r14 : ℕ
  pub r13 : ℕ
  pub r12 : ℕ
  pub r11 : ℕ
  pub r10 : ℕ
  pub r9 : ℕ
  pub r8 : ℕ
  pub rbp : ℕ
  pub rdi : ℕ
  pub rsi : ℕ
  pub rdx : ℕ
  pub rcx : ℕ
  pub rbx : ℕ
  pub rax : ℕ

-- What the processor pushes for an interrupt, and what `iretq` pops.
pub record InterruptFrame : Type 0 where
  pub rip : ℕ
  pub cs : ℕ
  pub rflags : ℕ
  pub rsp : ℕ
  pub ss : ℕ

-- What a stub pushes, the top of the stack first: a zero where the processor pushes no error code,
-- and the number of the interrupt.
unfoldable pub stub_pushes : Isr → List ℕ → List ℕ
stub_pushes line stack = if line.error then line.number ∷ stack else line.number ∷ 0 ∷ stack

-- The stack, the top first, as the handlers read it.
unfoldable pub as_info : List ℕ → Option InterruptInfo
as_info
      (r15 ∷ r14 ∷ r13 ∷ r12 ∷ r11 ∷ r10 ∷ r9 ∷ r8 ∷ rbp ∷ rdi ∷ rsi ∷ rdx ∷ rcx ∷ rbx ∷ rax
        ∷ int_number ∷ error_code ∷ rip ∷ cs ∷ rflags ∷ rsp ∷ ss ∷ stack) =
    some (record {
      r15 = r15;
      r14 = r14;
      r13 = r13;
      r12 = r12;
      r11 = r11;
      r10 = r10;
      r9 = r9;
      r8 = r8;
      rbp = rbp;
      rdi = rdi;
      rsi = rsi;
      rdx = rdx;
      rcx = rcx;
      rbx = rbx;
      rax = rax;
      int_number = int_number;
      error_code = error_code;
      rip = rip;
      cs = cs;
      rflags = rflags;
      rsp = rsp;
      ss = ss;
    })
as_info _ = none

-- The words of the structure, as the handlers leave them on the stack.
unfoldable pub words_of : InterruptInfo → List ℕ
words_of info =
    info.r15 ∷ info.r14 ∷ info.r13 ∷ info.r12 ∷ info.r11 ∷ info.r10 ∷ info.r9 ∷ info.r8 ∷ info.rbp
    ∷ info.rdi ∷ info.rsi ∷ info.rdx ∷ info.rcx ∷ info.rbx ∷ info.rax ∷ info.int_number
    ∷ info.error_code ∷ info.rip ∷ info.cs ∷ info.rflags ∷ info.rsp ∷ info.ss ∷ []

-- The pushes of the common stub, `rax` first.
unfoldable pub push_all : Registers → List ℕ → List ℕ
push_all regs stack =
    regs.r15 ∷ regs.r14 ∷ regs.r13 ∷ regs.r12 ∷ regs.r11 ∷ regs.r10 ∷ regs.r9 ∷ regs.r8 ∷ regs.rbp
    ∷ regs.rdi ∷ regs.rsi ∷ regs.rdx ∷ regs.rcx ∷ regs.rbx ∷ regs.rax ∷ stack

-- Its pops, `r15` first; then the number and the error code are dropped and `iretq` pops the rest.
unfoldable pub pop_all : List ℕ → Option (Registers × InterruptFrame)
pop_all
      (r15 ∷ r14 ∷ r13 ∷ r12 ∷ r11 ∷ r10 ∷ r9 ∷ r8 ∷ rbp ∷ rdi ∷ rsi ∷ rdx ∷ rcx ∷ rbx ∷ rax
        ∷ int_number ∷ error_code ∷ rip ∷ cs ∷ rflags ∷ rsp ∷ ss ∷ stack) =
    some (
      record {
        r15 = r15;
        r14 = r14;
        r13 = r13;
        r12 = r12;
        r11 = r11;
        r10 = r10;
        r9 = r9;
        r8 = r8;
        rbp = rbp;
        rdi = rdi;
        rsi = rsi;
        rdx = rdx;
        rcx = rcx;
        rbx = rbx;
        rax = rax;
      },
      record { rip = rip; cs = cs; rflags = rflags; rsp = rsp; ss = ss },
    )
pop_all _ = none

-- A handler changes a state and the structure on the stack.
abbrev pub Handler {ℓ} : Type ℓ → Type ℓ
Handler S = S → InterruptInfo → S × InterruptInfo

-- `HANDLERS[info.int_number as usize](info)`
unfoldable pub isr_common_handler {ℓ} :
    {S : Type ℓ} → (ℕ → Handler S) → S → InterruptInfo → Outcome (S × InterruptInfo)
isr_common_handler handlers s info =
    if ltb info.int_number 256
    then ok (handlers info.int_number s info)
    else panic index_out_of_bounds

-- What is resumed after the handlers, if the stack holds all the words that are popped.
abbrev pub Resumed {ℓ} : Type ℓ → Type ℓ
Resumed S = Option (Outcome (S × Registers × InterruptFrame))

abbrev pub popped {ℓ} : {S : Type ℓ} → S → Option (Registers × InterruptFrame) → Resumed S
popped s none = none
popped s (some (regs, frame)) = some (ok (s, regs, frame))

abbrev pub resume {ℓ} : {S : Type ℓ} → Outcome (S × InterruptInfo) → Resumed S
resume (ok (s, info)) = popped s (pop_all (words_of info))
resume (panic e) = some (panic e)
resume out_of_fuel = some out_of_fuel

abbrev pub dispatch {ℓ} : {S : Type ℓ} → (ℕ → Handler S) → S → Option InterruptInfo → Resumed S
dispatch handlers s none = none
dispatch handlers s (some info) = resume (isr_common_handler handlers s info)

unfoldable pub isr_common_stub {ℓ} :
    {S : Type ℓ} → (ℕ → Handler S) → S → Registers → List ℕ → Resumed S
unfolding as_info push_all isr_common_handler words_of pop_all
isr_common_stub handlers s regs stack = dispatch handlers s (as_info (push_all regs stack))

-- A stub, which ends with the common one.
unfoldable pub isr_stub {ℓ} :
    {S : Type ℓ} → Isr → (ℕ → Handler S) → S → Registers → List ℕ → Resumed S
unfolding stub_pushes isr_common_stub
isr_stub line handlers s regs stack = isr_common_stub handlers s regs (stub_pushes line stack)

unfoldable pub set_isr_handler {ℓ} : {H : Type ℓ} → (ℕ → H) → ℕ → H → ℕ → H
set_isr_handler handlers index handler = update handlers index handler
