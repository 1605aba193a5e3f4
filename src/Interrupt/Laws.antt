-- ===== src/Interrupt/Laws.antt =====
-- The IDT that `init` writes, and the stack frame that the stubs make.
use simple_os_rs.Common.{
  ℕ, suc, ◌+◌, ◌*◌, ◌^◌, ◌<◌, ◌≤◌, ◌≡◌, refl, ap, ◌∙◌, Bool, true, false, ◌&&◌, List, [], ◌∷◌, ◌==◌,
  ltb, if◌then◌else◌, arith, Bool-cases, inl, inr, length, dec_lt, some,
}
use simple_os_rs.Common.Outcome.{ok}
use simple_os_rs.Interrupt.Table.{Isr, set_isrs}
use simple_os_rs.Interrupt.{
  IdtEntry, Idt, entry_of, set_idt_entry, set_entries, InterruptInfo, InterruptFrame, Registers,
  Handler, stub_pushes, push_all, words_of, pop_all, as_info, isr_common_stub, isr_stub,
  isr_common_handler, set_isr_handler,
}

-- The lines are for the interrupts from `k` on, each with the stub of its own number.
abbrev pub numbered : ℕ → List Isr → Bool
numbered k [] = true
numbered k (line ∷ lines) = ((line.name == k) && (line.number == k)) && numbered (suc k) lines

module _ (stub : ℕ → ℕ) where
  set_entries-below :
      (idt : Idt) (lines : List Isr) (k i : ℕ)
      → numbered k lines ≡ true
      → i < k
      → set_entries stub idt lines i ≡ idt i
  unfolding set_entries set_idt_entry
  set_entries-below idt [] k i h lt = refl
  set_entries-below idt (line ∷ lines) k i h lt =
      let other : (line.number == i) ≡ false = ground arith in
      set_entries-below (set_idt_entry idt line.number (stub line.name)) lines (suc k) i
        (ground arith) (omega arith)
      ∙ rw other

  set_entries-at :
      (idt : Idt) (lines : List Isr) (k i : ℕ)
      → numbered k lines ≡ true
      → k ≤ i
      → i < k + length lines
      → set_entries stub idt lines i ≡ entry_of (stub i)
  unfolding set_entries set_idt_entry
  set_entries-at idt [] k i h le lt = absurd (omega arith)
  set_entries-at idt (line ∷ lines) k i h le lt = elim (dec_lt k i) [
    | yes later ↦
        set_entries-at (set_idt_entry idt line.number (stub line.name)) lines (suc k) i
          (ground arith) (omega arith) (omega arith)
    | no here ↦
        let number : line.number ≡ i = ground arith in
        let name : line.name ≡ i = ground arith in
        let hit : (line.number == i) ≡ true = ground arith in
        set_entries-below (set_idt_entry idt line.number (stub line.name)) lines (suc k) i
          (ground arith) (omega arith)
        ∙ rw hit (ap (λ x. entry_of (stub x)) name)
  ]

-- The address that the processor reads from the three parts of an entry.
abbrev pub offset_of : IdtEntry → ℕ
offset_of e = e.offset_low + e.offset_mid * 2 ^ 16 + e.offset_high * 2 ^ 32

-- After the lines of set_isrs.rs each of the 256 entries of the IDT leads to the stub of its own
-- number, for stubs at addresses of 64 bits, on the kernel's code selector and the first
-- interrupt stack.
pub set_entries-set_isrs :
    (stub : ℕ → ℕ) (idt : Idt) (i : ℕ)
    → i < 256
    → stub i < 2 ^ 64
    → (offset_of (set_entries stub idt set_isrs i) ≡ stub i)
      × ((set_entries stub idt set_isrs i).target_selector ≡ 8)
      × ((set_entries stub idt set_isrs i).ist ≡ 1)
set_entries-set_isrs stub idt i lt fits =
    rw (set_entries-at stub idt set_isrs 0 i refl (omega arith) lt) (omega arith, refl, refl)

-- What the processor pushes: the frame, and behind it an error code for some interrupts.
abbrev pub pushed : Bool → ℕ → InterruptFrame → List ℕ
pushed pushes_code code frame =
    let words = frame.rip ∷ frame.cs ∷ frame.rflags ∷ frame.rsp ∷ frame.ss ∷ [] in
    if pushes_code then code ∷ words else words

-- The interrupted state, as it is shown to a handler.
abbrev pub info_of : Registers → ℕ → ℕ → InterruptFrame → InterruptInfo
info_of regs number code frame = record {
  r15 = regs.r15;
  r14 = regs.r14;
  r13 = regs.r13;
  r12 = regs.r12;
  r11 = regs.r11;
  r10 = regs.r10;
  r9 = regs.r9;
  r8 = regs.r8;
  rbp = regs.rbp;
  rdi = regs.rdi;
  rsi = regs.rsi;
  rdx = regs.rdx;
  rcx = regs.rcx;
  rbx = regs.rbx;
  rax = regs.rax;
  int_number = number;
  error_code = code;
  rip = frame.rip;
  cs = frame.cs;
  rflags = frame.rflags;
  rsp = frame.rsp;
  ss = frame.ss;
}

abbrev pub registers_of : InterruptInfo → Registers
registers_of info = record {
  r15 = info.r15;
  r14 = info.r14;
  r13 = info.r13;
  r12 = info.r12;
  r11 = info.r11;
  r10 = info.r10;
  r9 = info.r9;
  r8 = info.r8;
  rbp = info.rbp;
  rdi = info.rdi;
  rsi = info.rsi;
  rdx = info.rdx;
  rcx = info.rcx;
  rbx = info.rbx;
  rax = info.rax;
}

abbrev pub frame_of : InterruptInfo → InterruptFrame
frame_of info = record {
  rip = info.rip;
  cs = info.cs;
  rflags = info.rflags;
  rsp = info.rsp;
  ss = info.ss;
}

-- The common stub's registers, the number, the error code and the frame lie where the handlers read
-- them.
pub as_info-stub_pushes :
    (line : Isr) (pushes_code : ℕ → Bool) (code : ℕ) (regs : Registers) (frame : InterruptFrame)
    → pushes_code line.number ≡ line.error
    → as_info (push_all regs (stub_pushes line (pushed (pushes_code line.number) code frame)))
      ≡ some (info_of regs line.number (if line.error then code else 0) frame)
unfolding as_info push_all stub_pushes
as_info-stub_pushes line pushes_code code regs frame h =
    rw h (elim (Bool-cases line.error) [ inl e ↦ rw e refl | inr e ↦ rw e refl ])

-- Where the processor pushes an error code just for the interrupts whose line says so, the stub
-- of an interrupt below 256 shows its handler the interrupted registers and frame with the number
-- and the error code (zero if there is none), and resumes with the registers and the frame as the
-- handler leaves them.
pub isr_stub-resume {ℓ} :
    {S : Type ℓ} (line : Isr) (pushes_code : ℕ → Bool) (code : ℕ) (handlers : ℕ → Handler S) (s : S)
    (regs : Registers) (frame : InterruptFrame)
    → pushes_code line.number ≡ line.error
    → line.number < 256
    → let (s', info) =
        handlers line.number s (info_of regs line.number (if line.error then code else 0) frame) in
      isr_stub line handlers s regs (pushed (pushes_code line.number) code frame)
      ≡ some (ok (s', registers_of info, frame_of info))
unfolding isr_stub isr_common_stub isr_common_handler words_of pop_all
isr_stub-resume line pushes_code code handlers s regs frame h lt =
    let inside : ltb line.number 256 ≡ true = ground arith in
    rw (as_info-stub_pushes line pushes_code code regs frame h, inside)

-- For interrupts below 256 the handler set last for an interrupt is the one that is called for
-- it, and the others stay.
pub isr_common_handler-set_isr_handler {ℓ} :
    {S : Type ℓ} (handlers : ℕ → Handler S) (index : ℕ) (handler : Handler S) (s : S)
    (info : InterruptInfo)
    → info.int_number < 256
    → isr_common_handler (set_isr_handler handlers index handler) s info ≡ (
        if index == info.int_number
        then ok (handler s info)
        else isr_common_handler handlers s info)
unfolding isr_common_handler set_isr_handler
isr_common_handler-set_isr_handler handlers index handler s info lt = ground arith
