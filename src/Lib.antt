-- ===== src/Lib.antt =====
-- Verification of SimpleOS-rs: the memory management, the lock, the terminal, the descriptor tables
-- and the interrupts of the kernel, and the bootloader with the page table and the kernel image that it
-- prepares.
--
-- The bootloader (bootloader/src) maps physical memory to the higher half and passes the memory map to
-- the kernel, whose physical memory manager (kernel/src/memory/phys_manager.rs) hands out pages to the
-- other parts. It is a buddy allocator:
-- a doubly linked list of free blocks for each order from 0 to 8, whose entries lie in the free
-- memory itself, and a bitmap with one bit for each page.
--
-- Common: shared names, bits of words (Common/Bits), and what a call comes to (Common/Outcome): a
-- value, a panic, or no more fuel.
--
-- Phys/Storage: the trait `PhysManagerStorage`, which maps page indices to the pointers of entries
-- and back. A backend is a parameter of the model; its laws are fields of the record: the pointers
-- of indices below its limit are not null, and `get_index` inverts `get_entry`.
-- Phys/Order: `get_buddy_index`, `get_combined_index`, `get_size_order`, and Rust's counts of zeros.
-- Phys/Bitmap: the operations on words of the bitmap, with the bounds checks of its slice.
-- Phys/FreeList: `FreeEntry` and the list operations, on a memory that maps pointers to entries.
-- Phys/Buddy: `free_block` and `alloc_block`. Phys/Buddy/Repr relates the memory, the heads and the
-- bitmap to a list of blocks for each order, Phys/Buddy/Pages relates these to a set of pages;
-- Phys/Buddy/Freeing, Allocating, Fit and Bounds hold the proofs.
-- Phys/Manager: `add_region` and the public calls. Each holds the lock from its first line to its
-- end, so it is one step on the state. Phys/Manager/Serves states what they promise: a manager
-- serves a set of free pages. Calls, Linear and Region hold the theorems about the calls.
-- Phys/Tests: runs on concrete managers.
--
-- Terminal: kernel/src/terminal.rs, with the static `INFO` as a record that `init`, `advance_cursor`,
-- `new_line`, `print_char` and `print` take and return. The fonts of the crate font8x8 are a
-- parameter, of which the theorems need that it has a glyph for the space. Terminal/Log: the macros that
-- log a line; the pieces in which core::fmt writes it are a parameter.
--
-- Interrupt: kernel/src/arch/x86_64/interrupt. Interrupt/Table holds the lines of isrs.rs and
-- set_isrs.rs, Interrupt the entries of the IDT, what a stub pushes on the stack and the dispatch to
-- the handlers, with the registers that the common stub saves and restores. Interrupt/Init holds
-- `init`, with its clearing of more than its page, and Interrupt/Setup `init_core`. The addresses of the
-- stubs, which the linker chooses, and the interrupts for which the processor pushes an error code are
-- parameters.
--
-- Gdt: kernel/src/arch/x86_64/gdt.rs, whose `init` takes its pages from Phys/Manager. Gdt/Descriptor
-- reads a descriptor the way the processor does.
--
-- Kernel: kernel/src/main.rs and kernel/src/arch/x86_64/mod.rs, which put the parts of the kernel
-- together. Kernel/Laws follows `main` to `init_platform`.
--
-- System: the jump from bootloader/src/main.rs to kernel/src/main.rs, and what the kernel reads of the
-- bootloader's memory. System/Header holds the object `KernelHeader` as bytes: the bootloader writes it,
-- and `_start` reads it at `rdi`. What the code at `rip` is, is a parameter that reads memory: it says of an
-- address whether `_start` is there, and the jump to another one is a fault. System/Stands says what
-- stands in memory when the kernel starts. System/Mirror says what is read through the mirror, System/Reserved what a last
-- memory map of the firmware is, and which of its pages the kernel never gives out; Laws and Run put
-- `efi_main` and `main` together.
--
-- Phys/Inline: `InlineStorage`, which fills the interface of Phys/Storage with Virt's functions.
-- Phys/Testing: `TestStorage` of the unit tests, which fills the interface with a vector, and the tests
-- themselves, which Phys/Testing/Runs evaluates.
-- Phys/Init: `new` and `InlineStorage::new`; Phys/Init/Segments holds what happens to the pages of the
-- memory map, Phys/Init/Laws what the new manager serves, and Phys/Init/Counting the counts that `new`
-- logs with the feature verbose-logging.
--
-- Virt: kernel/src/memory/virt_manager.rs. Virt/Arch: kernel/src/arch/x86_64/virt_manager.rs, which
-- clears the lower half of the bootloader's table; Boot/Paging/Handover puts the two together.
--
-- Mutex: kernel/src/mutex.rs, as a step relation of threads that work on a shared state under the
-- lock. That its state is what the operations give one after the other is why the calls of the
-- physical manager and of the terminal are single steps elsewhere.
--
-- Boot/Paging: bootloader/src/paging.rs. The walk of the processor (Boot/Paging/Walk) is defined from
-- the manual of the AMD64 architecture, and the firmware's allocation is a parameter.
--
-- Boot/Elf: bootloader/src/elf.rs. The image and the buffer of the process lie in one memory of bytes
-- (Boot/Elf/Bytes), so that what `prepare` writes may change what it reads later. Boot/Elf/Load,
-- Size, Prepare, Relocation and Names hold the proofs.
--
-- Boot/Start: the choice of the video mode and the memory map in bootloader/src/main.rs. The modes, the
-- map and the framebuffer are what the firmware gives. Boot/Segments: the memory map as bytes.
--
-- Boot/Firmware: the calls of the UEFI firmware, which is not part of the repository, as a record over a
-- state. Boot/Allocator and Boot/Files: bootloader/src/allocator.rs and io.rs over it. Boot/Main: the
-- whole of `efi_main`, the outer `init` of paging.rs, and platform.rs. Boot/Main/Working says what the
-- UEFI specification promises of each call while there is memory, and of the blocks that are allocated;
-- Laws, Tables, Reading, Loading and Preparing follow `efi_main` part by part, Words and Handover carry
-- the page table through the memory of bytes, and Run puts them together. Boot/Main/PlainFile shows which
-- files the loader accepts.
--
-- Builder: builder/src/main.rs: the arguments, the runs of cargo and the sizes of the image. A run of
-- cargo is a parameter.
--
-- Fuel: `free_block` and `alloc_block` go up one order with each call, so the 9 of `calls` are
-- enough; `strcmp` and the loop over the dynamic entries end at a null, and need as much fuel as
-- there is in front of it; `add_region` frees at least one page with each round, so the number of pages
-- is enough.
-- A page index is below 2^52, since its address has 64 bits. A well-formed manager here has a
-- bitmap whose number of pages is a multiple of 256, the largest block: for other sizes the code
-- reads the bitmap past its end when a block's buddy lies behind it.
--
-- Arithmetic, shifts and `63 - leading_zeros` are those of a release build, which wraps; the addresses
-- of bytes in Boot/Elf are numbers without a bound.
--
-- Not modelled: what the clearing in `init` of the interrupts does to memory other than the manager's and
-- the GDT's; assembly beyond its effect on the stack and on registers; what the bootloader's
-- paging.rs prints; the machine code of the kernel's image; what writes to the framebuffer do to other
-- parts of memory; what memory holds where the kernel first makes its structures; and how the image
-- builder writes its files, through the crates fatfs and gpt, none of which the repository holds.
pub mod Boot
pub mod Builder
pub mod Common
pub mod Gdt
pub mod Interrupt
pub mod Kernel
pub mod Mutex
pub mod Phys
pub mod System
pub mod Terminal
pub mod Virt
