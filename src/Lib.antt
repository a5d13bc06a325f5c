-- ===== src/Lib.antt =====
-- zeroxos: a verification of the kernel's core, the page tables, the filesystem and the compiler
-- of its language.
--
-- zeroxos is a small operating system kernel in Rust. The kernel (crates/zerox-kernel) is the sum
-- of six parts that one lock guards: physical memory, IPC, capability security, the scheduler, the
-- process table and the driver registry; `Kernel::boot` initializes them in that order of need and
-- the timer interrupt calls `Kernel::tick`. A part is modelled by the module of its name: the
-- record of its state, one function per method that returns the new state, and in child modules
-- the theorems.
--
-- Base: vectors as lists measured by native numbers, Boolean tests, machine words with their
-- wrap-around, bit masks, and `Run`, the outcome of code that may panic.
-- Memory/Buddy: `BuddyAllocator` of crates/zerox-kernel/src/memory.rs. Buddy/Weight and
-- Buddy/Blocks measure the free lists page by page; Buddy/Alloc, Buddy/Free and Buddy/Region are
-- about `alloc`, `free` and `add_region`; Buddy/Client is the protocol of a user of the allocator.
-- Memory/Slab: `SlabAllocator` of the same file. Memory/Manager: `MemoryManager` with the static
-- counters of that file as a record, Manager/Accounts and Manager/Regions about them.
-- Ipc/Message, Ipc/Channel, Ipc/Core: `FastMessage`, `FastChannel` and `IpcCore` of
-- crates/zerox-kernel/src/ipc.rs, Core/Routing and Core/Counters about the core.
-- Security: crates/zerox-kernel/src/security.rs, Security/Sets about capability sets and
-- Security/Tokens about the tokens.
-- Scheduler: crates/zerox-kernel/src/scheduler.rs. Scheduler/Best is the search for the best of a
-- list, Scheduler/Pick is `pick_next`, Scheduler/Ready relates it to the ready threads,
-- Scheduler/Quantum is `current_quantum_ns`, Scheduler/State holds `yield_thread`, `preempt` and
-- `on_frame_complete`, Scheduler/Consistency runs histories of operations.
-- Process: crates/zerox-kernel/src/process.rs, Process/Tables about it.
-- Driver: crates/zerox-kernel/src/driver.rs, Driver/Life and Driver/Crash about it.
-- Heap: crates/zerox-kernel/src/heap.rs. Heap/Align is about `align_up`, Heap/Regions measures the
-- free regions byte by byte, Heap/Alloc is about `alloc_first_fit`, and Heap/Client about `dealloc`
-- and the callers. The end of a block must not wrap around, which the code does not test: the
-- theorems have a bound `room` on the requests, and the free regions end four times that below the
-- end of the address space. The tests are on an arena where the kernel is linked.
-- Kernel: crates/zerox-kernel/src/lib.rs and error.rs, Kernel/Boot about the boot.
-- Fs: crates/zerox-fs. Fs/Checksum is src/checksum.rs, Fs/Compression is src/compression.rs with
-- Compression/Format about it, Fs/Journal is src/journal.rs with Journal/Replay about it,
-- Fs/Cow is src/cow.rs with Cow/Nodes about it, and Fs/Superblock is src/superblock.rs.
-- Paging: `map_page_in`, `translate_in` and `unmap_page_in` of
-- crates/hal/src/arch/x86_64/paging.rs, with `PageFlags` of crates/hal/src/memory.rs. The memory is a
-- function from the address of a frame and an index to the entry, which stands for the pointers of
-- `PhysMapper`; `FrameAllocator` is a parameter, and what is relied on of it is the record
-- `IsAllocator`: a frame that is given was free, is aligned, comes zeroed and is then not free.
-- Paging/Flags is about the words computed, Paging/Entries about what an entry holds, Paging/Tree
-- about the tables as a tree, Paging/Grow about a table that is added, Paging/Map and Paging/Unmap
-- about the operations, with their rounds in Map/Steps, Map/Rounds
-- and Unmap/Steps.
-- Interrupts and Segments: the gates of crates/zerox-kernel/src/arch/x86_64/idt.rs, and the
-- descriptors of gdt.rs beside it; Interrupts/Gates and Segments/Fields are about their fields.
-- Agex: the compiler in crates/agex. Agex/Token and Agex/Lexer are
-- crates/agex/src/lexer.rs; Lexer/Progress is about its end, Lexer/Printer and Lexer/RoundTrip about a printer of tokens, and Lexer/Open about
-- what is not closed.
-- Agex/Ast is crates/agex/src/ast.rs and Agex/Parser crates/agex/src/parser.rs, with a child for
-- each kind of syntax: Parser/Exprs, Parser/Types, Parser/Stmts and Parser/Decls. Parser/Progress
-- has a rule for each way to compose parsers and follows the code with them; Parser/Rejects is about
-- a statement that is refused, and Parser/Sync about `async`, which no program has.
-- Parser/Precedence prints expressions with few parentheses; Precedence/Levels numbers the levels
-- of the parser, Steps is about one operator, Places, Primaries and Chain about an operand in a place of any level, and RoundTrip puts them together.
-- Agex/Hir is crates/agex/src/hir.rs and Agex/Codegen crates/agex/src/codegen.rs, with `transpile`
-- of lib.rs beside it: Codegen/Types, Codegen/Exprs, Codegen/Stmts, Codegen/Functions,
-- Codegen/Classes and Codegen/Program. A generator is a function on its state, which holds the text
-- so far. Codegen/Kept is about what it leaves as it was, Codegen/Answers about the whole pipeline.
--
-- Numbers: a `u64` is a native number, and sums and differences keep their wrap-around (`add64`,
-- `sub64`), as in the release profile. Locks and atomics are sequential state. Log output has no
-- effect. Loops of the source are structural recursion; where a loop counts up or down to
-- `MAX_ORDER`, the recursion is on the number of rounds that are left, which is `MAX_ORDER` less
-- the order at the start, so that it never runs short. `add_region` recurses on the number of pages
-- as fuel: every round takes at least one page. The lexer has a round for each character and one
-- more: every round takes at least one character. Each recursive parser has as much fuel as there are
-- tokens left when it starts: every call inside it comes after a token was taken.
--
-- The filesystem and the compiler are libraries that the kernel does not call.
--
-- Not modelled: interrupt and context-switch code, the rest of the HAL, the runtime services, the
-- simulator, the boot image and the command line tools.
-- Clock values are arguments.
pub mod Base
pub mod Memory
pub mod Ipc
pub mod Security
pub mod Scheduler
pub mod Process
pub mod Driver
pub mod Heap
pub mod Kernel
pub mod Fs
pub mod Paging
pub mod Interrupts
pub mod Segments
pub mod Agex
