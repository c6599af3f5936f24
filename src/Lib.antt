-- ===== src/Lib.antt =====
-- The core of the Emerald kernel: its memory allocators, its ring buffer, its locks, the table of its
-- FAT file system, its clock, its pipes, its keyboard and its mouse. Each module follows a file of the
-- repository. The allocators stand on the memory layout, the locks guard the kernel's shared objects
-- (each modelled here under the lock that its callers hold), and the clock, the pipes and the input
-- devices are what the kernel serves to programs.
--
-- - Prelude: shared names; lists measured by native numbers; `Outcome`, what a call comes to in Rust:
--   a value (`ok`), a panic, or undefined behaviour; `Result`, Rust's type of that name.
-- - Ring (kernel/src/collections/ring.rs): `RingBuffer`. A slot is an option, and reading a slot that
--   no value was written to is undefined. Ring/Window says which values a ring holds, Ring/Refine and
--   Ring/History compare it with a bounded queue, and Ring/Replace is about `push` and `push_replace`.
-- - Memory/Layout (kernel/src/memory_management/memory_layout.rs): the constants of the address space,
--   and the alignment functions over 64 bits. Both allocators use it.
-- - Memory/VirtualSpace (kernel/src/memory_management/virtual_space.rs): `VirtualSpaceAllocator`. The
--   linked list is a list, and the cursor of `deallocate` is a pair of lists. `allocate` calls itself
--   once, after it has put the first entry into the empty list, so it runs on two rounds of fuel.
--   Tiling says what the entries mean, Split, Allocate, Deallocate and Merge are about the operations, and
--   Reach about sequences of calls. Mapping the pages, and the drop of `VirtualSpace<T>`, are not
--   modelled.
-- - Memory/PageAllocator (kernel/src/memory_management/physical_page_allocator.rs): the free list of
--   pages, threaded through a memory that maps addresses to what a page holds. FreeList is about single
--   calls, InitRange about a range of pages at boot, and Calls about sequences of calls by callers that
--   hold pages. The loop of `init_range` runs for the number of pages of the range. The memory map of
--   the boot loader and the end of the kernel's image are arguments.
-- - Sync/Lock and Sync/RwLock (kernel/src/sync/spin/lock.rs and rwlock.rs): the atomic word, and threads
--   that make one access at a time, in any order that a schedule says. A waiting loop is a step that the
--   schedule may repeat, and a weak exchange may fail where the schedule says so. Atomic accesses are
--   taken to be sequentially consistent, but for those of Sync/Once. Shares says what the words tell about one thread, Access and
--   Moves are about its moves, Invariant about all threads, and Exclusion about schedules.
-- - Sync/Once (kernel/src/sync/once.rs): `OnceLock` under calls of `set`, in the same way, but that a load
--   may return a state that was stored before the last one: `is_completed` loads with `Relaxed`. What a
--   reader then sees of the value depends on the memory ordering, so `get`, `try_get` and
--   `get_or_try_init` are not modelled, nor is `Mutex`. Invariant is about one thread, and Value about
--   schedules.
-- - Sync/ReMutex (kernel/src/sync/spin/remutex.rs): `ReMutex` in the same way, shared by CPUs that a
--   function gives by their identities. Invariant and Calls are about the moves of one CPU, and
--   Exclusion about schedules.
-- - Fat (kernel/src/fs/fat.rs): the file allocation table. Entry is its encoding, Table reads and writes
--   it in a buffer of bytes, Roundtrip and Chain are about writing, and FindFree about the search for a
--   free cluster. The disk, the directories and the files are not modelled.
-- - Clock (kernel/src/devices/clock/rtc.rs and mod.rs): Rtc decodes the registers of the real time
--   clock and counts seconds, Calendar is about the count, Time is `ClockTime`, System is `SystemTime`
--   over what the devices show, and History is about sequences of calls. Reading a device, and waiting
--   for the next second, are arguments. Devices is about the devices of
--   `Clock`, with the key of its sort; the sort of the standard library is an argument.
-- - Pipe (kernel/src/devices/pipe.rs): both sides of a pipe and the handles on them. Stream is about
--   the bytes, and Handles about the end of the file.
-- - Keyboard (kernel/src/devices/keyboard_mouse/keyboard.rs): the flags, and the keys that are sent.
--   What the controller's reads return is an argument. Toggles is about the keys that any
--   sequence of bytes sends, with their flags.
-- - Mouse (kernel/src/devices/keyboard_mouse/mouse.rs and libraries/kernel_user_link/src/mouse.rs): a
--   packet of the mouse, and the bytes of the event that a program reads. The set-up of the mouse is
--   not modelled. Bytes is about both.
-- - Scheduler (kernel/src/process/scheduler.rs, with process/mod.rs, cpu/mod.rs and cpu/idt.rs beside
--   it, and the priorities of libraries/kernel_user_link/src/process.rs): Context has the registers and
--   `swap_context`, Process what the scheduler uses of a process, State the lists of the scheduler, Wake
--   `try_wake_waiting_processes`, Processor the processor with its count of disabled interrupts, and
--   Calls the passes of `schedule` and the calls that go back to it. The heap is a list in any order, and where
--   several processes have the greatest counter, an argument selects the one that `pop` takes. The time
--   at a call is an argument. The lock of the scheduler, which is held within each call, the page table
--   that is switched to and the release of the display are not modelled. Census, Visits and Wakes count processes,
--   Entries and Invariant say what the lists hold, Leaving, Passes and Steps are about the calls, the
--   passes and sequences of both, Switch is about the registers, Tops and Turns about the process that is
--   taken, Ends about the shutdown, and Waiters, Remains and Parents about a parent that waits.
-- - Scheduler/Files, UserHeap and Syscalls (kernel/src/process/mod.rs and process/syscalls/mod.rs): the
--   descriptors of a process, its heap, and the system calls that wait for a process, set a priority and
--   hand files to a new process. The heap keeps a list of what it asks of the address space; what the
--   mapper does with that is not modelled. What a file is, and its copy for a new process, are arguments. Tables
--   and Descriptors are about the descriptors.
-- - Cmdline (kernel/src/cmdline/tokenizer.rs): the tokenizer of the kernel's command line. What a letter
--   and white space are, and how many bytes a character has, are arguments, as they come from Rust's
--   `char`. Pairs is about a line of keys and values; the fields that these set are not modelled. Its
--   loop runs on fuel, one round more than there are pairs.
-- - Memory/PageTables (kernel/src/memory_management/virtual_memory_mapper.rs): the indexes of an address
--   and the walk that frees the memory of a process, over tables that a function gives by their
--   physical addresses. What `f` writes to an entry of the last level does not change the walk. Walk is
--   about what is visited. Mapping and unmapping are not modelled.
-- - Heap (libraries/increasing_heap_allocator, with kernel/src/memory_management/kernel_heap_allocator.rs
--   and libraries/emerald_std/src/alloc.rs for its pages): the heap allocator, over a record of
--   operations for the pages. The links of the free list are the order of a list, so the checks for
--   cycles in them are not modelled; the header in front of an allocation is kept by its address, apart
--   from what the callers and the free blocks write. `get_free_block` runs on fuel for two rounds.
--   `core::alloc::Layout` is computed without bounds, with the bound as an assertion. Place is the
--   reference of `free_block`; Scan, Relink, Walk and Release are about that function, Count about the
--   bytes that blocks cover, Fit, Grow and Search about finding a block, Offset and Sizes about
--   alignment, Carve, Alloc, Calls and Free about the calls, Invariant says what holds between
--   them, and History is about sequences of calls. Kernel and User fill the record of the pages, User
--   by the heap of Scheduler/UserHeap.
--
-- Interrupts, files, the drivers and the programs of the user are not modelled either:
-- they work on hardware registers or are too large to follow here.
pub mod Prelude
pub mod Ring
pub mod Memory
pub mod Heap
pub mod Fat
pub mod Sync
pub mod Clock
pub mod Pipe
pub mod Keyboard
pub mod Mouse
pub mod Scheduler
pub mod Cmdline
